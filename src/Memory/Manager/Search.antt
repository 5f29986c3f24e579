-- ===== src/Memory/Manager/Search.antt =====
-- The three searches of lab-3-memory/src/memmgr.c against searches of the list of blocks.
use snu_2021_fall_sys_prog.Common.{
  ℕ, zero, suc, ◌+◌, ◌≤◌, ◌<◌, ◌≡◌, refl, inl, inr, Bool, true, false, ◌&&◌, Option, none, some,
  List, [], ◌∷◌, arith, leb, ◌==◌, if◌then◌else◌, Bool-cases, Option-cases,
}
use snu_2021_fall_sys_prog.Common.Run.{ok}
use snu_2021_fall_sys_prog.Memory.DataSegment.{null}
use snu_2021_fall_sys_prog.Memory.Manager.{Manager, free, get_size, get_status, next_ptr}
use snu_2021_fall_sys_prog.Memory.Manager.Layout.{
  Block, Layout, BlockAt, IsHeap, Layout-le, BlockAt-bounds, get_lem, size_tag, status_tag,
}
use snu_2021_fall_sys_prog.Memory.Manager.Policies.{unfit, skip_unfit, found_at, ff_get_free_block}

-- A free block of at least `wanted` bytes.
abbrev pub fits : ℕ → Block → Bool
fits wanted b = leb wanted b.bytes && b.flag == free

-- The address of the first such block, for blocks that begin at `p`.
unfoldable pub first_fit : (wanted p : ℕ) → List Block → Option ℕ
first_fit wanted p [] = none
first_fit wanted p (b ∷ bs) =
    let rest = first_fit wanted (p + b.bytes) bs in if fits wanted b then some p else rest

-- The blocks from the one at `q` on.
unfoldable pub blocks_from : (q p : ℕ) → List Block → List Block
blocks_from q p [] = []
blocks_from q p (b ∷ bs) =
    let rest = blocks_from q (p + b.bytes) bs in if p == q then b ∷ bs else rest

-- The block pointer for a header address.
abbrev pub pointer : Option ℕ → ℕ
pointer none = null
pointer (some q) = q + 8

-- Part of a heap: the blocks `bs` from `p` to the end of the heap.
pub record IsTail (m : Manager) (p : ℕ) (bs : List Block) : Type 0 where
  pub low : m.ds.heap_start ≤ p
  pub high : m.heap_end + 32 ≤ m.ds.rw_end
  pub layout : Layout m.words p bs m.heap_end

pub IsTail-rest :
    (m : Manager) (p : ℕ) (b : Block) (bs : List Block)
    → IsTail m p (b ∷ bs)
    → IsTail m (p + b.bytes) bs
IsTail-rest m p b bs t =
    let low = t.low in record { low = omega arith; high = t.high; layout = t.layout.1 }

-- At a block the two fields of the header are the block's.
module _ (m : Manager) (p : ℕ) (b : Block) (bs : List Block) (t : IsTail m p (b ∷ bs)) where
  pub header_inside : p + 32 ≤ m.heap_end
  header_inside =
      let least = t.layout.0.least in
      omega (arith, Layout-le m.words (p + b.bytes) bs m.heap_end t.layout.1)

  pub get_size_header : get_size m p ≡ ok b.bytes
  unfolding get_size
  get_size_header =
      let i = header_inside in
      let l = t.layout.0 in
      rw (
        get_lem m p t.low (omega (arith, t.high)),
        l.header,
        size_tag b.bytes b.flag l.aligned l.flagged,
      )

  pub get_status_header : get_status m p ≡ ok b.flag
  unfolding get_status
  get_status_header =
      let i = header_inside in
      let l = t.layout.0 in
      rw (
        get_lem m p t.low (omega (arith, t.high)),
        l.header,
        status_tag b.bytes b.flag l.aligned l.flagged,
      )

-- A block is unfit exactly if it does not fit.
unfit-fits :
    (wanted : ℕ) (b : Block)
    → b.flag < 2
    → fits wanted b ≡ (if unfit wanted b.bytes b.flag then false else true)
unfit-fits wanted b h = ground arith

-- The address at which the loop stops.
abbrev pub or_end : ℕ → Option ℕ → ℕ
or_end end none = end
or_end end (some q) = q

-- The loop stops at the first fit, or at the end of the heap.
pub skip_unfit-first_fit :
    (fuel : ℕ) (m : Manager) (p wanted : ℕ) (bs : List Block)
    → IsTail m p bs
    → m.heap_end < fuel + p
    → skip_unfit fuel m p wanted ≡ ok (or_end m.heap_end (first_fit wanted p bs))
unfolding skip_unfit first_fit
skip_unfit-first_fit zero m p wanted bs t f =
    absurd (omega (arith, Layout-le m.words p bs m.heap_end t.layout))
skip_unfit-first_fit (suc fuel) m p wanted [] t f = ground (arith, t.layout)
skip_unfit-first_fit (suc fuel) m p wanted (b ∷ bs) t f = ground (
  arith,
  header_inside m p b bs t,
  t.layout.0.least,
  t.layout.0.flagged,
  get_size_header m p b bs t,
  get_status_header m p b bs t,
  skip_unfit-first_fit fuel m (p + b.bytes) wanted bs (IsTail-rest m p b bs t),
)

-- The first fit is a block of the list, it fits, and it lies below the end.
pub first_fit-BlockAt :
    (wanted p q : ℕ) (bs : List Block)
    → first_fit wanted p bs ≡ some q
    → (b : Block) × BlockAt p bs q b × (fits wanted b ≡ true)
unfolding first_fit
first_fit-BlockAt wanted p q [] e = cc
first_fit-BlockAt wanted p q (b ∷ bs) e = elim (Bool-cases (fits wanted b)) [
  | inl fit ↦ (b, inl (ground arith, refl), fit)
  | inr not_fit ↦
      let (c, at, fit) = first_fit-BlockAt wanted (p + b.bytes) q bs (rw not_fit at e) in
      (c, inr at, fit)
]

pub found_at-first_fit :
    (m : Manager) (p wanted : ℕ) (bs : List Block)
    → Layout m.words p bs m.heap_end
    → found_at m (or_end m.heap_end (first_fit wanted p bs)) ≡ pointer (first_fit wanted p bs)
unfolding found_at next_ptr
found_at-first_fit m p wanted bs l = elim (Option-cases (first_fit wanted p bs)) [
  | inl e ↦ rw e (ground arith)
  | inr (q, e) ↦
      let (b, at, fit) = first_fit-BlockAt wanted p q bs e in
      let (lo, hi, is) = BlockAt-bounds m.words p m.heap_end q bs b l at in
      rw e (ground (arith, is.least))
]

pub IsHeap-IsTail : (m : Manager) (bs : List Block) → IsHeap m bs → IsTail m m.heap_start bs
IsHeap-IsTail m bs h =
    let first = h.first in record { low = omega arith; high = h.last; layout = h.layout }

-- On a heap of blocks `bs` the first-fit search returns, without an error, the block pointer of
-- the first free block in address order that has at least the wanted size, or NULL if there is
-- none, and changes nothing.
pub ff_get_free_block-first_fit :
    (m : Manager) (bs : List Block) (wanted : ℕ)
    → IsHeap m bs
    → ff_get_free_block m wanted ≡ ok (pointer (first_fit wanted m.heap_start bs), m)
unfolding ff_get_free_block
ff_get_free_block-first_fit m bs wanted h = ground (
  arith,
  h.ready,
  skip_unfit-first_fit (m.heap_end + 1) m m.heap_start wanted bs (IsHeap-IsTail m bs h),
  found_at-first_fit m m.heap_start wanted bs h.layout,
)
