-- ===== src/Memory/Manager/Layout.antt =====
-- The abstract view of the heap of lab-3-memory/src/memmgr.c: the list of its blocks.
use snu_2021_fall_sys_prog.Common.{
  ℕ, refl, ◌+◌, ◌-◌, ◌%◌, ◌≤◌, ◌<◌, ◌≡◌, ◌⊎◌, ◌∙◌, sym, subst, ap, eq→==, ne→==, inl, inr, true,
  List, [], ◌∷◌, ◌++◌, arith, ◌==◌, if◌then◌else◌,
}
use snu_2021_fall_sys_prog.Common.Run.{ok}
use snu_2021_fall_sys_prog.Memory.DataSegment.{u64}
use snu_2021_fall_sys_prog.Memory.Manager.{
  Manager, Words, size, status, pack, get, put, accessible, update, alloc, free,
}

-- The size of a block, header and footer included, and its status.
pub record Block : Type 0 where
  pub bytes : ℕ
  pub flag : ℕ

abbrev pub block : ℕ → ℕ → Block
block n s = record { bytes = n; flag = s }

-- The block with its header at `p` has equal boundary tags, a positive multiple of 32 bytes and a
-- status that is FREE or ALLOC.
pub record IsBlock (w : Words) (p : ℕ) (b : Block) : Type 0 where
  pub header : w p ≡ b.bytes + b.flag
  pub footer : w (p + b.bytes - 8) ≡ b.bytes + b.flag
  pub least : 32 ≤ b.bytes
  pub aligned : b.bytes % 32 ≡ 0
  pub flagged : b.flag < 2

-- The blocks `bs` tile the words from `p` up to `end`.
abbrev pub Layout : Words → ℕ → List Block → ℕ → Type 0
Layout w p [] end = p ≡ end
Layout w p (b ∷ bs) end = IsBlock w p b × Layout w (p + b.bytes) bs end

-- The two memories agree from `p` up to `end`.
abbrev pub Agree : Words → Words → ℕ → ℕ → Type 0
Agree w w' p end = (a : ℕ) → p ≤ a → a < end → w' a ≡ w a

pub Layout-le : (w : Words) (p : ℕ) (bs : List Block) (end : ℕ) → Layout w p bs end → p ≤ end
Layout-le w p [] end h = omega arith
Layout-le w p (b ∷ bs) end h = omega (arith, Layout-le w (p + b.bytes) bs end h.1)

pub IsBlock-Agree :
    (w w' : Words) (p : ℕ) (b : Block) → IsBlock w p b → Agree w w' p (p + b.bytes) → IsBlock w' p b
IsBlock-Agree w w' p b h same = record {
  header = same p (omega arith) (omega arith) ∙ h.header;
  footer = same (p + b.bytes - 8) (omega arith) (omega arith) ∙ h.footer;
  least = h.least;
  aligned = h.aligned;
  flagged = h.flagged;
}

pub Layout-Agree :
    (w w' : Words) (p : ℕ) (bs : List Block) (end : ℕ)
    → Layout w p bs end
    → Agree w w' p end
    → Layout w' p bs end
Layout-Agree w w' p [] end h same = h
Layout-Agree w w' p (b ∷ bs) end h same =
    let le = Layout-le w (p + b.bytes) bs end h.1 in
    (
      IsBlock-Agree w w' p b h.0 (λ a lo hi. same a lo (omega arith)),
      Layout-Agree w w' (p + b.bytes) bs end h.1 (λ a lo hi. same a (omega arith) hi),
    )

pub Layout-append :
    (w : Words) (p q end : ℕ) (xs ys : List Block)
    → Layout w p xs q
    → Layout w q ys end
    → Layout w p (xs ++ ys) end
Layout-append w p q end [] ys h k = rw h k
Layout-append w p q end (x ∷ xs) ys h k = (h.0, Layout-append w (p + x.bytes) q end xs ys h.1 k)

-- `b` is the block of the list whose header is at `q`.
abbrev pub BlockAt : ℕ → List Block → ℕ → Block → Type 0
BlockAt p [] q b = ⊥
BlockAt p (x ∷ bs) q b = ((p ≡ q) × (x ≡ b)) ⊎ BlockAt (p + x.bytes) bs q b

-- The list with the block at `q` replaced by the blocks `new`.
pub replace : List Block → ℕ → ℕ → List Block → List Block
replace new q p [] = []
replace new q p (b ∷ bs) = if p == q then new ++ bs else b ∷ replace new q (p + b.bytes) bs

pub BlockAt-bounds :
    (w : Words) (p end q : ℕ) (bs : List Block) (b : Block)
    → Layout w p bs end
    → BlockAt p bs q b
    → (p ≤ q) × (q + b.bytes ≤ end) × IsBlock w q b
BlockAt-bounds w p end q [] b h at = absurd at
BlockAt-bounds w p end q (x ∷ bs) b h (inl e) =
    let le = Layout-le w (p + x.bytes) bs end h.1 in
    let size : x.bytes ≡ b.bytes = ap (λ (y : Block). y.bytes) e.1 in
    (omega arith, omega arith, subst (λ y. IsBlock w q y) e.1 (subst (λ r. IsBlock w r x) e.0 h.0))
BlockAt-bounds w p end q (x ∷ bs) b h (inr at) =
    let r = BlockAt-bounds w (p + x.bytes) end q bs b h.1 at in (omega arith, r.1, r.2)

-- A write inside one block that leaves well-formed blocks there replaces it in the list.
pub Layout-replace :
    (w w' : Words) (p end q : ℕ) (bs new : List Block) (b : Block)
    → Layout w p bs end
    → BlockAt p bs q b
    → ((a : ℕ) → (a < q) ⊎ (q + b.bytes ≤ a) → w' a ≡ w a)
    → Layout w' q new (q + b.bytes)
    → Layout w' p (replace new q p bs) end
unfolding replace
Layout-replace w w' p end q [] new b h at same l = absurd at
Layout-replace w w' p end q (x ∷ bs) new b h (inl e) same l =
    let size : x.bytes ≡ b.bytes = ap (λ (y : Block). y.bytes) e.1 in
    let here = subst (λ r. Layout w' r new (q + b.bytes)) (sym e.0) l in
    rw (eq→== p q e.0) (
      Layout-append w' p (q + b.bytes) end new bs here (
        subst (λ r. Layout w' r bs end) (omega arith)
          (Layout-Agree w w' (p + x.bytes) bs end h.1 (λ a lo hi. same a (inr (omega arith))))))
Layout-replace w w' p end q (x ∷ bs) new b h (inr at) same l =
    let low = (BlockAt-bounds w (p + x.bytes) end q bs b h.1 at).0 in
    let least = h.0.least in
    rw (ne→== p q (λ e. omega arith)) (
      IsBlock-Agree w w' p x h.0 (λ a lo hi. same a (inl (omega arith))),
      Layout-replace w w' (p + x.bytes) end q bs new b h.1 at same l,
    )

-- The first of the blocks that replace the one at `q` stands there.
pub BlockAt-replace :
    (w : Words) (p end q : ℕ) (bs rest : List Block) (b new : Block)
    → Layout w p bs end
    → BlockAt p bs q b
    → BlockAt p (replace (new ∷ rest) q p bs) q new
unfolding replace
BlockAt-replace w p end q [] rest b new h at = absurd at
BlockAt-replace w p end q (x ∷ bs) rest b new h (inl e) = rw (eq→== p q e.0) (inl (e.0, refl))
BlockAt-replace w p end q (x ∷ bs) rest b new h (inr at) =
    let low = (BlockAt-bounds w (p + x.bytes) end q bs b h.1 at).0 in
    let least = h.0.least in
    rw (ne→== p q (λ e. omega arith))
      (inr (BlockAt-replace w (p + x.bytes) end q bs rest b new h.1 at))

-- The manager is initialised and its heap consists of the blocks `bs` between two sentinels, all
-- inside the accessible part of the data segment.
pub record IsHeap (m : Manager) (bs : List Block) : Type 0 where
  pub ready : m.mm_initialized ≡ true
  pub first : m.ds.heap_start + 32 ≡ m.heap_start
  pub aligned : m.heap_start % 32 ≡ 0
  pub positive : 0 < m.ds.heap_start
  pub last : m.heap_end + 32 ≤ m.ds.rw_end
  pub fits : m.ds.rw_end < u64
  pub prologue : m.words (m.heap_start - 8) ≡ alloc
  pub epilogue : m.words m.heap_end ≡ alloc
  pub layout : Layout m.words m.heap_start bs m.heap_end

-- Reads and writes inside the heap succeed.
pub get_lem :
    (m : Manager) (p : ℕ) → m.ds.heap_start ≤ p → p + 8 ≤ m.ds.rw_end → get m p ≡ ok (m.words p)
unfolding get accessible
get_lem m p lo hi = ground arith

pub put_lem :
    (m : Manager) (p v : ℕ)
    → m.ds.heap_start ≤ p
    → p + 8 ≤ m.ds.rw_end
    → put m p v ≡ ok (record m { words = update m.words p v })
unfolding put accessible
put_lem m p v lo hi = ground arith

-- The two parts of a boundary tag.
pub size_tag : (n s : ℕ) → n % 32 ≡ 0 → s < 2 → size (n + s) ≡ n
unfolding size
size_tag n s h k = omega arith

pub status_tag : (n s : ℕ) → n % 32 ≡ 0 → s < 2 → status (n + s) ≡ s
unfolding status
status_tag n s h k = omega arith

pub pack-free : (n : ℕ) → pack n free ≡ n + free
unfolding pack
pack-free n = omega arith

pub pack-alloc : (n : ℕ) → n % 32 ≡ 0 → pack n alloc ≡ n + alloc
unfolding pack
pack-alloc n h = omega arith
