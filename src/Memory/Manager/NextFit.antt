-- ===== src/Memory/Manager/NextFit.antt =====
-- nf_get_free_block of lab-3-memory/src/memmgr.c against a search of the list of blocks.
use snu_2021_fall_sys_prog.Common.{
  ℕ, ◌+◌, ◌≡◌, ◌⊎◌, refl, inl, inr, Option, none, some, List, [], ◌∷◌, arith, ltb, ◌==◌,
  if◌then◌else◌, Option-cases, eq→==, ne→==, subst,
}
use snu_2021_fall_sys_prog.Common.Run.{ok}
use snu_2021_fall_sys_prog.Memory.DataSegment.{null}
use snu_2021_fall_sys_prog.Memory.Manager.{Manager, Words}
use snu_2021_fall_sys_prog.Memory.Manager.Layout.{Block, Layout, BlockAt, IsHeap, BlockAt-bounds}
use snu_2021_fall_sys_prog.Memory.Manager.Search.{
  first_fit, blocks_from, pointer, or_end, IsTail, skip_unfit-first_fit, first_fit-BlockAt,
  found_at-first_fit, IsHeap-IsTail,
}
use snu_2021_fall_sys_prog.Memory.Manager.Policies.{nf_get_free_block}

-- Where the search begins.
abbrev pub search_start : Manager → ℕ
search_start m = if m.nf_ptr == null then m.heap_start else m.nf_ptr

-- The saved pointer is NULL or the header of a block.
abbrev pub IsSaved : Manager → List Block → Type 0
IsSaved m bs = (m.nf_ptr ≡ null) ⊎ ((b : Block) × BlockAt m.heap_start bs m.nf_ptr b)

abbrev pub or_null : Option ℕ → ℕ
or_null none = null
or_null (some q) = q

-- The blocks that the search looks at.
abbrev pub left : Manager → List Block → List Block
left m bs = blocks_from (search_start m) m.heap_start bs

blocks_from-Layout :
    (w : Words) (p end q : ℕ) (bs : List Block) (b : Block)
    → Layout w p bs end
    → BlockAt p bs q b
    → Layout w q (blocks_from q p bs) end
unfolding blocks_from
blocks_from-Layout w p end q [] b h at = absurd at
blocks_from-Layout w p end q (x ∷ bs) b h (inl e) =
    rw (eq→== p q e.0) (subst (λ r. Layout w r (x ∷ bs) end) e.0 h)
blocks_from-Layout w p end q (x ∷ bs) b h (inr at) =
    let low = (BlockAt-bounds w (p + x.bytes) end q bs b h.1 at).0 in
    let least = h.0.least in
    rw (ne→== p q (λ e. omega arith)) (blocks_from-Layout w (p + x.bytes) end q bs b h.1 at)

blocks_from-start : (p : ℕ) (bs : List Block) → blocks_from p p bs ≡ bs
unfolding blocks_from
blocks_from-start p [] = refl
blocks_from-start p (b ∷ bs) = rw (eq→== p p refl)

search-IsTail :
    (m : Manager) (bs : List Block)
    → IsHeap m bs
    → IsSaved m bs
    → IsTail m (search_start m) (left m bs)
search-IsTail m bs h (inl e) =
    rw (eq→== m.nf_ptr null e, blocks_from-start m.heap_start bs) (IsHeap-IsTail m bs h)
search-IsTail m bs h (inr (b, at)) =
    let first = h.first in
    let (low, high, is) =
      BlockAt-bounds m.words m.heap_start m.heap_end m.nf_ptr bs b h.layout at in
    rw (ne→== m.nf_ptr null (λ e. omega arith)) record {
      low = omega arith;
      high = h.last;
      layout = blocks_from-Layout m.words m.heap_start m.heap_end m.nf_ptr bs b h.layout at;
    }

below_end :
    (m : Manager) (p wanted : ℕ) (bs : List Block)
    → Layout m.words p bs m.heap_end
    → (if ltb (or_end m.heap_end (first_fit wanted p bs)) m.heap_end
        then or_end m.heap_end (first_fit wanted p bs)
        else null)
      ≡ or_null (first_fit wanted p bs)
below_end m p wanted bs l = elim (Option-cases (first_fit wanted p bs)) [
  | inl e ↦ rw e (ground arith)
  | inr (q, e) ↦
      let (b, at, fit) = first_fit-BlockAt wanted p q bs e in
      let (lo, hi, is) = BlockAt-bounds m.words p m.heap_end q bs b l at in
      rw e (ground (arith, is.least))
]

-- On a heap of blocks `bs` whose saved pointer is NULL or a block, the next-fit search returns the
-- first block that fits among those from the saved pointer (from the start, if it is NULL) to the
-- end of the heap, and saves it; if there is none it returns NULL and saves NULL. It does not look
-- at the blocks below the saved pointer.
pub nf_get_free_block-first_fit :
    (m : Manager) (bs : List Block) (wanted : ℕ)
    → IsHeap m bs
    → IsSaved m bs
    → nf_get_free_block m wanted
      ≡ ok (
        pointer (first_fit wanted (search_start m) (left m bs)),
        record m { nf_ptr = or_null (first_fit wanted (search_start m) (left m bs)) },
      )
unfolding nf_get_free_block
nf_get_free_block-first_fit m bs wanted h s =
    let t = search-IsTail m bs h s in
    ground (
      arith,
      h.ready,
      skip_unfit-first_fit (m.heap_end + 1) m (search_start m) wanted (left m bs) t,
      found_at-first_fit m (search_start m) wanted (left m bs) t.layout,
      below_end m (search_start m) wanted (left m bs) t.layout,
      Option-cases (first_fit wanted (search_start m) (left m bs)),
    )
