-- ===== src/Memory/Manager/Extending.antt =====
-- mm_malloc of lab-3-memory/src/memmgr.c when no block fits, and the search after it.
use snu_2021_fall_sys_prog.Common.{
  ℕ, zero, suc, ◌+◌, ◌-◌, ◌%◌, ◌≤◌, ◌<◌, ◌≡◌, refl, true, none, List, [], ◌∷◌, arith, ltb,
  if◌then◌else◌, subst, sym,
}
use native.Mathlib.Nat.{add-zero}
use snu_2021_fall_sys_prog.Common.Run.{ok, out_of_fuel, Returns}
use snu_2021_fall_sys_prog.Memory.DataSegment.{u64}
use snu_2021_fall_sys_prog.Memory.DataSegment.Sbrk.{IsSegment, Grants, moved_to}
use snu_2021_fall_sys_prog.Memory.Manager.{
  Manager, Policy, pack, alloc, update, put, size, status, get_size, get_status,
}
use snu_2021_fall_sys_prog.Memory.Manager.Layout.{
  Block, Layout, IsHeap, Layout-le, Layout-Agree, get_lem, put_lem, pack-alloc, size_tag,
  status_tag,
}
use snu_2021_fall_sys_prog.Memory.Manager.Placing.{tag, IsInside, put_tags_lem}
use snu_2021_fall_sys_prog.Memory.Manager.Search.{first_fit, ff_get_free_block-first_fit}
use snu_2021_fall_sys_prog.Memory.Manager.Malloc.{adjust_bounds}
use snu_2021_fall_sys_prog.Memory.Manager.Starting.{grow_lem}
use snu_2021_fall_sys_prog.Memory.Manager.Policies.{find_block, skip_unfit, unfit}
use snu_2021_fall_sys_prog.Memory.Manager.Operations.{
  adjust, grow, put_tags, extend, end_below, malloc_at, mm_malloc,
}

-- A zero-sized allocated block below the end of the heap: the blocks `bs` from `p` lead to it.
pub record IsTrap (m : Manager) (p trap : ℕ) (bs : List Block) : Type 0 where
  pub low : m.ds.heap_start ≤ p
  pub before_end : trap < m.heap_end
  pub readable : m.heap_end ≤ m.ds.rw_end
  pub room : trap + 8 ≤ m.ds.rw_end
  pub zero_size : m.words trap ≡ alloc
  pub layout : Layout m.words p bs trap

-- Once the search is at such a block, it never ends.
at_trap :
    (fuel : ℕ) (m : Manager) (p trap wanted : ℕ)
    → IsTrap m p trap []
    → skip_unfit fuel m p wanted ≡ out_of_fuel
unfolding skip_unfit get_size get_status size status
at_trap zero m p trap wanted t = refl
at_trap (suc fuel) m p trap wanted t =
    let e : p ≡ trap = t.layout in
    ground (
      arith,
      t.before_end,
      t.zero_size,
      get_lem m p t.low (omega (arith, e, t.room)),
      at_trap fuel m p trap wanted t,
      at_trap fuel m (p + 0) trap wanted (rw (add-zero p) t),
    )

search_traps :
    (fuel : ℕ) (m : Manager) (p trap wanted : ℕ) (bs : List Block)
    → IsTrap m p trap bs
    → first_fit wanted p bs ≡ none
    → skip_unfit fuel m p wanted ≡ out_of_fuel
unfolding skip_unfit first_fit get_size get_status
search_traps fuel m p trap wanted [] t e = at_trap fuel m p trap wanted t
search_traps zero m p trap wanted (b ∷ bs) t e = refl
search_traps (suc fuel) m p trap wanted (b ∷ bs) t e =
    let is = t.layout.0 in
    let le = Layout-le m.words (p + b.bytes) bs trap t.layout.1 in
    let low = t.low in
    let rest : IsTrap m (p + b.bytes) trap bs = record {
      low = omega arith;
      before_end = t.before_end;
      readable = t.readable;
      room = t.room;
      zero_size = t.zero_size;
      layout = t.layout.1;
    } in
    ground (
      arith,
      le,
      is.least,
      is.header,
      is.flagged,
      t.before_end,
      get_lem m p t.low (omega (arith, is.least, t.room)),
      size_tag b.bytes b.flag is.aligned is.flagged,
      status_tag b.bytes b.flag is.aligned is.flagged,
      search_traps fuel m (p + b.bytes) trap wanted bs rest,
    )

-- The amount by which the heap grows.
abbrev pub growth : ℕ → ℕ
growth asize = if ltb 4096 asize then asize else 4096

-- The data segment of a heap that may grow by `x` bytes: the brk is on a 32-byte boundary, 32
-- bytes above the end of the heap, and everything below it is accessible.
pub record CanGrow (m : Manager) (x : ℕ) : Type 0 where
  pub segment : IsSegment m.ds
  pub granted : Grants m.ds
  pub protected : m.ds.do_mprotect ≡ true
  pub flush : m.heap_end + 32 ≡ m.ds.heap_brk
  pub usable : m.ds.rw_end ≡ m.ds.heap_brk
  pub aligned : m.ds.heap_brk % 32 ≡ 0
  pub room : m.ds.heap_brk + x < m.ds.heap_end

-- The manager after the extension.
extended : Manager → ℕ → Manager
extended m x = record m {
  ds = moved_to m.ds (m.ds.heap_brk + x);
  ds_heap_brk = m.ds.heap_brk + x;
  heap_end = m.ds.heap_brk + x - 32;
  words = tag (update m.words (m.ds.heap_brk + x - 32) 1) (m.ds.heap_brk - 8) x 1;
}

growth_aligned : (asize : ℕ) → asize % 32 ≡ 0 → growth asize % 32 ≡ 0
growth_aligned asize h = ground arith

growth_least : (asize : ℕ) → (4096 ≤ growth asize) × (asize ≤ growth asize)
growth_least asize = ground arith

module _ (m : Manager) (bs : List Block) (h : IsHeap m bs) (asize x : ℕ) (ex : growth asize ≡ x)
    (c : CanGrow m x) (a : x % 32 ≡ 0) (least : 4096 ≤ x) where
  extend_lem : extend m asize ≡ ok (m.ds.heap_brk, extended m x)
  unfolding extend extended pack
  extend_lem = rw ex (rw grows (rw end_lem (rw put_end (rw tags))))
    where
      s : IsSegment m.ds
      s = c.segment

      brk : ℕ
      brk = m.ds.heap_brk

      m₂ : Manager
      m₂ = record m { ds = moved_to m.ds (brk + x); ds_heap_brk = brk + x; heap_end = brk + x - 32 }

      m₃ : Manager
      m₃ = record m₂ { words = update m.words (brk + x - 32) 1 }

      end_lem : end_below (brk + x) ≡ brk + x - 32
      end_lem = unfold end_below in omega (arith, c.aligned, a, least)

      grows : grow x m ≡ ok (brk, record m { ds = moved_to m.ds (brk + x); ds_heap_brk = brk + x })
      grows =
          grow_lem x (brk + x) m s c.granted c.protected (omega (arith, least))
            (omega (arith, c.room, s.high, s.fits)) (omega (arith, s.above)) c.room

      put_end : put m₂ (brk + x - 32) 1 ≡ ok m₃
      put_end = put_lem m₂ (brk + x - 32) 1 (omega (arith, s.above, least)) (omega (arith, least))

      above : 8 ≤ brk
      above = omega (arith, c.flush)

      heap : m.heap_start ≤ m.heap_end
      heap = Layout-le m.words m.heap_start bs m.heap_end h.layout

      i : IsInside m₃ (brk - 8) x
      i = record {
        low = omega (arith, c.flush, h.first, heap);
        high = omega (arith, above);
        least = omega (arith, least);
        aligned = a;
      }

      tags : put_tags m₃ brk x alloc ≡ ok (extended m x)
      tags =
          let e : brk - 8 + 8 ≡ brk = omega (arith, above) in
          unfold extended in
          subst
            (λ (y : ℕ).
              put_tags m₃ y x alloc ≡ ok (record m₃ { words = tag m₃.words (brk - 8) x alloc }))
            e (put_tags_lem m₃ (brk - 8) x alloc i (omega arith) (pack-alloc x a))

  extended-IsTrap : IsTrap (extended m x) m.heap_start m.heap_end bs
  unfolding extended update
  extended-IsTrap = record {
    low = omega (arith, h.first);
    before_end = omega (arith, c.flush, least);
    readable = omega (arith, least);
    room = omega (arith, c.flush);
    zero_size = ground (arith, h.epilogue, c.flush, least);
    layout =
        Layout-Agree m.words (extended m x).words m.heap_start bs m.heap_end h.layout
          (λ y lo hi. ground (arith, c.flush, least));
  }

-- The state of a heap of blocks `bs` on which no search for `wanted` bytes ends.
pub record IsStuck (m : Manager) (bs : List Block) (brk wanted fuel : ℕ) (r : ℕ × Manager)
    : Type 0 where
  pub result : r.0 ≡ brk
  pub larger : m.heap_end < r.1.heap_end
  pub kept : Layout r.1.words m.heap_start bs m.heap_end
  pub stuck : skip_unfit fuel r.1 r.1.heap_start wanted ≡ out_of_fuel

-- With the first-fit policy on a heap of blocks `bs` none of which fits, and a data segment that
-- can grow: mm_malloc returns the old brk, and leaves the blocks as they were. But the old end
-- sentinel, a block of size 0, now lies inside the heap, so that the next search that no block of
-- `bs` satisfies does not end, whatever the number of rounds.
pub mm_malloc-IsStuck :
    (m : Manager) (bs : List Block) (n wanted fuel : ℕ)
    → IsHeap m bs
    → m.get_free_block ≡ Policy.first_fit
    → CanGrow m (growth (adjust n))
    → 0 < n
    → n + 47 < u64
    → first_fit (adjust n) m.heap_start bs ≡ none
    → first_fit wanted m.heap_start bs ≡ none
    → Returns (IsStuck m bs m.ds.heap_brk wanted fuel) (mm_malloc n m)
unfolding mm_malloc malloc_at find_block extended
mm_malloc-IsStuck m bs n wanted fuel h policy c pos small unfit unfit' =
    subst (Returns (IsStuck m bs m.ds.heap_brk wanted fuel)) (sym run) record {
      result = refl;
      larger = trap.before_end;
      kept = trap.layout;
      stuck = search_traps fuel (extended m x) m.heap_start m.heap_end wanted bs trap unfit';
    }
  where
    x : ℕ
    x = growth (adjust n)

    aligned : x % 32 ≡ 0
    aligned = growth_aligned (adjust n) (adjust_bounds n small).0

    least : 4096 ≤ x
    least = (growth_least (adjust n)).0

    trap : IsTrap (extended m x) m.heap_start m.heap_end bs
    trap = extended-IsTrap m bs h (adjust n) x refl c aligned least

    run : mm_malloc n m ≡ ok (m.ds.heap_brk, extended m x)
    run = ground (
      arith,
      h.ready,
      policy,
      unfit,
      ff_get_free_block-first_fit m bs (adjust n) h,
      extend_lem m bs h (adjust n) x refl c aligned least,
    )
