-- ===== src/Memory/Manager/Carving.antt =====
-- mm_malloc of lab-3-memory/src/memmgr.c when a block fits: the block is carved in the list.
use snu_2021_fall_sys_prog.Common.{
  ℕ, ◌+◌, ◌-◌, ◌%◌, ◌≤◌, ◌<◌, ◌≡◌, ◌∙◌, ◌⊎◌, refl, inl, inr, List, arith, ltb, Bool-cases, ltb→lt,
  ltb→le,
}
use snu_2021_fall_sys_prog.Common.Run.{Returns}
use snu_2021_fall_sys_prog.Memory.Manager.{Manager, Words, update, free}
use snu_2021_fall_sys_prog.Memory.Manager.Layout.{
  Block, block, IsBlock, Layout, BlockAt, IsHeap, replace, Layout-replace, BlockAt-bounds,
}
use snu_2021_fall_sys_prog.Memory.Manager.Placing.{
  placed, carve, IsInside, place_split, place_whole,
}
use snu_2021_fall_sys_prog.Memory.Manager.Operations.{place}

module _ (w : Words) (q asize n : ℕ) (h : 32 ≤ asize) (a : asize % 32 ≡ 0) (k : n % 32 ≡ 0)
    (le : asize ≤ n) where
  placed-carve : Layout (placed w q asize n) q (carve asize n) (q + n)
  unfolding update
  placed-carve = elim (Bool-cases (ltb asize n)) [
    | inl e ↦ rw e (
      record {
        header = ground arith;
        footer = ground arith;
        least = h;
        aligned = a;
        flagged = omega arith;
      },
      (
        record {
          header = ground arith;
          footer = ground arith;
          least = ground arith;
          aligned = ground arith;
          flagged = omega arith;
        },
        ground arith,
      ),
    )
    | inr e ↦ rw e (
      record {
        header = ground arith;
        footer = ground arith;
        least = h;
        aligned = a;
        flagged = omega arith;
      },
      ground arith,
    )
  ]

  placed-outside : (x : ℕ) → (x < q) ⊎ (q + n ≤ x) → placed w q asize n x ≡ w x
  unfolding update
  placed-outside x o = ground arith

-- A manager `m'` after the block of `n` bytes at `q` was carved for `asize` bytes.
pub record IsCarved (m : Manager) (bs : List Block) (q asize n : ℕ) (m' : Manager) : Type 0 where
  pub heap : IsHeap m' (replace (carve asize n) q m.heap_start bs)
  pub outside : (x : ℕ) → (x < q) ⊎ (q + n ≤ x) → m'.words x ≡ m.words x
  pub segment : m'.ds ≡ m.ds
  pub saved : m'.nf_ptr ≡ m.nf_ptr

-- In a heap of blocks `bs` with a free block of `n` bytes at `q`, and for a multiple of 32 with
-- 32 <= asize <= n, placing `asize` bytes returns without an error. The block list is the old one
-- with that block replaced by an allocated block of `asize` bytes and, if some is left, a free
-- block of the rest; all other blocks stay where they are, and no word outside the block changes.
pub place-IsCarved :
    (m : Manager) (bs : List Block) (q asize n : ℕ)
    → IsHeap m bs
    → BlockAt m.heap_start bs q (block n free)
    → 32 ≤ asize
    → asize % 32 ≡ 0
    → asize ≤ n
    → Returns (IsCarved m bs q asize n) (place m (q + 8) asize)
place-IsCarved m bs q asize n h at least aligned le = elim (Bool-cases (ltb asize n)) [
  | inl e ↦ rw (place_split m q asize n inside header small (ltb→lt asize n e)) carved
  | inr e ↦
      rw (place_whole m q asize n inside header small (omega (arith, ltb→le asize n e))) carved
]
  where
    bounds : (m.heap_start ≤ q) × (q + n ≤ m.heap_end) × IsBlock m.words q (block n free)
    bounds = BlockAt-bounds m.words m.heap_start m.heap_end q bs (block n free) h.layout at

    inside : IsInside m q n
    inside =
        let is = bounds.2 in
        record {
          low = omega (arith, h.first, bounds.0);
          high = omega (arith, h.last, bounds.1);
          least = is.least;
          aligned = is.aligned;
        }

    small : IsInside m q asize
    small = record {
      low = inside.low;
      high = omega (arith, inside.high);
      least = least;
      aligned = aligned;
    }

    header : m.words q ≡ n + free
    header = bounds.2.header

    carved : IsCarved m bs q asize n (record m { words = placed m.words q asize n })
    carved = record {
      heap = record {
        ready = h.ready;
        first = h.first;
        aligned = h.aligned;
        positive = h.positive;
        last = h.last;
        fits = h.fits;
        prologue =
            placed-outside m.words q asize n least aligned inside.aligned le (m.heap_start - 8)
              (inl (omega (arith, h.first, bounds.0)))
            ∙ h.prologue;
        epilogue =
            placed-outside m.words q asize n least aligned inside.aligned le m.heap_end
              (inr (bounds.1))
            ∙ h.epilogue;
        layout =
            Layout-replace m.words (placed m.words q asize n) m.heap_start m.heap_end q bs
              (carve asize n) (block n free) h.layout at
              (placed-outside m.words q asize n least aligned inside.aligned le)
              (placed-carve m.words q asize n least aligned inside.aligned le);
      };
      outside = placed-outside m.words q asize n least aligned inside.aligned le;
      segment = refl;
      saved = refl;
    }
