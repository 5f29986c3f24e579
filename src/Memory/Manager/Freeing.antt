-- ===== src/Memory/Manager/Freeing.antt =====
-- mm_free of lab-3-memory/src/memmgr.c on the list of blocks.
use snu_2021_fall_sys_prog.Common.{
  ℕ, ◌+◌, ◌-◌, ◌≤◌, ◌<◌, ◌≡◌, ◌≢◌, ◌∙◌, ◌⊎◌, refl, inl, inr, not, List, [], ◌∷◌, arith, ◌==◌, ne→==,
  subst, sym, ap,
}
use snu_2021_fall_sys_prog.Common.Run.{ok, fault, panic, Returns, ◌>>=◌}
use snu_2021_fall_sys_prog.Memory.Manager.{
  Manager, free, alloc, size, status, get, accessible, update, get_size, get_status, next_blkp,
  prev_blkp, hdrp, prev_ptr,
}
use snu_2021_fall_sys_prog.Memory.Manager.Layout.{
  Block, block, IsBlock, BlockAt, IsHeap, replace, Layout-replace, BlockAt-bounds, get_lem,
  status_tag, pack-free,
}
use snu_2021_fall_sys_prog.Memory.Manager.Placing.{tag, IsInside, put_tags_lem, get_size_lem}
use snu_2021_fall_sys_prog.Memory.Manager.Operations.{
  mm_free, merge_neighbours, coalesce, word_hdrp,
}

get_status_lem :
    (m : Manager) (p : ℕ)
    → m.ds.heap_start ≤ p
    → p + 8 ≤ m.ds.rw_end
    → get_status m p ≡ ok (status (m.words p))
unfolding get_status
get_status_lem m p lo hi = rw (get_lem m p lo hi)

get_size_at :
    (m : Manager) (p : ℕ)
    → m.ds.heap_start ≤ p
    → p + 8 ≤ m.ds.rw_end
    → get_size m p ≡ ok (size (m.words p))
unfolding get_size
get_size_at m p lo hi = rw (get_lem m p lo hi)

get_status_below : (m : Manager) (p : ℕ) → p < m.ds.heap_start → get_status m p ≡ fault
unfolding get_status get accessible
get_status_below m p h = ground arith

-- A block of the heap, with what is read at its header.
module _ (m : Manager) (bs : List Block) (q n s : ℕ) (h : IsHeap m bs)
    (at : BlockAt m.heap_start bs q (block n s)) where
  block_bounds : (m.heap_start ≤ q) × (q + n ≤ m.heap_end) × IsBlock m.words q (block n s)
  block_bounds = BlockAt-bounds m.words m.heap_start m.heap_end q bs (block n s) h.layout at

  block-IsInside : IsInside m q n
  block-IsInside =
      let is = block_bounds.2 in
      record {
        low = omega (arith, h.first, block_bounds.0);
        high = omega (arith, h.last, block_bounds.1);
        least = is.least;
        aligned = is.aligned;
      }

  status_at : get_status m q ≡ ok s
  unfolding get_status
  status_at =
      let is = block_bounds.2 in
      let i = block-IsInside in
      rw (
        get_lem m q i.low (omega (arith, i.high, i.least)),
        is.header,
        status_tag n s is.aligned is.flagged,
      )

  size_at : get_size m q ≡ ok n
  size_at = let is = block_bounds.2 in get_size_lem m q n s block-IsInside is.flagged is.header

-- Freeing a block that is free already terminates the process.
pub mm_free-panic :
    (m : Manager) (bs : List Block) (q n : ℕ)
    → IsHeap m bs
    → BlockAt m.heap_start bs q (block n free)
    → mm_free (q + 8) m ≡ panic
unfolding mm_free hdrp prev_ptr
mm_free-panic m bs q n h at = ground (arith, h.ready, status_at m bs q n free h at)

-- mm_free up to the coalescing: the two tags of the block are set to free.
freed : (m : Manager) (q n : ℕ) → Manager
freed m q n = record m { words = tag m.words q n free }

mm_free-merge :
    (m : Manager) (bs : List Block) (q n : ℕ)
    → IsHeap m bs
    → BlockAt m.heap_start bs q (block n alloc)
    → mm_free (q + 8) m ≡ merge_neighbours (freed m q n) (q + 8) n
unfolding mm_free hdrp prev_ptr freed
mm_free-merge m bs q n h at = ground (
  arith,
  h.ready,
  status_at m bs q n alloc h at,
  size_at m bs q n alloc h at,
  put_tags_lem m q n free (block-IsInside m bs q n alloc h at) (omega arith) (pack-free n),
)

-- The size in the word below the header at `q`: the footer of the block before, or the sentinel.
abbrev pub size_before : Manager → ℕ → ℕ
size_before m q = size (m.words (q - 8))

-- The words whose low bits mm_free takes for the status of the block before and of the block
-- behind: 56 bytes below the places of their headers.
abbrev pub read_for_prev : Manager → ℕ → ℕ
read_for_prev m q = q + 8 - size_before m q - 64

abbrev pub read_for_next : (q n : ℕ) → ℕ
read_for_next q n = q + 8 + n - 64

module _ (m : Manager) (bs : List Block) (q n : ℕ) (h : IsHeap m bs)
    (at : BlockAt m.heap_start bs q (block n alloc)) where
  size_before_lem : get_size (freed m q n) (q - 8) ≡ ok (size_before m q)
  unfolding freed update
  size_before_lem =
      let bounds = block_bounds m bs q n alloc h at in
      let i = block-IsInside m bs q n alloc h at in
      let low = i.low in
      let least = i.least in
      let first = h.first in
      get_size_at (freed m q n) (q - 8) (omega (arith, bounds.0)) (omega (arith, i.high))
      ∙ ap (λ (v : ℕ). ok (size v)) (ground arith)

  size_again : get_size (freed m q n) q ≡ ok n
  unfolding freed update
  size_again =
      let i = block-IsInside m bs q n alloc h at in
      get_size_lem (freed m q n) q n free
        record { low = i.low; high = i.high; least = i.least; aligned = i.aligned } (omega arith)
        (ground (arith, i.least))

  merge_lem : merge_neighbours (freed m q n) (q + 8) n ≡ (
      get_status (freed m q n) (read_for_prev m q) >>= λ prev_alloc.
      get_status (freed m q n) (read_for_next q n) >>= λ next_alloc.
      coalesce
        (freed m q n)
        (q + 8)
        n
        (read_for_prev m q)
        (q + 8 + n)
        (read_for_next q n)
        (not (prev_alloc == 0))
        (not (next_alloc == 0)))
  unfolding merge_neighbours prev_blkp next_blkp hdrp prev_ptr word_hdrp
  merge_lem = let back : q + 8 - 8 ≡ q = omega arith in rw (back, size_before_lem) (rw size_again)

-- If the word that is read for the block before lies below the heap, the read faults.
mm_free-below :
    (m : Manager) (bs : List Block) (q n : ℕ)
    → IsHeap m bs
    → BlockAt m.heap_start bs q (block n alloc)
    → read_for_prev m q < m.ds.heap_start
    → mm_free (q + 8) m ≡ fault
mm_free-below m bs q n h at below =
    mm_free-merge m bs q n h at
    ∙ merge_lem m bs q n h at
    ∙ rw (get_status_below (freed m q n) (read_for_prev m q) (unfold freed in below)) refl

-- The first block of the heap cannot be freed: prev_hdr is computed on a `TYPE *`, 64 bytes below
-- prev_bp instead of 8, and lies in the guard page below the heap, so that the read faults.
mm_free-first_faults :
    (m : Manager) (bs : List Block) (n : ℕ)
    → IsHeap m bs
    → BlockAt m.heap_start bs m.heap_start (block n alloc)
    → mm_free (m.heap_start + 8) m ≡ fault
unfolding size
mm_free-first_faults m bs n h at =
    mm_free-below m bs m.heap_start n h at (rw h.prologue (omega (arith, h.first, h.positive)))

-- The heap after mm_free of the block at `q` that did not merge anything.
pub record IsFreed (m : Manager) (bs : List Block) (q n : ℕ) (m' : Manager) : Type 0 where
  pub heap : IsHeap m' (replace (block n free ∷ []) q m.heap_start bs)
  pub outside : (x : ℕ) → (x < q) ⊎ (q + n ≤ x) → m'.words x ≡ m.words x
  pub payload : (x : ℕ) → q < x → x < q + n - 8 → m'.words x ≡ m.words x

freed-IsFreed :
    (m : Manager) (bs : List Block) (q n : ℕ)
    → IsHeap m bs
    → BlockAt m.heap_start bs q (block n alloc)
    → IsFreed m bs q n (freed m q n)
unfolding freed update
freed-IsFreed m bs q n h at = record {
  heap = record {
    ready = h.ready;
    first = h.first;
    aligned = h.aligned;
    positive = h.positive;
    last = h.last;
    fits = h.fits;
    prologue = outside (m.heap_start - 8) (inl (omega (arith, h.first, bounds.0))) ∙ h.prologue;
    epilogue = outside m.heap_end (inr bounds.1) ∙ h.epilogue;
    layout =
        Layout-replace m.words (tag m.words q n free) m.heap_start m.heap_end q bs
          (block n free ∷ []) (block n alloc) h.layout at outside (free_block, refl);
  };
  outside = outside;
  payload = λ x lo hi. ground arith;
}
  where
    bounds : (m.heap_start ≤ q) × (q + n ≤ m.heap_end) × IsBlock m.words q (block n alloc)
    bounds = block_bounds m bs q n alloc h at

    least : 32 ≤ n
    least = let is = bounds.2 in is.least

    outside : (x : ℕ) → (x < q) ⊎ (q + n ≤ x) → tag m.words q n free x ≡ m.words x
    outside x o = ground (arith, least)

    free_block : IsBlock (tag m.words q n free) q (block n free)
    free_block =
        let is = bounds.2 in
        record {
          header = ground (arith, least);
          footer = ground (arith, least);
          least = least;
          aligned = is.aligned;
          flagged = omega arith;
        }

-- Freeing an allocated block of `n` bytes at `q`, where the two words that the code takes for the
-- headers of its neighbours lie in the heap and have non-zero status bits: mm_free returns without
-- an error, the block list is the old one with this block free, and besides the block's two tags
-- no word changes. That holds whether or not the neighbours are free.
pub mm_free-IsFreed :
    (m : Manager) (bs : List Block) (q n : ℕ)
    → IsHeap m bs
    → BlockAt m.heap_start bs q (block n alloc)
    → m.ds.heap_start ≤ read_for_prev m q
    → m.ds.heap_start ≤ read_for_next q n
    → status (m.words (read_for_prev m q)) ≢ 0
    → status (m.words (read_for_next q n)) ≢ 0
    → Returns (IsFreed m bs q n) (mm_free (q + 8) m)
unfolding freed update coalesce
mm_free-IsFreed m bs q n h at low_prev low_next prev next =
    subst (Returns (IsFreed m bs q n)) (sym run) (freed-IsFreed m bs q n h at)
  where
    i : IsInside m q n
    i = block-IsInside m bs q n alloc h at

    reads :
        (p : ℕ)
        → m.ds.heap_start ≤ p
        → p + 8 ≤ q + n
        → p ≢ q
        → p ≢ q + n - 8
        → get_status (freed m q n) p ≡ ok (status (m.words p))
    reads p low high ne ne' =
        get_status_lem (freed m q n) p low (omega (arith, i.high))
        ∙ ap (λ (v : ℕ). ok (status v)) (ground arith)

    prev_read :
        get_status (freed m q n) (read_for_prev m q) ≡ ok (status (m.words (read_for_prev m q)))
    prev_read =
        reads (read_for_prev m q) low_prev (omega (arith, i.least)) (omega (arith, h.positive))
          (omega (arith, i.least, h.positive))

    next_read :
        get_status (freed m q n) (read_for_next q n) ≡ ok (status (m.words (read_for_next q n)))
    next_read =
        reads (read_for_next q n) low_next (omega (arith, i.least))
          (omega (arith, i.aligned, i.least)) (omega (arith, i.least))

    run : mm_free (q + 8) m ≡ ok (freed m q n)
    run =
        mm_free-merge m bs q n h at
        ∙ merge_lem m bs q n h at
        ∙ rw
            (
              prev_read,
              next_read,
              ne→== (status (m.words (read_for_prev m q))) 0 prev,
              ne→== (status (m.words (read_for_next q n))) 0 next,
            )
            refl
