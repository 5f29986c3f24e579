-- ===== src/Memory/Tests.antt =====
-- The theorems on lab-3-memory/src at concrete heaps, and runs of the memory manager.
use snu_2021_fall_sys_prog.Common.{
  ◌⊎◌, ◌+◌, ◌≡◌, refl, inl, inr, true, false, List, [], ◌∷◌, arith, ◌==◌, if◌then◌else◌,
}
use snu_2021_fall_sys_prog.Common.Run.{ok, Returns, ◌>>=◌}
use snu_2021_fall_sys_prog.Memory.DataSegment.{DataSegment, ds_allocate, ds_sbrk}
use snu_2021_fall_sys_prog.Memory.DataSegment.Sbrk.{
  IsSegment, IsFresh, Moved, ds_allocate-IsFresh, ds_sbrk-Moved,
}
use snu_2021_fall_sys_prog.Memory.Manager.{
  Manager, Policy, Words, alloc, free, status, size, get, put, accessible, update,
}
use snu_2021_fall_sys_prog.Memory.Manager.Layout.{Block, block, IsHeap, BlockAt}
use snu_2021_fall_sys_prog.Memory.Manager.Search.{first_fit, pointer, ff_get_free_block-first_fit}
use snu_2021_fall_sys_prog.Memory.Manager.NextFit.{
  nf_get_free_block-first_fit, search_start, left, or_null,
}
use snu_2021_fall_sys_prog.Memory.Manager.BestFit.{BestFit, bf_get_free_block-BestFit}
use snu_2021_fall_sys_prog.Memory.Manager.Policies.{
  ff_get_free_block, nf_get_free_block, bf_get_free_block, find_block,
}
use snu_2021_fall_sys_prog.Memory.Manager.Operations.{
  place, adjust, mm_init, mm_malloc, mm_calloc, memset, clear_words, clear_low, mm_free, mm_check,
}
use snu_2021_fall_sys_prog.Memory.Manager.Carving.{IsCarved, place-IsCarved}
use snu_2021_fall_sys_prog.Memory.Manager.Malloc.{IsServed, mm_malloc-IsServed, mm_malloc-first_fit}
use snu_2021_fall_sys_prog.Memory.Manager.Clearing.{IsCleared, mm_calloc-IsCleared}
use snu_2021_fall_sys_prog.Memory.Manager.Freeing.{IsFreed, mm_free-IsFreed}
use snu_2021_fall_sys_prog.Memory.Manager.Starting.{IsClean, mm_init-IsHeap}
use snu_2021_fall_sys_prog.Memory.Manager.Checking.{TagsAgree, mm_check-TagsAgree}
use snu_2021_fall_sys_prog.Memory.Manager.Startup.{first_malloc, first_malloc-coherent}
use snu_2021_fall_sys_prog.Memory.Manager.Extending.{IsStuck, mm_malloc-IsStuck}

-- A data segment of 1 MiB at 61440, with pages of 4096 bytes, before and after the first ds_sbrk.
abbrev unused : DataSegment
unused = record {
  start = 61440;
  end = 1118208;
  heap_start = 65536;
  heap_brk = 65536;
  heap_end = 1114112;
  page_size = 4096;
  initialized = true;
  do_mprotect = true;
  num_sbrk = 0;
  rw_end = 65536;
  mprotect = λ a n p. true;
}

abbrev used : DataSegment
used = record unused { heap_brk = 69632; num_sbrk = 1; rw_end = 69632 }

-- Three allocated blocks and a free one; all other words hold 7.
abbrev demo_words : Words
demo_words p =
    if p == 65560
    then 1
    else if p == 65568
    then 65
    else if p == 65624
    then 65
    else if p == 65632
    then 65
    else if p == 65688
    then 65
    else if p == 65696
    then 97
    else if p == 65784
    then 97
    else if p == 65792
    then 3808
    else if p == 69592
    then 3808
    else if p == 69600
    then 1
    else 7

abbrev demo : Manager
demo = record {
  words = demo_words;
  ds = used;
  ds_heap_start = 65536;
  ds_heap_brk = 69632;
  heap_start = 65568;
  heap_end = 69600;
  page_size = 4096;
  get_free_block = Policy.first_fit;
  mm_initialized = true;
  nf_ptr = 0;
}

abbrev demo_blocks : List Block
demo_blocks = block 64 alloc ∷ block 64 alloc ∷ block 96 alloc ∷ block 3808 free ∷ []

unused-IsSegment : IsSegment unused
unused-IsSegment = record {
  ready = refl;
  paged = omega arith;
  low = refl;
  above = omega arith;
  below = omega arith;
  high = refl;
  fits = omega arith;
}

used-IsSegment : IsSegment used
used-IsSegment = record {
  ready = refl;
  paged = omega arith;
  low = refl;
  above = omega arith;
  below = omega arith;
  high = refl;
  fits = omega arith;
}

demo-IsHeap : IsHeap demo demo_blocks
demo-IsHeap = record {
  ready = refl;
  first = refl;
  aligned = refl;
  positive = omega arith;
  last = omega arith;
  fits = omega arith;
  prologue = refl;
  epilogue = refl;
  layout = (
    record {
      header = refl;
      footer = refl;
      least = omega arith;
      aligned = refl;
      flagged = omega arith;
    },
    (
      record {
        header = refl;
        footer = refl;
        least = omega arith;
        aligned = refl;
        flagged = omega arith;
      },
      (
        record {
          header = refl;
          footer = refl;
          least = omega arith;
          aligned = refl;
          flagged = omega arith;
        },
        (
          record {
            header = refl;
            footer = refl;
            least = omega arith;
            aligned = refl;
            flagged = omega arith;
          },
          refl,
        ),
      ),
    ),
  );
}

third : BlockAt 65568 demo_blocks 65696 (block 96 alloc)
third = inr (inr (inl (refl, refl)))

fourth : BlockAt 65568 demo_blocks 65792 (block 3808 free)
fourth = inr (inr (inr (inl (refl, refl))))

mm_malloc-first_fit_example : Returns (IsServed demo demo_blocks 65792 100) (mm_malloc 100 demo)
unfolding first_fit adjust
mm_malloc-first_fit_example =
    mm_malloc-first_fit demo demo_blocks 65792 100 demo-IsHeap refl (omega arith) (omega arith) refl

mm_calloc-IsCleared_example : Returns (IsCleared demo demo_blocks 65792 99) (mm_calloc 9 11 demo)
unfolding first_fit adjust
mm_calloc-IsCleared_example =
    mm_calloc-IsCleared demo demo_blocks 65792 9 11 demo-IsHeap refl (omega arith) (omega arith)
      refl

-- 99 bytes: 12 words, and the three low bytes of a word with all bits set.
memset_run :
    (do
      m₀ ← put demo 65896 18446744073709551615
      m ← memset 65800 99 m₀
      ok (m.words 65800 ∷ m.words 65896 ∷ m.words 65904 ∷ []))
    ≡ ok (0 ∷ 18446744073692774400 ∷ 7 ∷ [])
unfolding memset clear_words clear_low get put accessible update
memset_run = refl

mm_malloc-IsServed_example : Returns (IsServed demo demo_blocks 65792 100) (mm_malloc 100 demo)
unfolding adjust find_block
mm_malloc-IsServed_example =
    mm_malloc-IsServed demo demo demo_blocks 65792 100 (block 3808 free) demo-IsHeap (omega arith)
      (omega arith)
      (unfold first_fit in ff_get_free_block-first_fit demo demo_blocks 128 demo-IsHeap) demo-IsHeap
      fourth refl

place-IsCarved_example : Returns (IsCarved demo demo_blocks 65792 128 3808) (place demo 65800 128)
place-IsCarved_example =
    place-IsCarved demo demo_blocks 65792 128 3808 demo-IsHeap fourth (omega arith) refl
      (omega arith)

mm_free-IsFreed_example : Returns (IsFreed demo demo_blocks 65696 96) (mm_free 65704 demo)
unfolding size status
mm_free-IsFreed_example =
    mm_free-IsFreed demo demo_blocks 65696 96 demo-IsHeap third (omega arith) (omega arith)
      (omega arith) (omega arith)

ff_get_free_block-first_fit_example :
    ff_get_free_block demo 128 ≡ ok (pointer (first_fit 128 65568 demo_blocks), demo)
ff_get_free_block-first_fit_example = ff_get_free_block-first_fit demo demo_blocks 128 demo-IsHeap

nf_get_free_block-first_fit_example :
    nf_get_free_block demo 128
    ≡ ok (
      pointer (first_fit 128 (search_start demo) (left demo demo_blocks)),
      record demo { nf_ptr = or_null (first_fit 128 (search_start demo) (left demo demo_blocks)) },
    )
nf_get_free_block-first_fit_example =
    nf_get_free_block-first_fit demo demo_blocks 128 demo-IsHeap (inl refl)

bf_get_free_block-BestFit_example :
    Returns (BestFit demo 128 demo_blocks) (bf_get_free_block demo 128)
bf_get_free_block-BestFit_example = bf_get_free_block-BestFit demo demo_blocks 128 demo-IsHeap

unused-IsClean : IsClean unused
unused-IsClean = record {
  segment = unused-IsSegment;
  granted = record { grants = λ a n p. refl };
  protected = refl;
  empty = refl;
  aligned = refl;
  room = omega arith;
}

abbrev Started : Manager → Type 0
Started m =
    IsHeap m (block 4032 free ∷ [])
    × (m.get_free_block ≡ Policy.best_fit)
    × (m.heap_end ≡ m.heap_start + 4032)
    × (m.ds.heap_brk ≡ 69632)

mm_init-IsHeap_example :
    Returns Started (mm_init Policy.best_fit (record demo { ds = unused; mm_initialized = false }))
mm_init-IsHeap_example =
    mm_init-IsHeap Policy.best_fit (record demo { ds = unused; mm_initialized = false })
      unused-IsClean

first_malloc-coherent_example :
    Returns
      (λ r. (r.0 ≡ r.2.ds.heap_start + 40) × (r.1 ≡ true))
      (first_malloc 100 (record demo { ds = unused; mm_initialized = false }))
first_malloc-coherent_example =
    first_malloc-coherent 100 (record demo { ds = unused; mm_initialized = false }) unused-IsClean
      (omega arith) (omega arith)

mm_check-TagsAgree_example :
    ((mm_check demo ≡ ok true) × TagsAgree demo_words 65568 (64 ∷ 64 ∷ 96 ∷ 3808 ∷ []))
    ⊎ ((mm_check demo ≡ ok false) × ¬ TagsAgree demo_words 65568 (64 ∷ 64 ∷ 96 ∷ 3808 ∷ []))
unfolding size
mm_check-TagsAgree_example =
    mm_check-TagsAgree demo (64 ∷ 64 ∷ 96 ∷ 3808 ∷ []) refl (omega arith) (omega arith)
      (refl, omega arith, (refl, omega arith, (refl, omega arith, (refl, omega arith, refl))))

mm_malloc-IsStuck_example :
    Returns (IsStuck demo demo_blocks 69632 4000 1000000) (mm_malloc 5000 demo)
unfolding first_fit adjust
mm_malloc-IsStuck_example =
    mm_malloc-IsStuck demo demo_blocks 5000 4000 1000000 demo-IsHeap refl
      record {
        segment = used-IsSegment;
        granted = record { grants = λ a n p. refl };
        protected = refl;
        flush = refl;
        usable = refl;
        aligned = refl;
        room = omega arith;
      }
      (omega arith) (omega arith) refl refl

ds_allocate-IsFresh_example : Returns (IsFresh 1048576) (ds_allocate 61440 4096 1048576 used)
ds_allocate-IsFresh_example =
    ds_allocate-IsFresh 61440 4096 1048576 used (omega arith) (omega arith)

ds_sbrk-Moved_example : Returns (Moved 69632 unused) (ds_sbrk 4096 unused)
ds_sbrk-Moved_example =
    ds_sbrk-Moved 4096 unused unused-IsSegment (record { grants = λ a n p. refl }) (omega arith)
