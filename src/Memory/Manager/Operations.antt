-- ===== src/Memory/Manager/Operations.antt =====
-- lab-3-memory/src/memmgr.c: mm_init, mm_malloc, mm_calloc, mm_realloc, mm_free and mm_check.
use snu_2021_fall_sys_prog.Common.{
  ℕ, zero, suc, ◌+◌, ◌-◌, ◌*◌, ◌/◌, ◌%◌, ◌&&◌, ◌||◌, Bool, true, false, not, ltb, ◌==◌,
  if◌then◌else◌,
}
use snu_2021_fall_sys_prog.Common.Run.{Run, ok, panic, out_of_fuel, ◌>>=◌}
use snu_2021_fall_sys_prog.Memory.DataSegment.{null, bad_ptr, u64, ds_sbrk, ds_getpagesize}
use snu_2021_fall_sys_prog.Memory.Manager.{
  Manager, Policy, type_size, block_size, chunk_size, alloc, free, size, status, pack, prev_ptr,
  hdrp, get, put, get_size, get_status, ftrp, next_blkp, prev_blkp,
}
use snu_2021_fall_sys_prog.Memory.Manager.Policies.{find_block}

-- `ds_sbrk(xsize); ds_heap_brk = ds_sbrk(0);` with the check behind it. The first result is what
-- the first call returned.
unfoldable pub grow : ℕ → Manager → Run (ℕ × Manager)
grow xsize m = do
  (bp, ds₁) ← ds_sbrk xsize m.ds
  (brk, ds₂) ← ds_sbrk 0 ds₁
  if brk == bad_ptr then panic else ok (bp, record m { ds = ds₂; ds_heap_brk = brk })

-- The logical end of the heap under a brk.
unfoldable pub end_below : ℕ → ℕ
end_below brk = (brk - 1) / block_size * block_size

-- The sentinels and the initial free block.
unfoldable pub set_up_heap : Manager → Run Manager
set_up_heap m = do
  let n = m.heap_end - m.heap_start
  m₁ ← put m (prev_ptr m.heap_start) (pack 0 alloc)
  m₂ ← put m₁ m.heap_end (pack 0 alloc)
  m₃ ← put m₂ m.heap_start (pack n free)
  put m₃ (prev_ptr m.heap_end) (pack n free)

unfoldable pub mm_init : Policy → Manager → Run Manager
mm_init ap m = do
  page ← ds_getpagesize m.ds
  let start = m.ds.heap_start
  if start == null || not (start == m.ds.heap_brk) || page == 0 then panic else (do
    (_, m₁) ← grow chunk_size (record m {
      get_free_block = ap;
      ds_heap_start = start;
      ds_heap_brk = start;
      page_size = page;
    })
    m₂ ← set_up_heap (record m₁ {
      heap_start = (start + block_size) / block_size * block_size;
      heap_end = end_below m₁.ds_heap_brk;
    })
    ok (record m₂ { mm_initialized = true }))

-- asize = ((size + 2 * TYPE_SIZE - 1) / BS + 1) * BS in size_t
unfoldable pub adjust : ℕ → ℕ
adjust n = ((n + (2 * type_size - 1)) % u64 / block_size + 1) * block_size % u64

-- Sets header and footer of the block at `bp`; FTRP reads the header that was just written.
unfoldable pub put_tags : Manager → (bp n s : ℕ) → Run Manager
put_tags m bp n s = do m₁ ← put m (hdrp bp) (pack n s); f ← ftrp m₁ bp; put m₁ f (pack n s)

-- The block at `bp` fits: split off the rest, if there is one, and mark the block allocated.
unfoldable pub place : Manager → (bp asize : ℕ) → Run Manager
place m bp asize = do
  n ← get_size m (hdrp bp)
  if ltb asize n
      then (do
        n₁ ← get_size m (hdrp bp)
        m₁ ← put m (hdrp bp + asize) (pack (n₁ - asize) free)
        f ← ftrp m₁ bp
        n₂ ← get_size m₁ (hdrp bp)
        m₂ ← put m₁ f (pack (n₂ - asize) free)
        put_tags m₂ bp asize alloc)
      else put_tags m bp asize alloc

-- No block fits: get more memory, move the end sentinel, and allocate all of it.
unfoldable pub extend : Manager → ℕ → Run (ℕ × Manager)
extend m asize = do
  let xsize = if ltb chunk_size asize then asize else chunk_size
  (bp, m₁) ← grow xsize m
  let m₂ = record m₁ { heap_end = end_below m₁.ds_heap_brk }
  m₃ ← put m₂ m₂.heap_end (pack 0 alloc)
  m₄ ← put_tags m₃ bp xsize alloc
  ok (bp, m₄)

-- The body of mm_malloc behind the search.
unfoldable pub malloc_at : ℕ → ℕ × Manager → Run (ℕ × Manager)
malloc_at asize (bp, m) =
    if bp == null then extend m asize else (do m₁ ← place m bp asize; ok (bp, m₁))

unfoldable pub mm_malloc : ℕ → Manager → Run (ℕ × Manager)
mm_malloc n m =
    if m.mm_initialized
    then if n == 0
      then ok (null, m)
      else (do found ← find_block m.get_free_block m (adjust n); malloc_at (adjust n) found)
    else panic

-- A word after memset has set its `count` low bytes to 0.
unfoldable pub clear_low : (v count : ℕ) → ℕ
clear_low v zero = v
clear_low v (suc count) = clear_low (v / 256) count * 256

-- memset(p, 0, 8 * count)
unfoldable pub clear_words : (count p : ℕ) → Manager → Run Manager
clear_words zero p m = ok m
clear_words (suc count) p m = do m₁ ← put m p 0; clear_words count (p + type_size) m₁

-- memset(p, 0, n): the whole words, and the low bytes of the last one.
unfoldable pub memset : (p n : ℕ) → Manager → Run Manager
memset p n m = do
  m₁ ← clear_words (n / type_size) p m
  let last = p + n / type_size * type_size
  if n % type_size == 0
      then ok m₁
      else (do v ← get m₁ last; put m₁ last (clear_low v (n % type_size)))

-- The product is a size_t.
unfoldable pub mm_calloc : (nmemb n : ℕ) → Manager → Run (ℕ × Manager)
mm_calloc nmemb n m =
    if m.mm_initialized
    then (do
      (payload, m₁) ← mm_malloc (nmemb * n % u64) m
      if payload == null
          then ok (payload, m₁)
          else (do m₂ ← memset payload (nmemb * n % u64) m₁; ok (payload, m₂)))
    else panic

-- mm_realloc is not implemented by the source: it returns NULL.
unfoldable pub mm_realloc : (ptr n : ℕ) → Manager → Run (ℕ × Manager)
mm_realloc ptr n m = if m.mm_initialized then ok (null, m) else panic

-- HDRP and FTRP on a `TYPE *`: adding k to such a pointer adds 8 * k to the address.
unfoldable pub word_hdrp : ℕ → ℕ
word_hdrp bp = bp - type_size * type_size

unfoldable pub word_ftrp : Manager → ℕ → Run ℕ
word_ftrp m bp = do
  n ← get_size m (word_hdrp bp)
  ok (word_hdrp bp + n * type_size - type_size * type_size)

-- The four cases of the coalescing, on the two statuses that were read.
unfoldable pub coalesce :
    Manager → (ptr n prev_hdr next_bp next_hdr : ℕ) → (prev_alloc next_alloc : Bool) → Run Manager
coalesce m ptr n prev_hdr next_bp next_hdr true true = ok m
coalesce m ptr n prev_hdr next_bp next_hdr true false = do
  k ← get_size m next_hdr
  m₁ ← put m (hdrp ptr) (pack (n + k) free)
  f ← word_ftrp m₁ next_bp
  put m₁ f (pack (n + k) free)
coalesce m ptr n prev_hdr next_bp next_hdr false true = do
  k ← get_size m prev_hdr
  m₁ ← put m prev_hdr (pack (n + k) free)
  f ← ftrp m₁ ptr
  put m₁ f (pack (n + k) free)
coalesce m ptr n prev_hdr next_bp next_hdr false false = do
  k ← get_size m prev_hdr
  l ← get_size m next_hdr
  m₁ ← put m prev_hdr (pack (n + (k + l)) free)
  f ← word_ftrp m₁ next_bp
  put m₁ f (pack (n + (k + l)) free)

-- Step 3 of mm_free. prev_bp, next_bp, prev_hdr and next_hdr are declared `TYPE *`.
unfoldable pub merge_neighbours : Manager → (ptr n : ℕ) → Run Manager
merge_neighbours m ptr n = do
  prev_bp ← prev_blkp m ptr
  next_bp ← next_blkp m ptr
  prev_alloc ← get_status m (word_hdrp prev_bp)
  next_alloc ← get_status m (word_hdrp next_bp)
  coalesce m ptr n (word_hdrp prev_bp) next_bp (word_hdrp next_bp) (not (prev_alloc == 0))
      (not (next_alloc == 0))

unfoldable pub mm_free : ℕ → Manager → Run Manager
mm_free ptr m =
    if m.mm_initialized
    then (do
      s ← get_status m (hdrp ptr)
      if s == free then panic else (do
        n ← get_size m (hdrp ptr)
        m₁ ← put_tags m ptr n free
        merge_neighbours m₁ ptr n))
    else panic

-- The traversal of mm_check: where it ends, and the number of errors.
unfoldable pub check_loop : ℕ → Manager → (p errors : ℕ) → Run (ℕ × ℕ)
check_loop zero m p errors = out_of_fuel
check_loop (suc fuel) m p errors =
    if ltb p m.heap_end
    then (do
      hdr ← get m p
      ftr ← get m (p + size hdr - type_size)
      let bad = not (size hdr == size ftr) || not (status hdr == status ftr)
      let errors' = if bad then errors + 1 else errors
      elim (size hdr == 0) [
        | true ↦ ok (p, errors')
        | false ↦ check_loop fuel m (p + size hdr) errors'
      ])
    else ok (p, errors)

-- Whether mm_check prints "Block structure coherent."; the sentinels are read and printed.
unfoldable pub mm_check : Manager → Run Bool
mm_check m =
    if m.mm_initialized
    then (do
      first ← get m (prev_ptr m.heap_start)
      last ← get m m.heap_end
      (p, errors) ← check_loop (m.heap_end + 1) m m.heap_start 0
      ok (p == m.heap_end && errors == 0))
    else panic
