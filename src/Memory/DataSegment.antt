-- ===== src/Memory/DataSegment.antt =====
-- lab-3-memory/src/dataseg.c: the simulated data segment.
-- An address is below 2 ^ 64 and NULL is 0. An `intptr_t` increment is its 64-bit pattern, so that
-- the pointer sum is taken modulo 2 ^ 64; (void*)-1 is `bad_ptr`. The kernel is a parameter: the
-- address that `mmap` returns, the page size, and the answers of `mprotect` (`true` for 0).
pub mod Sbrk
use snu_2021_fall_sys_prog.Common.{
  ℕ, ◌+◌, ◌-◌, ◌*◌, ◌/◌, ◌%◌, ◌^◌, ◌&&◌, Bool, true, false, not, Option, none, some, ltb, leb, ◌==◌,
  if◌then◌else◌,
}
use snu_2021_fall_sys_prog.Common.Run.{Run, ok, fault, panic, ◌>>=◌}

abbrev pub u64 : ℕ
u64 = 2 ^ 64

-- (void*)-1
abbrev pub bad_ptr : ℕ
bad_ptr = 2 ^ 64 - 1

abbrev pub null : ℕ
null = 0

pub data Prot : Type 0 where
  prot_none read_write : Prot

-- The file's static variables, with the kernel's answers to mprotect(addr, len, prot). `rw_end` is
-- the end of the area, from `heap_start`, that was last marked READ/WRITE.
pub record DataSegment : Type 0 where
  pub start : ℕ
  pub end : ℕ
  pub heap_start : ℕ
  pub heap_brk : ℕ
  pub heap_end : ℕ
  pub page_size : ℕ
  pub initialized : Bool
  pub do_mprotect : Bool
  pub num_sbrk : ℕ
  pub rw_end : ℕ
  pub mprotect : ℕ → ℕ → Prot → Bool

-- ds_release: unmaps the segment, and resets all pointers.
unfoldable pub ds_release : DataSegment → DataSegment
ds_release d = record d {
  start = null;
  end = null;
  heap_start = null;
  heap_brk = null;
  heap_end = null;
  page_size = 0;
  initialized = false;
  rw_end = null;
}

-- The part of ds_allocate behind the call of mmap, which returned `mapped`.
unfoldable pub map_segment : (mapped page max_heap_size : ℕ) → DataSegment → Run DataSegment
map_segment mapped page max_heap_size d =
    let ds_size = max_heap_size + 2 * page in
    if mapped == bad_ptr
    then panic
    else ok (record d {
      start = mapped;
      end = mapped + ds_size;
      heap_start = mapped + page;
      heap_brk = mapped + page;
      heap_end = mapped + ds_size - page;
      page_size = page;
      initialized = true;
      num_sbrk = 0;
      rw_end = mapped + page;
    })

unfoldable pub ds_allocate : (mapped page max_heap_size : ℕ) → DataSegment → Run DataSegment
unfolding map_segment ds_release
ds_allocate mapped page max_heap_size d =
    map_segment mapped page max_heap_size (if d.start == null then d else ds_release d)

-- The two calls of mprotect. Failure of either terminates the process.
unfoldable pub protect : DataSegment → Run DataSegment
protect d =
    let aligned_brk = d.heap_brk / d.page_size * d.page_size in
    if d.mprotect aligned_brk (d.end - aligned_brk) prot_none
      && d.mprotect d.heap_start (d.heap_brk - d.heap_start) read_write
    then ok (record d { rw_end = d.heap_brk })
    else panic

-- ds_sbrk(increment) for increment != 0: the brk moves, and moves back if it left the segment.
unfoldable pub move_brk : ℕ → DataSegment → Run (ℕ × DataSegment)
unfolding protect
move_brk increment d =
    let moved = record d { heap_brk = (d.heap_brk + increment) % u64; num_sbrk = d.num_sbrk + 1 } in
    if leb moved.heap_start moved.heap_brk && ltb moved.heap_brk moved.heap_end
    then if moved.do_mprotect
      then (do d' ← protect moved; ok (d.heap_brk, d'))
      else ok (d.heap_brk, moved)
    else ok (bad_ptr, record moved { heap_brk = d.heap_brk })

-- The assertion on ds_initialized aborts the process.
unfoldable pub ds_sbrk : ℕ → DataSegment → Run (ℕ × DataSegment)
unfolding move_brk
ds_sbrk increment d =
    if d.initialized
    then if increment == 0 then ok (d.heap_brk, d) else move_brk increment d
    else panic

unfoldable pub ds_getpagesize : DataSegment → Run ℕ
ds_getpagesize d = if d.initialized then ok d.page_size else panic

-- ds_heap_stat: start, brk and end of the heap.
unfoldable pub ds_heap_stat : DataSegment → ℕ × ℕ × ℕ
ds_heap_stat d = (d.heap_start, d.heap_brk, d.heap_end)

unfoldable pub ds_getnsbrk : DataSegment → ℕ
ds_getnsbrk d = d.num_sbrk

-- ds_setmprotect(active), where `active` says whether the argument is positive.
unfoldable pub ds_setmprotect : Bool → DataSegment → DataSegment
ds_setmprotect active d = record d { do_mprotect = active }
