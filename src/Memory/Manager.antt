-- ===== src/Memory/Manager.antt =====
-- lab-3-memory/src/memmgr.c: the state of the memory manager, its words and its macros.
-- A word is 64 bits wide; a word of the heap is stored at its byte address, and all addresses that
-- the code uses on a well-formed heap are multiples of 8, so words do not overlap.
-- A read or write outside the area that the data segment has marked READ/WRITE is a `fault`. A
-- pointer difference below 0 is 0 here; either address faults.
pub mod Policies
pub mod Operations
pub mod Layout
pub mod Search
pub mod NextFit
pub mod BestFit
pub mod Placing
pub mod Carving
pub mod Malloc
pub mod Freeing
pub mod Starting
pub mod Extending
pub mod Payload
pub mod Clearing
pub mod Startup
pub mod Checking
use snu_2021_fall_sys_prog.Common.{ℕ, ◌+◌, ◌-◌, ◌*◌, ◌/◌, ◌%◌, ◌&&◌, Bool, leb, ◌==◌, if◌then◌else◌}
use snu_2021_fall_sys_prog.Common.Run.{Run, ok, fault, ◌>>=◌}
use snu_2021_fall_sys_prog.Memory.DataSegment.{DataSegment}

-- TYPE_SIZE, BS and CHUNKSIZE
abbrev pub type_size : ℕ
type_size = 8

abbrev pub block_size : ℕ
block_size = 32

abbrev pub chunk_size : ℕ
chunk_size = 4096

-- ALLOC and FREE
abbrev pub alloc : ℕ
alloc = 1

abbrev pub free : ℕ
free = 0

abbrev pub Words : Type 0
Words = ℕ → ℕ

pub data Policy : Type 0 where
  first_fit next_fit best_fit : Policy

-- The global variables, with the heap's words and the data segment. NULL is 0.
pub record Manager : Type 0 where
  pub words : Words
  pub ds : DataSegment
  pub ds_heap_start : ℕ
  pub ds_heap_brk : ℕ
  pub heap_start : ℕ
  pub heap_end : ℕ
  pub page_size : ℕ
  pub get_free_block : Policy
  pub mm_initialized : Bool
  pub nf_ptr : ℕ

-- SIZE(v), STATUS(v) and PACK(size, status): `v & ~7`, `v & 7` and `size | status`, with status
-- 0 or 1.
unfoldable pub size : ℕ → ℕ
size v = v - v % 8

unfoldable pub status : ℕ → ℕ
status v = v % 8

unfoldable pub pack : ℕ → ℕ → ℕ
pack n s = if s == free then n else n / 2 * 2 + 1

-- PREV_PTR, NEXT_PTR, HDRP on a `void *`
unfoldable pub prev_ptr : ℕ → ℕ
prev_ptr p = p - type_size

unfoldable pub next_ptr : ℕ → ℕ
next_ptr p = p + type_size

unfoldable pub hdrp : ℕ → ℕ
unfolding prev_ptr
hdrp bp = prev_ptr bp

unfoldable pub update : Words → ℕ → ℕ → Words
update w p v q = if p == q then v else w q

-- A word access is allowed inside the area that is marked READ/WRITE.
unfoldable pub accessible : Manager → ℕ → Bool
accessible m p = leb m.ds.heap_start p && leb (p + type_size) m.ds.rw_end

-- GET(p)
unfoldable pub get : Manager → ℕ → Run ℕ
get m p = if accessible m p then ok (m.words p) else fault

-- PUT(p, val)
unfoldable pub put : Manager → ℕ → ℕ → Run Manager
put m p v = if accessible m p then ok (record m { words = update m.words p v }) else fault

-- GET_SIZE(p) and GET_STATUS(p)
unfoldable pub get_size : Manager → ℕ → Run ℕ
get_size m p = do v ← get m p; ok (size v)

unfoldable pub get_status : Manager → ℕ → Run ℕ
get_status m p = do v ← get m p; ok (status v)

-- FTRP(bp), NEXT_BLKP(bp) and PREV_BLKP(bp) on a `void *`
unfoldable pub ftrp : Manager → ℕ → Run ℕ
ftrp m bp = do n ← get_size m (hdrp bp); ok (prev_ptr (hdrp bp + n))

unfoldable pub next_blkp : Manager → ℕ → Run ℕ
next_blkp m bp = do n ← get_size m (hdrp bp); ok (bp + n)

unfoldable pub prev_blkp : Manager → ℕ → Run ℕ
prev_blkp m bp = do n ← get_size m (prev_ptr (hdrp bp)); ok (bp - n)
