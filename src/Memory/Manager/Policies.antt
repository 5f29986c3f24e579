-- ===== src/Memory/Manager/Policies.antt =====
-- lab-3-memory/src/memmgr.c: the three block allocation policies.
-- A loop over the blocks takes `heap_end + 1` rounds of fuel: on a well-formed heap each round
-- moves the pointer up by at least one block, below `heap_end`.
use snu_2021_fall_sys_prog.Common.{
  ℕ, zero, suc, ◌+◌, ◌-◌, ◌&&◌, ◌||◌, Bool, true, false, ltb, leb, ◌==◌, if◌then◌else◌,
}
use snu_2021_fall_sys_prog.Common.Run.{Run, ok, panic, out_of_fuel, ◌>>=◌}
use snu_2021_fall_sys_prog.Memory.DataSegment.{null}
use snu_2021_fall_sys_prog.Memory.Manager.{
  Manager, Policy, first_fit, next_fit, best_fit, alloc, free, next_ptr, get_size, get_status,
}

-- (size > GET_SIZE(p)) || (GET_STATUS(p) == ALLOC), at a block of size `n` and status `s`
abbrev pub unfit : (wanted n s : ℕ) → Bool
unfit wanted n s = ltb n wanted || s == alloc

-- The while loop of ff_get_free_block and of nf_get_free_block, from the header at `p`.
unfoldable pub skip_unfit : ℕ → Manager → (p wanted : ℕ) → Run ℕ
skip_unfit zero m p wanted = out_of_fuel
skip_unfit (suc fuel) m p wanted =
    if ltb p m.heap_end
    then (do
      n ← get_size m p
      s ← get_status m p
      elim (unfit wanted n s) [ true ↦ skip_unfit fuel m (p + n) wanted | false ↦ ok p ])
    else ok p

-- The block pointer of the header at `p`, NULL at the end of the heap.
unfoldable pub found_at : Manager → ℕ → ℕ
found_at m p = if ltb p m.heap_end then next_ptr p else null

unfoldable pub ff_get_free_block : Manager → ℕ → Run (ℕ × Manager)
unfolding skip_unfit found_at next_ptr get_size get_status
ff_get_free_block m wanted =
    if m.mm_initialized
    then (do p ← skip_unfit (m.heap_end + 1) m m.heap_start wanted; ok (found_at m p, m))
    else panic

unfoldable pub nf_get_free_block : Manager → ℕ → Run (ℕ × Manager)
unfolding skip_unfit found_at next_ptr get_size get_status
nf_get_free_block m wanted =
    let start = if m.nf_ptr == null then m.heap_start else m.nf_ptr in
    if m.mm_initialized
    then (do
      p ← skip_unfit (m.heap_end + 1) m start wanted
      ok (found_at m p, record m { nf_ptr = if ltb p m.heap_end then p else null }))
    else panic

-- (size <= GET_SIZE(p)) && (GET_STATUS(p) == FREE), and smaller than the best so far
abbrev pub better : (wanted least n s : ℕ) → Bool
better wanted least n s = leb wanted n && s == free && ltb n least

-- The while loop of bf_get_free_block: `least` is minSize and `best` is bf_ptr.
unfoldable pub bf_loop : ℕ → Manager → (p wanted least best : ℕ) → Run ℕ
bf_loop zero m p wanted least best = out_of_fuel
bf_loop (suc fuel) m p wanted least best =
    if ltb p m.heap_end
    then (do
      n ← get_size m p
      s ← get_status m p
      elim (better wanted least n s) [
        | true ↦ bf_loop fuel m (p + n) wanted n p
        | false ↦ bf_loop fuel m (p + n) wanted least best
      ])
    else ok best

unfoldable pub bf_get_free_block : Manager → ℕ → Run (ℕ × Manager)
unfolding bf_loop next_ptr get_size get_status
bf_get_free_block m wanted =
    if m.mm_initialized
    then (do
      best ← bf_loop (m.heap_end + 1) m m.heap_start wanted (m.heap_end - m.heap_start) null
      ok (if best == null then null else next_ptr best, m))
    else panic

-- The call through the function pointer get_free_block.
unfoldable pub find_block : Policy → Manager → ℕ → Run (ℕ × Manager)
find_block first_fit = ff_get_free_block
find_block next_fit = nf_get_free_block
find_block best_fit = bf_get_free_block
