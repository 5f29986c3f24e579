-- ===== src/Memory/DataSegment/Sbrk.antt =====
-- What ds_sbrk of lab-3-memory/src/dataseg.c promises.
use snu_2021_fall_sys_prog.Common.{
  ℕ, ◌+◌, ◌-◌, ◌/◌, ◌*◌, ◌%◌, ◌≤◌, ◌<◌, ◌≡◌, ◌≢◌, Bool, true, arith, if◌then◌else◌, ne→==,
  Bool-cases, inl, inr, ltb, leb, ◌&&◌,
}
use snu_2021_fall_sys_prog.Common.Run.{Returns, ok}
use snu_2021_fall_sys_prog.Memory.DataSegment.{
  DataSegment, Prot, prot_none, read_write, u64, bad_ptr, ds_allocate, ds_sbrk,
}

-- The segment is initialised, and its pointers are in order and fit in a word.
pub record IsSegment (d : DataSegment) : Type 0 where
  pub ready : d.initialized ≡ true
  pub paged : 0 < d.page_size
  pub low : d.start + d.page_size ≡ d.heap_start
  pub above : d.heap_start ≤ d.heap_brk
  pub below : d.heap_brk ≤ d.heap_end
  pub high : d.heap_end + d.page_size ≡ d.end
  pub fits : d.end < u64

-- The kernel grants every request of mprotect.
pub record Grants (d : DataSegment) : Type 0 where
  pub grants : (a n : ℕ) (p : Prot) → d.mprotect a n p ≡ true

-- What ds_allocate sets up for `n` bytes.
pub record IsFresh (n : ℕ) (d : DataSegment) : Type 0 where
  pub segment : IsSegment d
  pub empty : d.heap_brk ≡ d.heap_start
  pub none_usable : d.rw_end ≡ d.heap_start
  pub room : d.heap_end ≡ d.heap_start + n
  pub uncounted : d.num_sbrk ≡ 0

-- Given an address from mmap at which the data segment ends below 2 ^ 64, ds_allocate returns an
-- initialised segment: guard pages of one page at both ends, `n` bytes between them, and an empty
-- heap of which nothing is accessible. It does so whether or not a segment was allocated before.
pub ds_allocate-IsFresh :
    (mapped page n : ℕ) (d : DataSegment)
    → 0 < page
    → mapped + (n + 2 * page) < u64
    → Returns (IsFresh n) (ds_allocate mapped page n d)
unfolding ds_allocate
ds_allocate-IsFresh mapped page n d p h = rw (ne→== mapped bad_ptr (λ e. omega arith)) record {
  segment = ground arith;
  empty = ground arith;
  none_usable = ground arith;
  room = ground arith;
  uncounted = ground arith;
}

-- The target of a brk lies in [heap_start, heap_end).
abbrev pub inside : DataSegment → ℕ → Bool
inside d target = leb d.heap_start target && ltb target d.heap_end

-- The outcome of ds_sbrk with a non-zero increment that leads to `target`: inside the heap the old
-- brk is returned, the brk is `target` and the area up to it is accessible (if mprotect is on);
-- outside, (void*)-1 is returned and the brk stays. Either way the call is counted.
pub record Moved (target : ℕ) (d : DataSegment) (r : ℕ × DataSegment) : Type 0 where
  pub result : r.0 ≡ (if inside d target then d.heap_brk else bad_ptr)
  pub brk : r.1.heap_brk ≡ (if inside d target then target else d.heap_brk)
  pub usable : r.1.rw_end ≡ (if inside d target && d.do_mprotect then target else d.rw_end)
  pub counted : r.1.num_sbrk ≡ d.num_sbrk + 1
  pub segment : IsSegment r.1

-- On a segment whose kernel grants every mprotect, ds_sbrk of a non-zero increment returns, moves
-- the brk exactly if the target lies in [heap_start, heap_end), and keeps the segment well formed.
pub ds_sbrk-Moved :
    (increment : ℕ) (d : DataSegment)
    → IsSegment d
    → Grants d
    → increment ≢ 0
    → Returns (Moved ((d.heap_brk + increment) % u64) d) (ds_sbrk increment d)
unfolding ds_sbrk
ds_sbrk-Moved increment d s g ne =
    rw (s.ready, ne→== increment 0 ne)
      (elim (Bool-cases (inside d target)) [
        | inl e ↦ rw e (elim (Bool-cases d.do_mprotect) [
          | inl on ↦ rw (on, g.grants, g.grants) (ground arith)
          | inr off ↦ rw off (ground arith)
        ])
        | inr e ↦ rw e (ground arith)
      ])
  where
    target : ℕ
    target = (d.heap_brk + increment) % u64

-- The segment after its brk moved to `target`.
abbrev pub moved_to : DataSegment → ℕ → DataSegment
moved_to d target = record d { heap_brk = target; num_sbrk = d.num_sbrk + 1; rw_end = target }

-- The successful case as an equation, for the clients of ds_sbrk.
pub ds_sbrk-moved_to :
    (increment target : ℕ) (d : DataSegment)
    → IsSegment d
    → Grants d
    → d.do_mprotect ≡ true
    → increment ≢ 0
    → (d.heap_brk + increment) % u64 ≡ target
    → d.heap_start ≤ target
    → target < d.heap_end
    → ds_sbrk increment d ≡ ok (d.heap_brk, moved_to d target)
unfolding ds_sbrk
ds_sbrk-moved_to increment target d s g on ne e low high = ground (
  arith,
  s.ready,
  g.grants (target / d.page_size * d.page_size) (d.end - target / d.page_size * d.page_size)
      prot_none,
  g.grants d.heap_start (target - d.heap_start) read_write,
)

pub ds_sbrk-zero : (d : DataSegment) → d.initialized ≡ true → ds_sbrk 0 d ≡ ok (d.heap_brk, d)
unfolding ds_sbrk
ds_sbrk-zero d e = ground arith
