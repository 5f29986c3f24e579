-- ===== src/Memory/Manager/Startup.antt =====
-- lab-3-memory/src/memmgr.c: mm_init, mm_malloc and mm_check in the order of the test program.
use snu_2021_fall_sys_prog.Common.{
  ℕ, ◌+◌, ◌≤◌, ◌<◌, ◌≡◌, refl, ap, Bool, true, some, [], ◌∷◌, arith,
}
use snu_2021_fall_sys_prog.Common.Run.{Run, ok, Returns, ◌>>=◌, Returns-bind}
use snu_2021_fall_sys_prog.Memory.DataSegment.{DataSegment}
use snu_2021_fall_sys_prog.Memory.Manager.{Manager, Policy, free}
use snu_2021_fall_sys_prog.Memory.Manager.Layout.{block, replace}
use snu_2021_fall_sys_prog.Memory.Manager.Placing.{carve}
use snu_2021_fall_sys_prog.Memory.Manager.Search.{first_fit}
use snu_2021_fall_sys_prog.Memory.Manager.Operations.{adjust, mm_init, mm_malloc, mm_check}
use snu_2021_fall_sys_prog.Memory.Manager.Malloc.{adjust_bounds, mm_malloc-first_fit}
use snu_2021_fall_sys_prog.Memory.Manager.Starting.{IsClean, mm_init-IsHeap, mm_check-coherent}

-- The calls one after the other: the payload pointer, the verdict of mm_check and the manager.
abbrev pub first_malloc : (n : ℕ) → Manager → Run (ℕ × Bool × Manager)
first_malloc n m = do
  m₁ ← mm_init Policy.first_fit m
  (p, m₂) ← mm_malloc n m₁
  coherent ← mm_check m₂
  ok (p, coherent, m₂)

whole_fits : (n p : ℕ) → n ≤ 4016 → first_fit (adjust n) p (block 4032 free ∷ []) ≡ some p
unfolding first_fit
whole_fits n p small =
    let bounds = adjust_bounds n (omega arith) in ground (arith, bounds.0, bounds.2)

-- On a clean data segment mm_init with the first-fit policy, mm_malloc of 1 to 4016 bytes and
-- mm_check return without an error: the pointer is 40 bytes above the start of the data segment,
-- and mm_check reports a coherent block structure.
pub first_malloc-coherent :
    (n : ℕ) (m : Manager)
    → IsClean m.ds
    → 0 < n
    → n ≤ 4016
    → Returns (λ r. (r.0 ≡ r.2.ds.heap_start + 40) × (r.1 ≡ true)) (first_malloc n m)
first_malloc-coherent n m clean pos small =
    Returns-bind (λ r. (r.0 ≡ r.2.ds.heap_start + 40) × (r.1 ≡ true)) (mm_init Policy.first_fit m)
      (λ m₁. mm_malloc n m₁ >>= λ r. mm_check r.1 >>= λ coherent. ok (r.0, coherent, r.1))
      (mm_init-IsHeap Policy.first_fit m clean)
      (λ m₁ init.
        Returns-bind (λ r. (r.0 ≡ r.2.ds.heap_start + 40) × (r.1 ≡ true)) (mm_malloc n m₁)
          (λ r. mm_check r.1 >>= λ coherent. ok (r.0, coherent, r.1))
          (mm_malloc-first_fit m₁ (block 4032 free ∷ []) m₁.heap_start n init.0 init.1 pos
            (omega arith) (whole_fits n m₁.heap_start small))
          (λ r s.
            let start : r.1.ds.heap_start ≡ m₁.ds.heap_start =
              ap (λ (d : DataSegment). d.heap_start) s.carved.segment in
            rw
              (mm_check-coherent r.1
                (replace (carve (adjust n) s.room) m₁.heap_start m₁.heap_start
                  (block 4032 free ∷ []))
                s.carved.heap)
              (omega (arith, start, s.result, init.0.first), refl)))
