-- ===== src/Server/Buffer.antt =====
-- lab-5-network/mcdonalds.c: the buffer of accepted connections. `slots` and `items` are mutexes that
-- an operation locks and unlocks itself, so that they bound nothing; with `mutex` they make each
-- operation one step. The array is a function, of which the first `n` places belong to it; `front`
-- and `rear` are of type int, and the operation that overflows one of them is a `fault`, since the C
-- standard gives it no meaning. Memory suffices.
pub mod Order
use snu_2021_fall_sys_prog.Common.{ℕ, ◌+◌, ◌%◌, ◌^◌, ltb, ◌==◌, if◌then◌else◌}
use snu_2021_fall_sys_prog.Common.Run.{Run, ok, fault}

pub record Buffer : Type 0 where
  pub buf : ℕ → ℕ
  pub n : ℕ
  pub front : ℕ
  pub rear : ℕ

-- `garbage` is what malloc leaves in the array.
unfoldable pub sbuf_init : (garbage : ℕ → ℕ) (n : ℕ) → Buffer
sbuf_init garbage n = record { buf = garbage; n = n; front = 0; rear = 0 }

unfoldable pub sbuf_insert : (item : ℕ) → Buffer → Run Buffer
sbuf_insert item b =
    if ltb (b.rear + 1) (2 ^ 31)
    then ok (record b {
      buf = λ i. if i == (b.rear + 1) % b.n then item else b.buf i;
      rear = b.rear + 1;
    })
    else fault

unfoldable pub sbuf_remove : Buffer → Run (ℕ × Buffer)
sbuf_remove b =
    if ltb (b.front + 1) (2 ^ 31)
    then ok (b.buf ((b.front + 1) % b.n), record b { front = b.front + 1 })
    else fault
