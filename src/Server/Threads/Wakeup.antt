-- ===== src/Server/Threads/Wakeup.antt =====
-- lab-5-network/mcdonalds.c: a client that is signalled before it waits.
use snu_2021_fall_sys_prog.Common.{ℕ, ◌<◌, ◌≡◌, ◌≢◌, some, All}
use snu_2021_fall_sys_prog.Server.Orders.{Node, Orders}
use snu_2021_fall_sys_prog.Server.Threads.{Kitchen, cooking, signalling, System, next}

-- The order `n` has left the list: all orders that the list leads to are younger.
pub record IsPast (n : ℕ) (o : Orders) : Type 0 where
  pub head_after : (h : ℕ) → o.head ≡ some h → n < h
  pub next_after : (p : ℕ) (m : Node) (q : ℕ) → n < p → o.nodes p ≡ some m → m.next ≡ some q → n < q
  pub old : n < o.fresh

-- A kitchen thread has nothing to do with the order.
abbrev pub Apart : (order : ℕ) → Kitchen → Type 0
Apart order (cooking n) = n ≢ order
Apart order (signalling n) = n ≢ order
Apart order k = Unit

-- The order `n` is neither on the list nor in a kitchen thread's hands.
pub record IsForgotten (n : ℕ) (s : System) : Type 0 where
  pub past : IsPast n s.context.list
  pub kitchens : All (Apart n) s.kitchens
