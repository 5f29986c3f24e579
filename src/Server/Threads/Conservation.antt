-- ===== src/Server/Threads/Conservation.antt =====
-- lab-5-network/mcdonalds.c: the orders that the clients issue against the burgers of the statistics.
use snu_2021_fall_sys_prog.Common.{ℕ, ◌+◌, ◌%◌, ◌^◌, ◌≡◌, refl, List, arith, total, total-set}
use snu_2021_fall_sys_prog.Common.Run.{ok}
use snu_2021_fall_sys_prog.Server.Orders.{bigmac, cheese, chicken, bulgogi, issue_order, get_order}
use snu_2021_fall_sys_prog.Server.Buffer.{sbuf_remove}
use snu_2021_fall_sys_prog.Server.Start.{init_mcdonalds}
use snu_2021_fall_sys_prog.Server.Threads.{
  Context, Client, starting, accepted, admitted, greeting, ordering, issued, waiting, woken,
  leaving, gone, returned, Input, client_step, place_order, hand_over, Kitchen, ready, cooking,
  signalling, terminated, kitchen_step, cook, System, Step, connect, serve, work, signal,
  signal_lost, spurious, interrupt, Reach, here, next,
}

-- The burgers of the statistics.
abbrev pub made : Context → ℕ
made c =
    c.total_burgers bigmac
    + c.total_burgers cheese
    + c.total_burgers chicken
    + c.total_burgers bulgogi

-- Whether a kitchen thread has taken an order that is not done.
abbrev pub at_work : Kitchen → ℕ
at_work (cooking order) = 1
at_work k = 0

-- An order is issued with its count, or nothing happens.
record Issued (x x' : Context) : Type 0 where
  burgers : made x' ≡ made x
  orders : (x'.list.count + x.list.fresh) % 2 ^ 32 ≡ (x.list.count + x'.list.fresh) % 2 ^ 32

place_order-Issued :
    (fd customer : ℕ) (buffer : List ℕ) (x x' : Context) (c' : Client)
    → place_order fd customer buffer x ≡ ok (c', x')
    → Issued x x'
unfolding place_order issue_order
place_order-Issued fd customer buffer x x' c' run = ground arith

client_step-Issued :
    (i : Input) (c : Client) (x x' : Context) (c' : Client)
    → client_step i c x ≡ ok (c', x')
    → Issued x x'
unfolding client_step hand_over sbuf_remove
client_step-Issued i starting x x' c' run = ground arith
client_step-Issued i (accepted fd) x x' c' run = ground arith
client_step-Issued i (admitted fd) x x' c' run = ground arith
client_step-Issued i (greeting fd customer) x x' c' run = ground arith
client_step-Issued i (ordering fd customer) x x' c' run =
    ground (arith, place_order-Issued fd customer i.buffer x x' c')
client_step-Issued i (issued fd order) x x' c' run = ground arith
client_step-Issued i (waiting fd order) x x' c' run = ground arith
client_step-Issued i (woken fd order) x x' c' run = ground arith
client_step-Issued i (leaving fd) x x' c' run = ground arith
client_step-Issued i gone x x' c' run = ground arith
client_step-Issued i returned x x' c' run = ground arith

-- A kitchen thread moves an order from the list to its hands, or from there to the statistics.
record Moved (k : Kitchen) (x : Context) (k' : Kitchen) (x' : Context) : Type 0 where
  fresh : x'.list.fresh ≡ x.list.fresh
  sum :
      (made x' + at_work k' + x'.list.count) % 2 ^ 32 ≡ (made x + at_work k + x.list.count) % 2 ^ 32

kitchen_step-Moved :
    (k k' : Kitchen) (x x' : Context) → kitchen_step k x ≡ ok (k', x') → Moved k x k' x'
unfolding kitchen_step cook get_order
kitchen_step-Moved ready k' x x' run = ground arith
kitchen_step-Moved (cooking order) k' x x' run = ground arith
kitchen_step-Moved (signalling order) k' x x' run = ground arith
kitchen_step-Moved terminated k' x x' run = ground arith

-- The orders that have been issued are on the list, with a kitchen thread, or in the statistics.
abbrev pub IsConserved : System → Type 0
IsConserved s =
    (made s.context + total at_work s.kitchens + s.context.list.count) % 2 ^ 32
    ≡ s.context.list.fresh % 2 ^ 32

Step-IsConserved : {s t : System} → Step s t → IsConserved s → IsConserved t
Step-IsConserved (connect clientfd sbuf stored) h = h
Step-IsConserved {s} (serve i input c c' context at run) h =
    let change = client_step-Issued input c s.context context c' run in
    omega (arith, h, change.burgers, change.orders)
Step-IsConserved {s} (work j k k' context at run) h =
    let change = kitchen_step-Moved k k' s.context context run in
    omega (arith, h, change.fresh, change.sum, total-set at_work s.kitchens j k' k at)
Step-IsConserved {s} (signal i j clientfd order cooked alive at) h =
    omega (arith, h, total-set at_work s.kitchens j ready (signalling order) cooked)
Step-IsConserved {s} (signal_lost j order cooked alive nobody) h =
    omega (arith, h, total-set at_work s.kitchens j ready (signalling order) cooked)
Step-IsConserved (spurious i clientfd order at) h = h
Step-IsConserved interrupt h = h

pub Reach-IsConserved :
    (garbage : ℕ → ℕ) {t : System} → Reach (init_mcdonalds garbage) t → IsConserved t
Reach-IsConserved garbage here = refl
Reach-IsConserved garbage (next r st) = Step-IsConserved st (Reach-IsConserved garbage r)
