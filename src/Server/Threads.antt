-- ===== src/Server/Threads.antt =====
-- lab-5-network/mcdonalds.c: serve_client, kitchen_task, and the events that they meet. A thread is
-- its place in its function with its local variables; it runs from place to place in one step. No
-- lock protects the list of orders and the numbers of burgers: the steps are those executions in
-- which the accesses of the threads to them do not overlap. A thread that waits on a condition
-- variable wakes when it is signalled, or spuriously. A use of an order that has been freed is a
-- `fault`.
pub mod Admission
pub mod Wakeup
pub mod Parsing
pub mod Conservation
mod Tests
use snu_2021_fall_sys_prog.Common.{
  ℕ, zero, suc, ◌+◌, ◌-◌, ◌%◌, ◌^◌, ◌≡◌, ◌||◌, ◌&&◌, ◌≢◌, not, Bool, true, false, Option, none,
  some, List, [], ◌∷◌, ◌++◌, ltb, leb, ◌==◌, if◌then◌else◌, get_elem?, set, All, newline,
}
use snu_2021_fall_sys_prog.Common.Run.{Run, ok, fault, ◌>>=◌}
use snu_2021_fall_sys_prog.Network.{Result, count, failure, invalid}
use snu_2021_fall_sys_prog.Network.Line.{positive}
use snu_2021_fall_sys_prog.Server.Orders.{
  Burger, burger_eq, bigmac, cheese, chicken, bulgogi, Node, Orders, update, issue_order, get_order,
  order_left,
}
use snu_2021_fall_sys_prog.Server.Buffer.{Buffer, sbuf_insert, sbuf_remove}

-- CUSTOMER_MAX
abbrev pub customer_max : ℕ
customer_max = 10

-- The global variables.
pub record Context : Type 0 where
  pub total_customers : ℕ
  pub total_queueing : ℕ
  pub total_burgers : Burger → ℕ
  pub list : Orders
  pub keep_running : Bool
  pub sbuf : Buffer

-- Where serve_client stands, in the order of its text: before sbuf_remove, before the count of the
-- queue, before it takes its number, before the welcome, before the order, before and in
-- pthread_cond_wait, behind it, at `err`, at its end, and at the `return` for a failed asprintf.
pub data Client : Type 0 where
  starting : Client
  accepted : (clientfd : ℕ) → Client
  admitted : (clientfd : ℕ) → Client
  greeting : (clientfd customer : ℕ) → Client
  ordering : (clientfd customer : ℕ) → Client
  issued : (clientfd order : ℕ) → Client
  waiting : (clientfd order : ℕ) → Client
  woken : (clientfd order : ℕ) → Client
  leaving : (clientfd : ℕ) → Client
  gone : Client
  returned : Client

-- What the calls of a step return: whether asprintf succeeds, the values of put_line and get_line,
-- and the bytes in the buffer behind get_line.
pub record Input : Type 0 where
  pub printed : Bool
  pub sent : Result
  pub read : Result
  pub buffer : List ℕ

abbrev pub negative : Result → Bool
negative (count n) = false
negative failure = true
negative invalid = true

-- strtok(buffer, "\n")
unfoldable pub before_newline : List ℕ → List ℕ
before_newline [] = []
before_newline (c ∷ cs) =
    let rest = before_newline cs in if c == newline || c == 0 then [] else c ∷ rest

unfoldable pub strtok : List ℕ → Option (List ℕ)
strtok [] = none
strtok (c ∷ cs) =
    let rest = strtok cs in
    if c == newline then rest else if c == 0 then none else some (before_newline (c ∷ cs))

-- !strcmp(s, t)
unfoldable pub text_eq : (s t : List ℕ) → Bool
text_eq [] [] = true
text_eq [] (d ∷ ds) = false
text_eq (c ∷ cs) [] = false
text_eq (c ∷ cs) (d ∷ ds) = let rest = text_eq cs ds in if c == d then rest else false

abbrev pub burger_names : Burger → List ℕ
burger_names bigmac = b'b' ∷ b'i' ∷ b'g' ∷ b'm' ∷ b'a' ∷ b'c' ∷ []
burger_names cheese = b'c' ∷ b'h' ∷ b'e' ∷ b'e' ∷ b's' ∷ b'e' ∷ []
burger_names chicken = b'c' ∷ b'h' ∷ b'i' ∷ b'c' ∷ b'k' ∷ b'e' ∷ b'n' ∷ []
burger_names bulgogi = b'b' ∷ b'u' ∷ b'l' ∷ b'g' ∷ b'o' ∷ b'g' ∷ b'i' ∷ []

unfoldable pub find_burger : List ℕ → Option Burger
find_burger name =
    if text_eq (burger_names bigmac) name
    then some bigmac
    else if text_eq (burger_names cheese) name
    then some cheese
    else if text_eq (burger_names chicken) name
    then some chicken
    else if text_eq (burger_names bulgogi) name
    then some bulgogi
    else none

-- The order in the buffer is parsed and issued; strcmp reads through the NULL of strtok.
unfoldable pub place_order :
    (clientfd customer : ℕ) (buffer : List ℕ) → Context → Run (Client × Context)
place_order clientfd customer buffer c = elim (strtok buffer) [
  | none ↦ fault
  | some name ↦ elim (find_burger name) [
    | none ↦ ok (leaving clientfd, c)
    | some burger ↦ (do
      (order, list) ← issue_order customer burger c.list
      ok (issued clientfd order, record c { list = list }))
  ]
]

-- free(order)
abbrev pub free_order : ℕ → Orders → Orders
free_order order o = record o { nodes = update o.nodes order none }

-- Behind pthread_cond_wait. A failing asprintf leaves no message to send.
unfoldable pub hand_over : Input → (clientfd order : ℕ) → Context → Run (Client × Context)
hand_over i clientfd order c = elim (c.list.nodes order) [
  | none ↦ fault
  | some n ↦
      if n.is_ready && not i.printed
      then fault
      else if n.is_ready && not (positive i.sent)
      then ok (leaving clientfd, c)
      else ok (leaving clientfd, record c { list = free_order order c.list })
]

-- One step of serve_client; a waiting thread stays where it is.
unfoldable pub client_step : Input → Client → Context → Run (Client × Context)
client_step i starting c = do
  (clientfd, sbuf) ← sbuf_remove c.sbuf
  ok (accepted clientfd, record c { sbuf = sbuf })
client_step i (accepted clientfd) c =
    let queued = (c.total_queueing + 1) % 2 ^ 32 in
    ok (
      if ltb customer_max queued then leaving clientfd else admitted clientfd,
      record c { total_queueing = queued },
    )
client_step i (admitted clientfd) c = ok (
  greeting clientfd c.total_customers,
  record c { total_customers = (c.total_customers + 1) % 2 ^ 32 },
)
client_step i (greeting clientfd customer) c = ok (
  if not i.printed
      then returned
      else if negative i.sent
      then leaving clientfd
      else ordering clientfd customer,
  c,
)
client_step i (ordering clientfd customer) c =
    if positive i.read then place_order clientfd customer i.buffer c else ok (leaving clientfd, c)
client_step i (issued clientfd order) c = elim (c.list.nodes order) [
  | none ↦ fault
  | some n ↦ ok (waiting clientfd order, c)
]
client_step i (waiting clientfd order) c = ok (waiting clientfd order, c)
client_step i (woken clientfd order) c = hand_over i clientfd order c
client_step i (leaving clientfd) c =
    ok (gone, record c { total_queueing = (c.total_queueing + 2 ^ 32 - 1) % 2 ^ 32 })
client_step i gone c = ok (gone, c)
client_step i returned c = ok (returned, c)

-- Where kitchen_task stands: at the test of its loop, with an order, before the signal for it, and
-- at its end.
pub data Kitchen : Type 0 where
  ready : Kitchen
  cooking : (order : ℕ) → Kitchen
  signalling : (order : ℕ) → Kitchen
  terminated : Kitchen

-- The order is done: the burger is counted and is_ready is set.
unfoldable pub cook : (order : ℕ) → Context → Run (Kitchen × Context)
cook order c = elim (c.list.nodes order) [
  | none ↦ fault
  | some n ↦ ok (
    signalling order,
    record c {
      total_burgers =
          λ b. if burger_eq b n.burger then (c.total_burgers b + 1) % 2 ^ 32 else c.total_burgers b;
      list = record c.list {
        nodes = update c.list.nodes order (some (record n { is_ready = true }));
      };
    },
  )
]

-- One step of kitchen_task; before the signal it reads the order's condition variable, and the signal
-- itself is a step of its own.
unfoldable pub kitchen_step : Kitchen → Context → Run (Kitchen × Context)
kitchen_step ready c =
    if c.keep_running || not (order_left c.list == 0)
    then (do
      (order, list) ← get_order c.list
      ok (elim order [ none ↦ ready | some n ↦ cooking n ], record c { list = list }))
    else ok (terminated, c)
kitchen_step (cooking order) c = cook order c
kitchen_step (signalling order) c = elim (c.list.nodes order) [
  | none ↦ fault
  | some n ↦ ok (signalling order, c)
]
kitchen_step terminated c = ok (terminated, c)

pub record System : Type 0 where
  pub context : Context
  pub clients : List Client
  pub kitchens : List Kitchen

abbrev pub NotWaiting : (order : ℕ) → Client → Type 0
NotWaiting order (waiting clientfd n) = n ≢ order
NotWaiting order c = Unit

-- One event: main accepts a connection and starts a thread for it; a client or kitchen thread takes a
-- step; pthread_cond_signal wakes a client that waits for the order, or nobody; a client that waits
-- wakes without a signal; SIGINT arrives.
pub data Step (s : System) : System → Type 0 where
  connect :
      (clientfd : ℕ) (sbuf : Buffer)
      → sbuf_insert clientfd s.context.sbuf ≡ ok sbuf
      → Step s (record s {
        context = record s.context { sbuf = sbuf };
        clients = s.clients ++ starting ∷ [];
      })
  serve :
      (i : ℕ) (input : Input) (c c' : Client) (context : Context)
      → get_elem? s.clients i ≡ some c
      → client_step input c s.context ≡ ok (c', context)
      → Step s (record s { context = context; clients = set s.clients i c' })
  work :
      (j : ℕ) (k k' : Kitchen) (context : Context)
      → get_elem? s.kitchens j ≡ some k
      → kitchen_step k s.context ≡ ok (k', context)
      → Step s (record s { context = context; kitchens = set s.kitchens j k' })
  signal :
      (i j clientfd order : ℕ)
      → get_elem? s.kitchens j ≡ some (signalling order)
      → s.context.list.nodes order ≢ none
      → get_elem? s.clients i ≡ some (waiting clientfd order)
      → Step s (record s {
        clients = set s.clients i (woken clientfd order);
        kitchens = set s.kitchens j ready;
      })
  spurious :
      (i clientfd order : ℕ)
      → get_elem? s.clients i ≡ some (waiting clientfd order)
      → Step s (record s { clients = set s.clients i (woken clientfd order) })
  signal_lost :
      (j order : ℕ)
      → get_elem? s.kitchens j ≡ some (signalling order)
      → s.context.list.nodes order ≢ none
      → All (NotWaiting order) s.clients
      → Step s (record s { kitchens = set s.kitchens j ready })
  interrupt : Step s (record s { context = record s.context { keep_running = false } })

pub data Reach (s : System) : System → Type 0 where
  here : Reach s s
  next : {t u : System} → Reach s t → Step t u → Reach s u
