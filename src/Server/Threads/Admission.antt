-- ===== src/Server/Threads/Admission.antt =====
-- lab-5-network/mcdonalds.c: at most CUSTOMER_MAX customers are served at a time.
use snu_2021_fall_sys_prog.Common.{
  ℕ, ◌+◌, ◌-◌, ◌%◌, ◌^◌, ◌≤◌, ◌<◌, ◌≡◌, ◌⊎◌, ◌∙◌, inl, inr, some, List, [], ◌∷◌, arith, length,
  length-append, length-set, get_elem?, set, total, total-append, total-set, total_le,
}
use snu_2021_fall_sys_prog.Common.Run.{ok}
use snu_2021_fall_sys_prog.Server.Buffer.{sbuf_remove}
use snu_2021_fall_sys_prog.Server.Threads.{
  Context, Client, starting, accepted, admitted, greeting, ordering, issued, waiting, woken,
  leaving, gone, returned, Input, customer_max, client_step, place_order, hand_over, Kitchen, ready,
  cooking, signalling, terminated, kitchen_step, cook, System, Step, connect, serve, work, signal,
  signal_lost, spurious, interrupt, Reach, here, next,
}

-- The clients that the server counts as queueing; one that has returned is counted for ever.
unfoldable pub counted : Client → ℕ
counted starting = 0
counted (accepted clientfd) = 0
counted (admitted clientfd) = 1
counted (greeting clientfd customer) = 1
counted (ordering clientfd customer) = 1
counted (issued clientfd order) = 1
counted (waiting clientfd order) = 1
counted (woken clientfd order) = 1
counted (leaving clientfd) = 1
counted gone = 0
counted returned = 1

-- The clients that have been admitted and have not come to `err` or the end.
unfoldable pub served : Client → ℕ
served starting = 0
served (accepted clientfd) = 0
served (admitted clientfd) = 1
served (greeting clientfd customer) = 1
served (ordering clientfd customer) = 1
served (issued clientfd order) = 1
served (waiting clientfd order) = 1
served (woken clientfd order) = 1
served (leaving clientfd) = 0
served gone = 0
served returned = 0

-- What a step of a client does to the numbers.
record Change (c : Client) (q : ℕ) (c' : Client) (q' : ℕ) : Type 0 where
  queueing : q' ≡ (q + counted c' + 2 ^ 32 - counted c) % 2 ^ 32
  serving :
      (served c' ≤ served c)
      ⊎ ((served c ≡ 0) × (served c' ≡ 1) × (counted c ≡ 0) × ((q + 1) % 2 ^ 32 ≤ customer_max))

place_order-Change :
    (fd customer : ℕ) (buffer : List ℕ) (x x' : Context) (c' : Client)
    → x.total_queueing < 2 ^ 32
    → place_order fd customer buffer x ≡ ok (c', x')
    → Change (ordering fd customer) x.total_queueing c' x'.total_queueing
unfolding place_order counted served
place_order-Change fd customer buffer x x' c' small run = ground arith

client_step-Change :
    (i : Input) (c : Client) (x x' : Context) (c' : Client)
    → x.total_queueing < 2 ^ 32
    → client_step i c x ≡ ok (c', x')
    → Change c x.total_queueing c' x'.total_queueing
unfolding client_step hand_over counted served sbuf_remove
client_step-Change i starting x x' c' small run = ground arith
client_step-Change i (accepted fd) x x' c' small run = ground arith
client_step-Change i (admitted fd) x x' c' small run = ground arith
client_step-Change i (greeting fd customer) x x' c' small run = ground arith
client_step-Change i (ordering fd customer) x x' c' small run =
    ground (arith, place_order-Change fd customer i.buffer x x' c' small)
client_step-Change i (issued fd order) x x' c' small run = ground arith
client_step-Change i (waiting fd order) x x' c' small run = ground arith
client_step-Change i (woken fd order) x x' c' small run = ground arith
client_step-Change i (leaving fd) x x' c' small run = ground arith
client_step-Change i gone x x' c' small run = ground arith
client_step-Change i returned x x' c' small run = ground arith

kitchen_step_keeps :
    (k k' : Kitchen) (x x' : Context)
    → kitchen_step k x ≡ ok (k', x')
    → x'.total_queueing ≡ x.total_queueing
unfolding kitchen_step cook
kitchen_step_keeps ready k' x x' run = ground arith
kitchen_step_keeps (cooking order) k' x x' run = ground arith
kitchen_step_keeps (signalling order) k' x x' run = ground arith
kitchen_step_keeps terminated k' x x' run = ground arith

counted_le_one : (c : Client) → counted c ≤ 1
unfolding counted
counted_le_one starting = omega arith
counted_le_one _ = omega arith

counted_le : (cs : List Client) → total counted cs ≤ length cs
counted_le [] = omega arith
counted_le (c ∷ cs) = omega (arith, counted_le_one c, counted_le cs)

served_le : (c : Client) → served c ≤ counted c
unfolding served counted
served_le starting = omega arith
served_le _ = omega arith

-- What the server counts, and how many customers are served at a time, while there are less than
-- 2^31 threads.
abbrev IsAdmitting : System → Type 0
IsAdmitting s =
    length s.clients < 2 ^ 31
    → (s.context.total_queueing ≡ total counted s.clients) × (total served s.clients ≤ customer_max)

-- A step of the client `c` among the clients `cs`.
serve-IsAdmitting :
    (cs : List Client) (i q q' : ℕ) (c c' : Client)
    → get_elem? cs i ≡ some c
    → length cs < 2 ^ 31
    → Change c q c' q'
    → q ≡ total counted cs
    → total served cs ≤ customer_max
    → (q' ≡ total counted (set cs i c')) × (total served (set cs i c') ≤ customer_max)
serve-IsAdmitting cs i q q' c c' at small change known few =
    let n = total-set counted cs i c' c at in
    let m = total-set served cs i c' c at in
    let below = counted_le (set cs i c') in
    let size = length-set cs i c' in
    let all = total_le served counted served_le cs in
    (
      omega (
        arith,
        n,
        below,
        size,
        small,
        known,
        change.queueing,
        counted_le_one c,
        counted_le_one c',
      ),
      elim change.serving [
        | inl fewer ↦ omega (arith, m, fewer, few)
        | inr (was, is, uncounted, room) ↦
            omega (arith, m, was, is, room, known, all, counted_le cs, small)
      ],
    )

Step-IsAdmitting : {s t : System} → Step s t → IsAdmitting s → IsAdmitting t
unfolding counted served
Step-IsAdmitting {s} (connect clientfd sbuf stored) h small =
    let before = h (omega (arith, length-append s.clients (starting ∷ []), small)) in
    (
      before.0 ∙ omega (arith, total-append counted s.clients (starting ∷ [])),
      omega (arith, before.1, total-append served s.clients (starting ∷ [])),
    )
Step-IsAdmitting {s} (serve i input c c' context at run) h small =
    let small' : length s.clients < 2 ^ 31 = omega (arith, small, length-set s.clients i c') in
    let before = h small' in
    serve-IsAdmitting s.clients i s.context.total_queueing context.total_queueing c c' at small'
      (client_step-Change input c s.context context c'
        (omega (arith, before.0, counted_le s.clients, small')) run)
      before.0 before.1
Step-IsAdmitting {s} (work j k k' context at run) h small =
    let before = h small in (kitchen_step_keeps k k' s.context context run ∙ before.0, before.1)
Step-IsAdmitting {s} (signal i j clientfd order cooked alive at) h small =
    let before = h (omega (arith, small, length-set s.clients i (woken clientfd order))) in
    (
      omega (
        arith,
        before.0,
        total-set counted s.clients i (woken clientfd order) (waiting clientfd order) at,
      ),
      omega (
        arith,
        before.1,
        total-set served s.clients i (woken clientfd order) (waiting clientfd order) at,
      ),
    )
Step-IsAdmitting {s} (spurious i clientfd order at) h small =
    let before = h (omega (arith, small, length-set s.clients i (woken clientfd order))) in
    (
      omega (
        arith,
        before.0,
        total-set counted s.clients i (woken clientfd order) (waiting clientfd order) at,
      ),
      omega (
        arith,
        before.1,
        total-set served s.clients i (woken clientfd order) (waiting clientfd order) at,
      ),
    )
Step-IsAdmitting (signal_lost j order cooked alive nobody) h small = h small
Step-IsAdmitting interrupt h small = h small

Reach-IsAdmitting : {s t : System} → Reach s t → IsAdmitting s → IsAdmitting t
Reach-IsAdmitting here h = h
Reach-IsAdmitting (next r st) h = Step-IsAdmitting st (Reach-IsAdmitting r h)

-- From a server whose counter of queueing clients is right and that serves at most CUSTOMER_MAX
-- customers, every sequence of connections, steps of client and kitchen threads in any order,
-- signals, spurious wake-ups and interrupts leads to such a server, as long as there are less than 2^31 clients. A
-- client whose asprintf has failed is counted for ever.
pub Reach-served :
    {s t : System}
    → Reach s t
    → s.context.total_queueing ≡ total counted s.clients
    → total served s.clients ≤ customer_max
    → length t.clients < 2 ^ 31
    → (t.context.total_queueing ≡ total counted t.clients) × (total served t.clients ≤ customer_max)
Reach-served r known few small = Reach-IsAdmitting r (λ h. (known, few)) small
