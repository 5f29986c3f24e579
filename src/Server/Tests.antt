-- ===== src/Server/Tests.antt =====
-- The theorems on lab-5-network/mcdonalds.c at small servers, and runs of the server.
use snu_2021_fall_sys_prog.Common.{
  ℕ, ◌+◌, ◌≤◌, ◌≡◌, refl, true, some, none, List, [], ◌∷◌, ◌++◌, arith, newline, total,
}
use snu_2021_fall_sys_prog.Common.Run.{ok, Returns, ◌>>=◌}
use snu_2021_fall_sys_prog.Network.{count}
use snu_2021_fall_sys_prog.Server.Orders.{
  Orders, cheese, bulgogi, issue_order, get_order, new_node, update,
}
use snu_2021_fall_sys_prog.Server.Orders.Queue.{
  IsQueue, IsIssued, IsTaken, issue_order-IsIssued, get_order-IsTaken,
}
use snu_2021_fall_sys_prog.Server.Buffer.{Buffer, sbuf_insert, sbuf_remove}
use snu_2021_fall_sys_prog.Server.Buffer.Order.{IsFifo, Removed, sbuf_insert-sbuf_remove}
use snu_2021_fall_sys_prog.Server.Threads.{
  Context, accepted, ordering, issued, waiting, leaving, Input, client_step, burger_names,
  customer_max, ready, System, Step, serve, here, next,
}
use snu_2021_fall_sys_prog.Server.Threads.Parsing.{client_step-issue_order}
use snu_2021_fall_sys_prog.Server.Threads.Admission.{counted, served, Reach-served}

-- One order, of a cheese burger.
abbrev one_order : Orders
one_order = record {
  nodes = update (λ p. none) 0 (some (new_node 7 cheese));
  fresh = 1;
  head = some 0;
  tail = some 0;
  count = 1;
}

one_order-IsQueue : IsQueue one_order (0 ∷ [])
one_order-IsQueue = record {
  head_first = refl;
  tail_last = refl;
  chain = (omega arith, new_node 7 cheese, refl);
  counted = refl;
}

issue_order-IsIssued_example :
    Returns (IsIssued 8 bulgogi one_order (0 ∷ [])) (issue_order 8 bulgogi one_order)
issue_order-IsIssued_example = issue_order-IsIssued 8 bulgogi one_order (0 ∷ []) one_order-IsQueue

get_order-IsTaken_example : Returns (IsTaken one_order (0 ∷ [])) (get_order one_order)
get_order-IsTaken_example = get_order-IsTaken one_order (0 ∷ []) one_order-IsQueue

-- A buffer of two places with one connection, and a full one.
abbrev one_item : Buffer
one_item = record { buf = λ i. i + 4; n = 2; front = 0; rear = 1 }

abbrev two_items : Buffer
two_items = record { buf = λ i. i + 4; n = 2; front = 0; rear = 2 }

sbuf_insert-sbuf_remove_example :
    Returns
      (λ b. IsFifo b (5 ∷ 9 ∷ []) × Returns (Removed (5 ∷ 9 ∷ [])) (sbuf_remove b))
      (sbuf_insert 9 one_item)
sbuf_insert-sbuf_remove_example =
    sbuf_insert-sbuf_remove one_item (5 ∷ []) 9
      (record { sized = omega arith; fits = omega arith; counted = refl; stored = (refl, tt) })
      (omega arith) (omega arith)

abbrev opened : Context
opened = record {
  total_customers = 0;
  total_queueing = 0;
  total_burgers = λ b. 0;
  list = record { nodes = λ p. none; fresh = 0; head = none; tail = none; count = 0 };
  keep_running = true;
  sbuf = record { buf = λ i. 0; n = 10; front = 0; rear = 0 };
}

abbrev order_line : (text : List ℕ) → Input
order_line text = record { printed = true; sent = count 1; read = count 7; buffer = text }

client_step-issue_order_example :
    client_step (order_line (burger_names cheese ++ newline ∷ 0 ∷ [])) (ordering 4 0) opened
    ≡ (issue_order 0 cheese opened.list >>= λ r. ok (issued 4 r.0, record opened { list = r.1 }))
client_step-issue_order_example =
    client_step-issue_order (order_line (burger_names cheese ++ newline ∷ 0 ∷ [])) 4 0 7 cheese []
      opened refl (omega arith) refl

-- A server with ten customers at their orders and an eleventh connection.
abbrev full : System
full = record {
  context = record opened { total_queueing = 10 };
  clients =
      ordering 4 0
      ∷ ordering 5 1
      ∷ ordering 6 2
      ∷ ordering 7 3
      ∷ ordering 8 4
      ∷ ordering 9 5
      ∷ ordering 10 6
      ∷ ordering 11 7
      ∷ ordering 12 8
      ∷ ordering 13 9
      ∷ accepted 14
      ∷ [];
  kitchens = ready ∷ [];
}

-- The eleventh client is turned away.
abbrev turned_away : System
turned_away = record {
  context = record opened { total_queueing = 11 };
  clients =
      ordering 4 0
      ∷ ordering 5 1
      ∷ ordering 6 2
      ∷ ordering 7 3
      ∷ ordering 8 4
      ∷ ordering 9 5
      ∷ ordering 10 6
      ∷ ordering 11 7
      ∷ ordering 12 8
      ∷ ordering 13 9
      ∷ leaving 14
      ∷ [];
  kitchens = ready ∷ [];
}

turned_away-Step : Step full turned_away
unfolding client_step
turned_away-Step = serve 10 (order_line []) (accepted 14) (leaving 14) turned_away.context refl refl

Reach-served_example :
    (turned_away.context.total_queueing ≡ total counted turned_away.clients)
    × (total served turned_away.clients ≤ customer_max)
unfolding counted served
Reach-served_example = Reach-served (next here turned_away-Step) refl (omega arith) (omega arith)

-- The only order is done and signalled, and its client has not come to its wait.
abbrev too_late : System
too_late = record {
  context = record opened {
    list = record {
      nodes = update (λ p. none) 0 (some (record (new_node 7 cheese) { is_ready = true }));
      fresh = 1;
      head = none;
      tail = none;
      count = 0;
    };
  };
  clients = issued 4 0 ∷ [];
  kitchens = ready ∷ [];
}

abbrev for_ever : System
for_ever = record too_late { clients = waiting 4 0 ∷ [] }
