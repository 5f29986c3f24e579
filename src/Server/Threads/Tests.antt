-- ===== src/Server/Threads/Tests.antt =====
-- A run of lab-5-network/mcdonalds.c from init_mcdonalds to an order in the kitchen.
use snu_2021_fall_sys_prog.Common.{◌==◌, if◌then◌else◌, newline, ℕ, true, none, some, [], ◌∷◌, ◌++◌}
use snu_2021_fall_sys_prog.Network.{count}
use snu_2021_fall_sys_prog.Server.Orders.{cheese, update, new_node}
use snu_2021_fall_sys_prog.Server.Start.{init_mcdonalds}
use snu_2021_fall_sys_prog.Server.Threads.{
  Context, Client, issued, Input, burger_names, ready, cooking, System,
}

abbrev garbage : ℕ → ℕ
garbage i = 0

abbrev order_line : Input
order_line = record {
  printed = true;
  sent = count 1;
  read = count 7;
  buffer = burger_names cheese ++ newline ∷ [];
}

-- The server with the one client `c`, and with the first kitchen thread at `k`.
abbrev open_server : System
open_server = init_mcdonalds garbage

abbrev connected : Context
connected = record open_server.context {
  sbuf = record { buf = λ i. if i == 1 then 4 else garbage i; n = 10; front = 0; rear = 1 };
}

abbrev removed : Context
removed = record connected { sbuf = record connected.sbuf { front = 1 } }

abbrev queued : Context
queued = record removed { total_queueing = 1 }

abbrev numbered : Context
numbered = record queued { total_customers = 1 }

abbrev placed : Context
placed = record numbered {
  list = record {
    nodes = update (λ p. none) 0 (some (new_node 0 cheese));
    fresh = 1;
    head = some 0;
    tail = some 0;
    count = 1;
  };
}

abbrev cooking_now : Context
cooking_now = record placed { list = record placed.list { head = none; tail = none; count = 0 } }

abbrev with_client : Context → Client → System
with_client x c = record open_server { context = x; clients = c ∷ [] }

abbrev in_kitchen : System
in_kitchen = record {
  context = cooking_now;
  clients = issued 4 0 ∷ [];
  kitchens = cooking 0 ∷ ready ∷ ready ∷ ready ∷ ready ∷ [];
}
