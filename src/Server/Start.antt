-- ===== src/Server/Start.antt =====
-- lab-5-network/mcdonalds.c: init_mcdonalds. The state in which start_server begins to listen.
use snu_2021_fall_sys_prog.Common.{ℕ, true, none, [], replicate}
use snu_2021_fall_sys_prog.Server.Buffer.{sbuf_init}
use snu_2021_fall_sys_prog.Server.Threads.{System, customer_max, ready}

-- NUM_KITCHEN
abbrev pub num_kitchen : ℕ
num_kitchen = 5

-- The kitchen threads stand at the test of their loop; `garbage` is what malloc leaves in the buffer.
abbrev pub init_mcdonalds : (garbage : ℕ → ℕ) → System
init_mcdonalds garbage = record {
  context = record {
    total_customers = 0;
    total_queueing = 0;
    total_burgers = λ b. 0;
    list = record { nodes = λ p. none; fresh = 0; head = none; tail = none; count = 0 };
    keep_running = true;
    sbuf = sbuf_init garbage customer_max;
  };
  clients = [];
  kitchens = replicate num_kitchen ready;
}
