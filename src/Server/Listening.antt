-- ===== src/Server/Listening.antt =====
-- lab-5-network/mcdonalds.c: start_server. What getsocklist, socket, bind, listen and accept return
-- is an argument; a list of results that is too short is a call that blocks. exit is a `panic`.
pub mod Accepting
use snu_2021_fall_sys_prog.Common.{
  ℕ, ◌-◌, not, Bool, true, false, Option, none, some, List, [], ◌∷◌, ◌++◌, ◌==◌, if◌then◌else◌,
}
use snu_2021_fall_sys_prog.Common.Run.{Run, ok, panic, out_of_fuel, ◌>>=◌}
use snu_2021_fall_sys_prog.Server.Buffer.{sbuf_insert}
use snu_2021_fall_sys_prog.Server.Threads.{System, Client, starting}

-- The results of one round: the descriptor, `none` for -1, and whether bind and listen succeed.
pub record Attempt : Type 0 where
  pub socket : Option ℕ
  pub binds : Bool
  pub listens : Bool

-- listenfd == 1; the failure of socket, -1, is not tested.
unfoldable pub is_one : Option ℕ → Bool
is_one none = false
is_one (some fd) = fd == 1

-- The loop over the addresses, with `left` of them to go. When listen fails, the same address is
-- tried again.
unfoldable pub set_up : (left : ℕ) → (listenfd : Option ℕ) → List Attempt → Run (Option ℕ)
set_up left listenfd [] = if left == 0 then ok listenfd else out_of_fuel
set_up left listenfd (a ∷ attempts) =
    let later = set_up (if is_one a.socket then left - 1 else left) a.socket attempts in
    if left == 0
    then ok listenfd
    else if is_one a.socket
    then later
    else if not a.binds
    then panic
    else if a.listens
    then ok a.socket
    else later

-- A connection is put in the buffer, and a thread is started for it.
unfoldable pub accept_client : (clientfd : ℕ) → System → Run System
accept_client clientfd s = do
  sbuf ← sbuf_insert clientfd s.context.sbuf
  ok (record s { context = record s.context { sbuf = sbuf }; clients = s.clients ++ starting ∷ [] })

-- The loop around accept: `none` is its failure.
unfoldable pub accept_clients : List (Option ℕ) → System → Run System
accept_clients [] s = out_of_fuel
accept_clients (none ∷ accepted) s = panic
accept_clients (some clientfd ∷ accepted) s = do
  t ← accept_client clientfd s
  accept_clients accepted t

unfoldable pub start_server :
    (res addresses : ℕ) → List Attempt → List (Option ℕ) → System → Run System
start_server res addresses attempts accepted s =
    if not (res == 0)
    then panic
    else (do listenfd ← set_up addresses none attempts; accept_clients accepted s)
