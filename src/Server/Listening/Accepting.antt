-- ===== src/Server/Listening/Accepting.antt =====
-- lab-5-network/mcdonalds.c: the connections of start_server and those of the step relation.
use snu_2021_fall_sys_prog.Common.{ℕ, ◌≡◌, ◌≢◌, none, some, Option, List, [], ◌∷◌, subst}
use snu_2021_fall_sys_prog.Common.Run.{ok, ok_eq, >>=-eq-ok}
use snu_2021_fall_sys_prog.Server.Buffer.{sbuf_insert}
use snu_2021_fall_sys_prog.Server.Threads.{System, connect, Reach, here, next}
use snu_2021_fall_sys_prog.Server.Listening.{accept_client, accept_clients}

-- A connection that is accepted is a step.
pub accept_client-Reach : (fd : ℕ) (s t : System) → accept_client fd s ≡ ok t → Reach s t
unfolding accept_client
accept_client-Reach fd s t run =
    let (sbuf, stored, done) = >>=-eq-ok (sbuf_insert fd s.context.sbuf) _ run in
    subst (Reach s) (ok_eq done) (next here (connect fd sbuf stored))

-- The loop around accept does not return.
pub accept_clients-ok :
    (accepted : List (Option ℕ)) (s t : System) → accept_clients accepted s ≢ ok t
unfolding accept_clients
accept_clients-ok [] s t e = cc (e)
accept_clients-ok (none ∷ accepted) s t e = cc (e)
accept_clients-ok (some fd ∷ accepted) s t e =
    let (u, one, rest) = >>=-eq-ok (accept_client fd s) _ e in accept_clients-ok accepted u t rest
