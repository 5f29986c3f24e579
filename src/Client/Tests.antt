-- ===== src/Client/Tests.antt =====
-- The conversation of lab-5-network/client.c with the server at concrete lines.
use snu_2021_fall_sys_prog.Common.{
  newline, ◌≡◌, refl, inl, inr, none, some, [], ◌∷◌, ◌++◌, arith, true,
}
use snu_2021_fall_sys_prog.Common.Run.{ok, Returns, ◌>>=◌}
use snu_2021_fall_sys_prog.Network.{moved, interrupted, count}
use snu_2021_fall_sys_prog.Network.Line.{get_line}
use snu_2021_fall_sys_prog.Server.Orders.{cheese, issue_order}
use snu_2021_fall_sys_prog.Server.Start.{init_mcdonalds}
use snu_2021_fall_sys_prog.Server.Threads.{Context, ordering, issued, client_step}
use snu_2021_fall_sys_prog.Client.{Arrival, no_socket, refused, connects, connect_loop, converse}
use snu_2021_fall_sys_prog.Client.Conversation.{received, converse-client_step}

-- W
abbrev welcome : Arrival
welcome = record {
  initial = 0;
  bytes = b'W' ∷ newline ∷ [];
  replies = moved 1 ∷ interrupted ∷ moved 1 ∷ [];
}

-- Bye
abbrev goodbye : Arrival
goodbye = record {
  initial = 0;
  bytes = b'B' ∷ b'y' ∷ b'e' ∷ newline ∷ [];
  replies = moved 1 ∷ moved 1 ∷ moved 1 ∷ moved 1 ∷ [];
}

abbrev opened : Context
opened = (init_mcdonalds (λ i. 0)).context

converse-client_step_example :
    Returns
      (λ l. client_step (received (count 1) l []) (ordering 4 0) opened ≡ (
        issue_order 0 cheese opened.list >>= λ r. ok (issued 4 r.0, record opened { list = r.1 })))
      (converse cheese welcome goodbye (moved 3 ∷ interrupted ∷ moved 4 ∷ []) >>= λ talk.
        get_line 0 1024
          (talk.sent ++ [])
          (moved 1 ∷ moved 1 ∷ moved 1 ∷ moved 1 ∷ moved 1 ∷ moved 1 ∷ moved 1 ∷ []))
converse-client_step_example =
    converse-client_step cheese (b'W' ∷ []) (b'B' ∷ b'y' ∷ b'e' ∷ []) welcome goodbye
      (moved 3 ∷ interrupted ∷ moved 4 ∷ []) 0 1024 4 0 [] []
      (moved 1 ∷ moved 1 ∷ moved 1 ∷ moved 1 ∷ moved 1 ∷ moved 1 ∷ moved 1 ∷ []) (count 1) opened
      (record {
        plain₁ = omega arith;
        plain₂ = omega arith;
        bytes₁ = refl;
        bytes₂ = refl;
        reads₁ = inr (refl, inr (inr (refl, inl refl)));
        reads₂ = inr (refl, inr (inr (refl, inr (inr (refl, inr (inr (refl, inl refl)))))));
        short₁ = omega arith;
        short₂ = omega arith;
      })
      (omega arith) (omega arith) (omega arith) (omega arith)
      (inr (
        refl,
        inr (
            inr (
              refl,
              inr (
                  inr (
                    refl,
                    inr (
                        inr (refl, inr (inr (refl, inr (inr (refl, inr (inr (refl, inl refl)))))))),
                  )),
            )),
      ))

-- The second address is refused and the third connects; with no success a closed socket is left.
third_address :
    connect_loop none (no_socket ∷ refused 3 ∷ connects 5 ∷ connects 6 ∷ []) ≡ (some 5, true)
unfolding connect_loop
third_address = refl
