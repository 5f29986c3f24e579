-- ===== src/Server/Threads/Parsing.antt =====
-- lab-5-network/mcdonalds.c: how serve_client reads an order.
use snu_2021_fall_sys_prog.Common.{ℕ, ◌≡◌, ◌<◌, refl, some, List, ◌∷◌, ◌++◌, newline, lt→ltb}
use snu_2021_fall_sys_prog.Common.Run.{ok, fault, ◌>>=◌}
use snu_2021_fall_sys_prog.Network.{count}
use snu_2021_fall_sys_prog.Network.Line.{positive}
use snu_2021_fall_sys_prog.Server.Orders.{Burger, bigmac, cheese, chicken, bulgogi, issue_order}
use snu_2021_fall_sys_prog.Server.Threads.{
  Context, Input, ordering, issued, client_step, place_order, strtok, before_newline, find_burger,
  text_eq, burger_names,
}

strtok_burger :
    (b : Burger) (junk : List ℕ)
    → strtok (burger_names b ++ newline ∷ 0 ∷ junk) ≡ some (burger_names b)
unfolding strtok before_newline
strtok_burger bigmac junk = refl
strtok_burger cheese junk = refl
strtok_burger chicken junk = refl
strtok_burger bulgogi junk = refl

find_burger-burger_names : (b : Burger) → find_burger (burger_names b) ≡ some b
unfolding find_burger text_eq
find_burger-burger_names bigmac = refl
find_burger-burger_names cheese = refl
find_burger-burger_names chicken = refl
find_burger-burger_names bulgogi = refl

-- When get_line has read the name of a burger and a newline, as the client sends it, serve_client
-- issues an order for that burger and the customer, and goes on to wait for it.
pub client_step-issue_order :
    (i : Input) (clientfd customer n : ℕ) (b : Burger) (junk : List ℕ) (x : Context)
    → i.read ≡ count n
    → 0 < n
    → i.buffer ≡ burger_names b ++ newline ∷ 0 ∷ junk
    → client_step i (ordering clientfd customer) x
      ≡ (issue_order customer b x.list >>= λ r. ok (issued clientfd r.0, record x { list = r.1 }))
unfolding client_step place_order positive
client_step-issue_order i clientfd customer n b junk x read some_bytes buffer =
    rw (read, lt→ltb 0 n some_bytes, buffer)
      (rw (strtok_burger b junk, find_burger-burger_names b, place_order) refl)

-- When get_line has read a line that is empty but for its newline, serve_client passes the NULL of
-- strtok to strcmp, and the server faults.
client_step-empty_line_faults :
    (i : Input) (clientfd customer n : ℕ) (junk : List ℕ) (x : Context)
    → i.read ≡ count n
    → 0 < n
    → i.buffer ≡ newline ∷ 0 ∷ junk
    → client_step i (ordering clientfd customer) x ≡ fault
unfolding client_step place_order positive strtok
client_step-empty_line_faults i clientfd customer n junk x read some_bytes buffer =
    rw (read, lt→ltb 0 n some_bytes, buffer) refl
