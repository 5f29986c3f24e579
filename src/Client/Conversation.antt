-- ===== src/Client/Conversation.antt =====
-- The client of lab-5-network/client.c and the server of lab-5-network/mcdonalds.c.
use snu_2021_fall_sys_prog.Common.{
  newline, ℕ, ◌+◌, ◌^◌, ◌≤◌, ◌<◌, ◌≡◌, ◌≢◌, ◌∙◌, refl, ap, true, false, List, [], ◌∷◌, ◌++◌, arith,
  length, All, append_assoc, replicate, ne→==,
}
use snu_2021_fall_sys_prog.Common.Run.{ok, Returns, Returns-bind, Returns-mono, ◌>>=◌}
use snu_2021_fall_sys_prog.Network.{Reply, Result, count}
use snu_2021_fall_sys_prog.Network.Line.{Line, get_line, put_line}
use snu_2021_fall_sys_prog.Network.Line.Receiving.{Reads}
use snu_2021_fall_sys_prog.Network.Line.RoundTrip.{
  Accepts, get_line_room, get_line_lem, put_line-ended,
}
use snu_2021_fall_sys_prog.Server.Orders.{Burger, bigmac, cheese, chicken, bulgogi, issue_order}
use snu_2021_fall_sys_prog.Server.Threads.{
  Context, Input, ordering, issued, client_step, burger_names,
}
use snu_2021_fall_sys_prog.Server.Threads.Parsing.{client_step-issue_order}
use snu_2021_fall_sys_prog.Client.{Talk, Arrival, no_data, order_buffer, buf_size, converse}

burger_names-nonzero : (b : Burger) → All (λ c. c ≢ 0) (burger_names b)
burger_names-nonzero bigmac = omega arith
burger_names-nonzero cheese = omega arith
burger_names-nonzero chicken = omega arith
burger_names-nonzero bulgogi = omega arith

burger_names-plain : (b : Burger) → All (λ c. c ≢ newline) (burger_names b)
burger_names-plain bigmac = omega arith
burger_names-plain cheese = omega arith
burger_names-plain chicken = omega arith
burger_names-plain bulgogi = omega arith

burger_names-short : (b : Burger) → length (burger_names b) ≤ 7
burger_names-short bigmac = omega arith
burger_names-short cheese = omega arith
burger_names-short chicken = omega arith
burger_names-short bulgogi = omega arith

-- put_line finds the end of the order in the buffer.
put_line-order_buffer :
    (b : Burger) (replies : List Reply)
    → Accepts (length (burger_names b) + 1) replies
    → put_line (length (burger_names b) + 1) (order_buffer b) replies
      ≡ ok (record {
        result = count (length (burger_names b) + 1);
        sent = burger_names b ++ newline ∷ [];
        replies = [];
      })
put_line-order_buffer bigmac replies h =
    put_line-ended 7 (burger_names bigmac) (replicate 1016 0) replies (burger_names-nonzero bigmac)
      (omega arith) (omega arith) h
put_line-order_buffer cheese replies h =
    put_line-ended 7 (burger_names cheese) (replicate 1016 0) replies (burger_names-nonzero cheese)
      (omega arith) (omega arith) h
put_line-order_buffer chicken replies h =
    put_line-ended 8 (burger_names chicken) (replicate 1015 0) replies
      (burger_names-nonzero chicken) (omega arith) (omega arith) h
put_line-order_buffer bulgogi replies h =
    put_line-ended 8 (burger_names bulgogi) (replicate 1015 0) replies
      (burger_names-nonzero bulgogi) (omega arith) (omega arith) h

no_data-line : (r : Result) (n : ℕ) → r ≡ count (n + 1) → no_data r ≡ false
unfolding no_data
no_data-line r n e = rw (e, ne→== (n + 1) 0 (λ e. omega (arith, e))) refl

-- The two lines of the server, and recv brings them.
pub record Arrives (welcome goodbye : List ℕ) (first second : Arrival) : Type 0 where
  pub plain₁ : All (λ c. c ≢ newline) welcome
  pub plain₂ : All (λ c. c ≢ newline) goodbye
  pub bytes₁ : first.bytes ≡ welcome ++ newline ∷ []
  pub bytes₂ : second.bytes ≡ goodbye ++ newline ∷ []
  pub reads₁ : Reads ⊥ (welcome ++ newline ∷ []) first.replies
  pub reads₂ : Reads ⊥ (goodbye ++ newline ∷ []) second.replies
  pub short₁ : length welcome + 1 < 2 ^ 31
  pub short₂ : length goodbye + 1 < 2 ^ 31

-- What the client makes of the lines.
record IsServed (b : Burger) (welcome goodbye : List ℕ) (talk : Talk) : Type 0 where
  shown : talk.shown ≡ (welcome ++ newline ∷ []) ∷ (goodbye ++ newline ∷ []) ∷ []
  sent : talk.sent ≡ burger_names b ++ newline ∷ []

-- get_line has received the line `cs`, and no more.
abbrev HasLine : List ℕ → Line → Type 0
HasLine cs l =
    ((l.result ≡ count (length cs + 1)) × (l.text ≡ cs ++ newline ∷ []) × (l.stream ≡ []))
    × (0 < l.cur_len)
    × (l.cur_len < 2 ^ 63)

get_line-HasLine :
    (d cur_len : ℕ) (cs bytes : List ℕ) (replies : List Reply)
    → All (λ c. c ≢ newline) cs
    → bytes ≡ cs ++ newline ∷ []
    → length cs + 1 < 2 ^ 31
    → 0 < cur_len
    → cur_len < 2 ^ 63
    → Reads ⊥ (cs ++ newline ∷ []) replies
    → Returns (HasLine cs) (get_line d cur_len bytes replies)
get_line-HasLine d cur_len cs bytes replies plain all short some_room bound reads =
    rw all (get_line_room d cur_len cs [] replies plain short (omega arith) some_room bound reads)

converse-IsServed :
    (b : Burger) (welcome goodbye : List ℕ) (first second : Arrival) (sending : List Reply)
    → Arrives welcome goodbye first second
    → Accepts (length (burger_names b) + 1) sending
    → Returns (IsServed b welcome goodbye) (converse b first second sending)
unfolding converse
converse-IsServed b welcome goodbye first second sending h accepts =
    Returns-bind {P = HasLine welcome} (IsServed b welcome goodbye)
      (get_line first.initial buf_size first.bytes first.replies) _
      (get_line-HasLine first.initial buf_size welcome first.bytes first.replies h.plain₁ h.bytes₁
        h.short₁ (omega arith) (omega arith) h.reads₁)
      (λ l (got, some_room, bound). rw (no_data-line l.result (length welcome) got.0) (
        rw (put_line-order_buffer b sending accepts) (
          Returns-bind {P = HasLine goodbye} (IsServed b welcome goodbye)
            (get_line second.initial l.cur_len (l.stream ++ second.bytes) second.replies) _
            (get_line-HasLine second.initial l.cur_len goodbye (l.stream ++ second.bytes)
              second.replies h.plain₂ (ap (λ xs. xs ++ second.bytes) got.2 ∙ h.bytes₂) h.short₂
              some_room bound h.reads₂)
            (λ l' (got', room', below'). record {
              shown = rw (no_data-line l'.result (length goodbye) got'.0) (rw (got.1, got'.1) refl);
              sent = refl;
            }))))

-- The buffer behind get_line, and what its value is, are what serve_client parses.
abbrev pub received : (sent : Result) → Line → (junk : List ℕ) → Input
received sent l junk = record {
  printed = true;
  sent = sent;
  read = l.result;
  buffer = l.text ++ 0 ∷ junk;
}

-- A client whose send accepts its order in any parts and whose recv brings the two lines of the server, each shorter than 2^31 bytes,
-- one byte at a time ends its conversation; when the server's recv brings what the client has sent one byte
-- at a time, with anything behind the line, get_line of the server returns, and serve_client issues
-- an order for the burger that the client has chosen.
pub converse-client_step :
    (b : Burger) (welcome goodbye : List ℕ) (first second : Arrival) (sending : List Reply)
    (d cur_len clientfd customer : ℕ) (rest junk : List ℕ) (arriving : List Reply) (sent : Result)
    (x : Context)
    → Arrives welcome goodbye first second
    → Accepts (length (burger_names b) + 1) sending
    → length rest < 2 ^ 61
    → 0 < cur_len
    → cur_len < 2 ^ 63
    → Reads ⊥ (burger_names b ++ newline ∷ rest) arriving
    → Returns
        (λ l. client_step (received sent l junk) (ordering clientfd customer) x ≡ (
          issue_order customer b x.list >>= λ r. ok (issued clientfd r.0, record x { list = r.1 })))
        (converse b first second sending >>= λ talk.
          get_line d cur_len (talk.sent ++ rest) arriving)
converse-client_step b welcome goodbye first second sending d cur_len clientfd customer rest junk
      arriving sent x arrives accepts small some_room bound reads =
    Returns-bind {P = IsServed b welcome goodbye}
      (λ l. client_step (received sent l junk) (ordering clientfd customer) x ≡ (
        issue_order customer b x.list >>= λ r. ok (issued clientfd r.0, record x { list = r.1 })))
      (converse b first second sending) (λ talk. get_line d cur_len (talk.sent ++ rest) arriving)
      (converse-IsServed b welcome goodbye first second sending arrives accepts)
      (λ talk served. rw (served.sent) (
        Returns-mono _ _ (get_line d cur_len ((burger_names b ++ newline ∷ []) ++ rest) arriving)
          (get_line_lem d cur_len (burger_names b) rest arriving (burger_names-plain b)
            (let name = burger_names-short b in omega (arith, name)) small some_room bound reads)
          (λ l got.
            client_step-issue_order (received sent l junk) clientfd customer
              (length (burger_names b) + 1) b junk x got.0 (omega arith)
              (ap (λ xs. xs ++ 0 ∷ junk) got.1
                ∙ append_assoc (burger_names b) (newline ∷ []) (0 ∷ junk)))))
