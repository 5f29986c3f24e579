-- ===== src/Network/Line/RoundTrip.antt =====
-- put_line of lab-5-network/net.c, and get_line at the other end.
use snu_2021_fall_sys_prog.Common.{
  newline, ℕ, zero, suc, ◌+◌, ◌-◌, ◌^◌, ◌≤◌, ◌<◌, ◌≡◌, ◌≢◌, ◌∙◌, refl, inl, inr, sym, ap, List, [],
  ◌∷◌, ◌++◌, arith, take, length, All, length-append, All-append, append_assoc, append-nil, ne→==,
  lt→ltb,
}
use snu_2021_fall_sys_prog.Common.Run.{ok, fault, Returns, Returns-mono, ◌>>=◌}
use snu_2021_fall_sys_prog.Network.{
  Reply, moved, interrupted, broken, count, drop, transfer_loop, transfer_data, put_data,
}
use snu_2021_fall_sys_prog.Network.Moving.{take-drop, length-drop, less_wraps}
use snu_2021_fall_sys_prog.Network.Line.{
  Line, int_of, get_line, string_of, last_of, positive, both, put_newline, put_string, put_line,
}
use snu_2021_fall_sys_prog.Network.Line.Receiving.{
  transfer_loop-zero, Reads, IsReceived, get_line-IsReceived,
}

-- The replies of send that accept `n` bytes, in parts, with signals between them.
abbrev pub Accepts : ℕ → List Reply → Type 0
Accepts n [] = n ≡ 0
Accepts n (moved r ∷ replies) = (0 < r) × (r ≤ n) × Accepts (n - r) replies
Accepts n (interrupted ∷ replies) = (0 < n) × Accepts n replies
Accepts n (broken ∷ replies) = ⊥

pair_eq : {a b : ℕ} {xs ys : List ℕ} → a ≡ b → xs ≡ ys → ◌≡◌ {A = ℕ × List ℕ} (a, xs) (b, ys)
pair_eq e f = cc

empty : (xs : List ℕ) → length xs ≡ 0 → xs ≡ []
empty [] h = refl
empty (x ∷ xs) h = absurd (omega (arith, h))

-- The bytes are sent, and the replies behind are left.
transfer_loop-Accepts :
    (n res : ℕ) (done source : List ℕ) (replies more : List Reply)
    → res + n < 2 ^ 31
    → length source ≡ n
    → Accepts n replies
    → transfer_loop n res done source (replies ++ more)
      ≡ ok (record { result = count (res + n); done = done ++ source; source = []; replies = more })
unfolding transfer_loop
transfer_loop-Accepts n res done source [] more small len h =
    rw (h, transfer_loop-zero res done source more, empty source (len ∙ h), append-nil done)
      (ap (λ x. ok (record { result = count x; done = done; source = []; replies = more }))
        (omega arith))
transfer_loop-Accepts n res done source (moved r ∷ replies) more small len (some_bytes, wanted, h) =
    rw
      (
        ne→== n 0 (λ e. omega (arith, e, some_bytes, wanted)),
        ne→== r 0 (λ e. omega (arith, e, some_bytes)),
        less_wraps n r wanted (omega (arith, small)),
        lt→ltb (res + r) (2 ^ 31) (omega (arith, wanted, small)),
      )
      (transfer_loop-Accepts (n - r) (res + r) (done ++ take r source) (drop r source) replies more
          (omega (arith, wanted, small)) (omega (arith, length-drop r source, len)) h
        ∙ ap
            (λ (x : ℕ × List ℕ).
              ok (record { result = count x.0; done = x.1; source = []; replies = more }))
            (pair_eq (omega (arith, wanted)) (
              append_assoc done (take r source) (drop r source)
              ∙ ap (λ xs. done ++ xs) (take-drop r source))))
transfer_loop-Accepts n res done source (interrupted ∷ replies) more small len (some_left, h) =
    rw (ne→== n 0 (λ e. omega (arith, e, some_left)))
      (transfer_loop-Accepts n res done source replies more small len h)
transfer_loop-Accepts n res done source (broken ∷ replies) more small len h = absurd h

string_of_lem :
    (len : ℕ) (cs junk : List ℕ)
    → All (λ c. c ≢ 0) cs
    → length cs ≤ len
    → string_of len (cs ++ 0 ∷ junk) ≡ ok cs
unfolding string_of
string_of_lem zero [] junk h less = refl
string_of_lem zero (c ∷ cs) junk h less = absurd (omega (arith, less))
string_of_lem (suc len) [] junk h less = refl
string_of_lem (suc len) (c ∷ cs) junk h less =
    rw (ne→== c 0 h.0) (rw (string_of_lem len cs junk h.1 (omega (arith, less))) refl)

last_of_lem :
    (P : ℕ → Type 0) (c : ℕ) (cs : List ℕ)
    → All P (c ∷ cs)
    → (b : ℕ) × (last_of (c ∷ cs) ≡ ok b) × P b
unfolding last_of
last_of_lem P c [] h = (c, refl, h.0)
last_of_lem P c (d ∷ cs) h = last_of_lem P d cs h.1

-- A text is determined by what stands before the first newline.
split_unique :
    (xs ys us vs : List ℕ)
    → All (λ c. c ≢ newline) xs
    → All (λ c. c ≢ newline) ys
    → xs ++ newline ∷ us ≡ ys ++ newline ∷ vs
    → (xs ≡ ys) × (us ≡ vs)
split_unique [] [] us vs h k e = (refl, cc)
split_unique [] (y ∷ ys) us vs h k e = absurd (k.0 (cc))
split_unique (x ∷ xs) [] us vs h k e = absurd (h.0 (cc))
split_unique (x ∷ xs) (y ∷ ys) us vs h k e =
    let r = split_unique xs ys us vs h.1 k.1 (cc) in (cc (r.0), r.1)

put_newline_lem :
    (n b : ℕ) (cs sent : List ℕ) (replies : List Reply)
    → 0 < n
    → n + 1 < 2 ^ 31
    → last_of cs ≡ ok b
    → b ≢ newline
    → Accepts 1 replies
    → put_newline cs (record { result = count n; sent = sent; replies = replies })
      ≡ ok (record { result = count (n + 1); sent = sent ++ newline ∷ []; replies = [] })
unfolding put_newline put_data transfer_data positive both int_of
put_newline_lem n b cs sent replies some_sent small at_end other accepts =
    rw (lt→ltb 0 n some_sent) (
      rw at_end (
        rw (ne→== b newline other) (
          rw (← append-nil replies) (
            rw (transfer_loop-Accepts 1 0 [] (newline ∷ []) replies [] (omega arith) refl accepts) (
              rw (lt→ltb (n + (0 + 1)) (2 ^ 31) (omega (arith, small))) (
                ap
                  (λ k. ok (record { result = count k; sent = sent ++ newline ∷ []; replies = [] }))
                  (omega arith)))))))

-- A string that is not empty and has no newline is sent with a newline behind it.
put_line_lem :
    (len c : ℕ) (cs junk : List ℕ) (first second : List Reply)
    → All (λ b. b ≢ 0) (c ∷ cs)
    → All (λ b. b ≢ newline) (c ∷ cs)
    → length (c ∷ cs) ≤ len
    → length (c ∷ cs) + 1 < 2 ^ 31
    → Accepts (length (c ∷ cs)) first
    → Accepts 1 second
    → put_line len ((c ∷ cs) ++ 0 ∷ junk) (first ++ second)
      ≡ ok (record {
        result = count (length (c ∷ cs) + 1);
        sent = (c ∷ cs) ++ newline ∷ [];
        replies = [];
      })
unfolding put_line put_string put_newline put_data transfer_data positive both
put_line_lem len c cs junk first second nonzero plain room small a₁ a₂ =
    let (b, at_end, other) = last_of_lem (λ b. b ≢ newline) c cs plain in
    rw (ne→== len 0 (λ e. omega (arith, e, room))) (
      rw (string_of_lem len (c ∷ cs) junk nonzero room) (
        rw (lt→ltb 0 (length (c ∷ cs)) (omega arith)) (
          rw
            (transfer_loop-Accepts (length (c ∷ cs)) 0 [] (c ∷ cs) first second
              (omega (arith, small)) refl a₁)
            (put_newline_lem (0 + length (c ∷ cs)) b (c ∷ cs) (c ∷ cs) second (omega arith)
                (omega (arith, small)) at_end other a₂
              ∙ ap
                  (λ n.
                    ok (record { result = count n; sent = (c ∷ cs) ++ newline ∷ []; replies = [] }))
                  (omega arith)))))

received_text :
    (sent body rest : List ℕ) (l : Line)
    → All (λ b. b ≢ newline) sent
    → All (λ b. b ≢ newline) body
    → l.result ≡ count (length l.text)
    → l.text ≡ body ++ newline ∷ []
    → l.text ++ l.stream ≡ sent ++ newline ∷ rest
    → (l.result ≡ count (length sent + 1)) × (l.text ≡ sent ++ newline ∷ []) × (l.stream ≡ rest)
received_text sent body rest l plain plain' result text kept =
    let joined : body ++ newline ∷ l.stream ≡ sent ++ newline ∷ rest =
      sym (append_assoc body (newline ∷ []) l.stream)
      ∙ ap (λ xs. xs ++ l.stream) (sym text)
      ∙ kept in
    let same = split_unique body sent l.stream rest plain' plain joined in
    let whole : l.text ≡ sent ++ newline ∷ [] = text ∙ ap (λ xs. xs ++ newline ∷ []) same.0 in
    (
      result ∙ ap (λ xs. count (length xs)) whole ∙ ap count (length-append sent (newline ∷ [])),
      whole,
      same.1,
    )

last_of-append : (cs : List ℕ) (b : ℕ) → last_of (cs ++ b ∷ []) ≡ ok b
unfolding last_of
last_of-append [] b = refl
last_of-append (c ∷ []) b = refl
last_of-append (c ∷ d ∷ cs) b = last_of-append (d ∷ cs) b

-- A string that ends with a newline is sent as it is.
pub put_line-ended :
    (len : ℕ) (cs junk : List ℕ) (replies : List Reply)
    → All (λ b. b ≢ 0) cs
    → length cs + 1 ≤ len
    → length cs + 1 < 2 ^ 31
    → Accepts (length cs + 1) replies
    → put_line len ((cs ++ newline ∷ []) ++ 0 ∷ junk) replies
      ≡ ok (record { result = count (length cs + 1); sent = cs ++ newline ∷ []; replies = [] })
unfolding put_line put_string put_newline put_data transfer_data positive
put_line-ended len cs junk replies nonzero room small accepts =
    let size = length-append cs (newline ∷ []) in
    rw (ne→== len 0 (λ e. omega (arith, e, room))) (
      rw
        (string_of_lem len (cs ++ newline ∷ []) junk
          (All-append (λ b. b ≢ 0) cs (newline ∷ []) nonzero (omega arith, tt))
          (omega (arith, size, room)))
        (rw (size, lt→ltb 0 (length cs + 1) (omega arith), ← append-nil replies)
          (rw
            (transfer_loop-Accepts (length cs + 1) 0 [] (cs ++ newline ∷ []) replies []
              (omega (arith, small)) size accepts)
            (rw (last_of-append cs newline, lt→ltb 0 (0 + (length cs + 1)) (omega arith))
              (ap (λ n. ok (record { result = count n; sent = cs ++ newline ∷ []; replies = [] }))
                (omega arith))))))

-- What stands before a newline bounds what stands before the first one.
plain_le :
    (cs body rest tail : List ℕ)
    → All (λ b. b ≢ newline) body
    → cs ++ newline ∷ rest ≡ body ++ tail
    → length body ≤ length cs
plain_le cs [] rest tail plain e = omega arith
plain_le [] (b ∷ body) rest tail plain e = absurd (plain.0 (cc))
plain_le (c ∷ cs) (b ∷ body) rest tail plain e =
    omega (arith, plain_le cs body rest tail plain.1 (cc))

-- get_line of a line and what follows it.
pub get_line_room :
    (d cur_len : ℕ) (cs rest : List ℕ) (received : List Reply)
    → All (λ b. b ≢ newline) cs
    → length cs + 1 < 2 ^ 31
    → length rest < 2 ^ 61
    → 0 < cur_len
    → cur_len < 2 ^ 63
    → Reads ⊥ (cs ++ newline ∷ rest) received
    → Returns
        (λ l.
          ((l.result ≡ count (length cs + 1)) × (l.text ≡ cs ++ newline ∷ []) × (l.stream ≡ rest))
          × (0 < l.cur_len)
          × (l.cur_len < 2 ^ 63))
        (get_line d cur_len (cs ++ newline ∷ rest) received)
get_line_room d cur_len cs rest received plain short small some_room bound reads =
    Returns-mono (IsReceived ⊥ (cs ++ newline ∷ rest)) _
      (get_line d cur_len (cs ++ newline ∷ rest) received)
      (get_line-IsReceived ⊥ d cur_len (cs ++ newline ∷ rest) received some_room bound
        (omega (arith, short, small, length-append cs (newline ∷ rest)))
        (λ body tail e plain'. omega (arith, short, plain_le cs body rest tail plain' e)) reads)
      (λ l r. elim r.value [
        | inl (result, (body, text, plain')) ↦ (
          received_text cs body rest l plain plain' result text r.kept,
          omega (arith, r.fits),
          r.small,
        )
        | inr (no_end, other) ↦ absurd no_end
      ])

pub get_line_lem :
    (d cur_len : ℕ) (cs rest : List ℕ) (received : List Reply)
    → All (λ b. b ≢ newline) cs
    → length cs + 1 < 2 ^ 31
    → length rest < 2 ^ 61
    → 0 < cur_len
    → cur_len < 2 ^ 63
    → Reads ⊥ (cs ++ newline ∷ rest) received
    → Returns
        (λ l.
          (l.result ≡ count (length cs + 1)) × (l.text ≡ cs ++ newline ∷ []) × (l.stream ≡ rest))
        (get_line d cur_len ((cs ++ newline ∷ []) ++ rest) received)
get_line_lem d cur_len cs rest received plain short small some_room bound reads =
    rw (append_assoc cs (newline ∷ []) rest) (
      Returns-mono _ _ (get_line d cur_len (cs ++ newline ∷ rest) received)
        (get_line_room d cur_len cs rest received plain short small some_room bound reads)
        (λ l r. r.0))

-- put_line of a string `c ∷ cs` that is not empty, holds no newline and has less than 2^31 - 1
-- bytes, from a buffer with its null
-- byte and a length of at least the string's, where send accepts all bytes in any parts and with
-- any signals; and then get_line of what was sent, followed by less than 2^61 bytes `rest`, where recv brings one byte at
-- a time until the newline. Both return: get_line returns the length of the string with its newline,
-- its buffer holds these, and `rest` is left in the stream.
pub put_line-get_line :
    (len c cur_len : ℕ) (cs junk rest : List ℕ) (d : ℕ) (first second received : List Reply)
    → All (λ b. b ≢ 0) (c ∷ cs)
    → All (λ b. b ≢ newline) (c ∷ cs)
    → length (c ∷ cs) ≤ len
    → length (c ∷ cs) + 1 < 2 ^ 31
    → length rest < 2 ^ 61
    → Accepts (length (c ∷ cs)) first
    → Accepts 1 second
    → 0 < cur_len
    → cur_len < 2 ^ 63
    → Reads ⊥ ((c ∷ cs) ++ newline ∷ rest) received
    → Returns
        (λ l.
          (l.result ≡ count (length (c ∷ cs) + 1))
          × (l.text ≡ (c ∷ cs) ++ newline ∷ [])
          × (l.stream ≡ rest))
        (put_line len ((c ∷ cs) ++ 0 ∷ junk) (first ++ second) >>= λ s.
          get_line d cur_len (s.sent ++ rest) received)
put_line-get_line len c cur_len cs junk rest d first second received nonzero plain room short small
      a₁ a₂ some_room bound reads =
    rw (put_line_lem len c cs junk first second nonzero plain room short a₁ a₂)
      (get_line_lem d cur_len (c ∷ cs) rest received plain short small some_room bound reads)

-- The same for a string whose only newline is at its end, as the client and the server send them:
-- put_line adds no second newline.
pub put_line-get_line_ended :
    (len cur_len : ℕ) (cs junk rest : List ℕ) (d : ℕ) (replies received : List Reply)
    → All (λ b. b ≢ 0) cs
    → All (λ b. b ≢ newline) cs
    → length cs + 1 ≤ len
    → length cs + 1 < 2 ^ 31
    → length rest < 2 ^ 61
    → Accepts (length cs + 1) replies
    → 0 < cur_len
    → cur_len < 2 ^ 63
    → Reads ⊥ (cs ++ newline ∷ rest) received
    → Returns
        (λ l.
          (l.result ≡ count (length cs + 1)) × (l.text ≡ cs ++ newline ∷ []) × (l.stream ≡ rest))
        (put_line len ((cs ++ newline ∷ []) ++ 0 ∷ junk) replies >>= λ s.
          get_line d cur_len (s.sent ++ rest) received)
put_line-get_line_ended len cur_len cs junk rest d replies received nonzero plain room short small
      accepts some_room bound reads =
    rw (put_line-ended len cs junk replies nonzero room short accepts)
      (get_line_lem d cur_len cs rest received plain short small some_room bound reads)

-- put_line of the empty string, with a positive length of the buffer, reads the byte before the
-- buffer.
pub put_line-empty_faults :
    (len : ℕ) (junk : List ℕ) (replies : List Reply)
    → 0 < len
    → put_line len (0 ∷ junk) replies ≡ fault
unfolding put_line put_string put_newline string_of positive last_of
put_line-empty_faults zero junk replies h = absurd (omega (arith, h))
put_line-empty_faults (suc len) junk replies h = rw (ne→== (suc len) 0 (λ e. omega (arith, e))) refl
