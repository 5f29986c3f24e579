-- ===== src/Network/Line/Receiving.antt =====
-- get_line of lab-5-network/net.c.
use snu_2021_fall_sys_prog.Common.{
  newline, ℕ, zero, suc, ◌+◌, ◌^◌, ◌≤◌, ◌<◌, ◌≡◌, ◌≢◌, ◌⊎◌, ◌∙◌, refl, inl, inr, sym, ap, subst,
  true, none, some, List, [], ◌∷◌, ◌++◌, arith, ◌==◌, if◌then◌else◌, length, All, length-append,
  append_assoc, All-append, Bool-cases, eq→==, ==→eq, ne→==, lt→ltb,
}
use snu_2021_fall_sys_prog.Common.Run.{ok, Returns, Returns-bind, Returns-mono}
use snu_2021_fall_sys_prog.Network.{
  Reply, moved, interrupted, broken, count, failure, Transfer, drop, transfer_loop, transfer_data,
  get_data,
}
use snu_2021_fall_sys_prog.Network.Line.{
  Line, int_of, one_byte, end_line, grown, line_loop, get_line,
}

-- The replies of recv to a caller that asks for one byte at a time, as long as no newline has come:
-- one byte of the stream, which may be the newline, or a signal; the stream may end or break where
-- `E` holds.
abbrev pub Reads : (E : Type 0) → List ℕ → List Reply → Type 0
Reads E stream [] = ⊥
Reads E stream (interrupted ∷ replies) = Reads E stream replies
Reads E stream (broken ∷ replies) = E
Reads E [] (moved r ∷ replies) = (r ≡ 0) × E
Reads E (c ∷ cs) (moved r ∷ replies) =
    ((r ≡ 0) × E) ⊎ ((r ≡ 1) × ((c ≡ newline) ⊎ Reads E cs replies))

-- One byte arrived, or none and the stream is as it was.
Got : (E : Type 0) → List ℕ → List Reply → Transfer → Type 0
Got E stream replies t =
    ((c : ℕ) × (stream ≡ c ∷ t.source)
      × (one_byte t.result t.done ≡ some c)
      × ((c ≡ newline) ⊎ Reads E t.source t.replies)
      × (length t.replies < length replies))
    ⊎ (E
        × (t.source ≡ stream)
        × (one_byte t.result t.done ≡ none)
        × ((t.result ≡ count 0) ⊎ (t.result ≡ failure)))

pub transfer_loop-zero :
    (res : ℕ) (done source : List ℕ) (replies : List Reply)
    → transfer_loop 0 res done source replies
      ≡ ok (record { result = count res; done = done; source = source; replies = replies })
unfolding transfer_loop
transfer_loop-zero res done source [] = refl
transfer_loop-zero res done source (reply ∷ replies) = refl

Got-later :
    (E : Type 0) (stream : List ℕ) (reply : Reply) (replies : List Reply) (t : Transfer)
    → Got E stream replies t
    → Got E stream (reply ∷ replies) t
unfolding Got
Got-later E stream reply replies t (inl (c, split, e, more, shorter)) =
    inl (c, split, e, more, omega (arith, shorter))
Got-later E stream reply replies t (inr ended) = inr ended

get_data-Got :
    (E : Type 0) (stream : List ℕ) (replies : List Reply)
    → Reads E stream replies
    → Returns (Got E stream replies) (get_data true 1 stream replies)
unfolding get_data transfer_data transfer_loop drop Got one_byte
get_data-Got E stream [] h = absurd h
get_data-Got E stream (interrupted ∷ replies) h =
    Returns-mono (Got E stream replies) (Got E stream (interrupted ∷ replies))
      (get_data true 1 stream replies) (get_data-Got E stream replies h)
      (Got-later E stream interrupted replies)
get_data-Got E stream (broken ∷ replies) h = inr (h, refl, refl, inr refl)
get_data-Got E [] (moved r ∷ replies) (none_moved, ended) =
    rw (eq→== r 0 none_moved) (inr (ended, refl, refl, inl refl))
get_data-Got E (c ∷ cs) (moved r ∷ replies) (inl (none_moved, ended)) =
    rw (eq→== r 0 none_moved) (inr (ended, refl, refl, inl refl))
get_data-Got E (c ∷ cs) (moved r ∷ replies) (inr (one, more)) =
    rw one (rw (transfer_loop-zero 1 (c ∷ []) cs replies) (inl (c, refl, refl, more, omega arith)))

-- A text that ends with its only newline.
abbrev pub IsLineText : List ℕ → Type 0
IsLineText text = (body : List ℕ) × (text ≡ body ++ newline ∷ []) × All (λ b. b ≢ newline) body

-- What get_line returns for a stream: nothing of the stream is lost, the text and its null byte fit
-- the buffer, and the value is the length of a whole line, or 0 or -1 where the stream ended or
-- broke.
pub record IsReceived (E : Type 0) (stream : List ℕ) (l : Line) : Type 0 where
  pub kept : l.text ++ l.stream ≡ stream
  pub fits : length l.text < l.cur_len
  pub small : l.cur_len < 2 ^ 63
  pub value :
      ((l.result ≡ count (length l.text)) × IsLineText l.text)
      ⊎ (E × ((l.result ≡ count 0) ⊎ (l.result ≡ failure)))

-- The bytes of the stream before its first newline, and the newline, are less than 2^31.
abbrev pub ShortLine : List ℕ → Type 0
ShortLine stream =
    (body rest : List ℕ)
    → stream ≡ body ++ rest
    → All (λ b. b ≢ newline) body
    → length body + 1 < 2 ^ 31

-- Between rounds, `c` is the last byte of the text, which is no newline.
record Before (whole : List ℕ) (c cur_len : ℕ) (text stream : List ℕ) : Type 0 where
  kept : text ++ stream ≡ whole
  fits : length text < cur_len
  small : cur_len < 2 ^ 63
  plain : All (λ b. b ≢ newline) text
  last : (text ≡ []) ⊎ (c ≢ newline)

end_line-IsReceived :
    (E : Type 0) (whole : List ℕ) (c cur_len : ℕ) (text stream : List ℕ) (t : Transfer)
    → Before whole c cur_len text stream
    → E
    → t.source ≡ stream
    → (t.result ≡ count 0) ⊎ (t.result ≡ failure)
    → Returns (IsReceived E whole) (end_line c cur_len text t)
unfolding end_line int_of
end_line-IsReceived E whole c cur_len text stream t b e same ended =
    rw (lt→ltb (length text) cur_len b.fits) (elim (Bool-cases (c == newline)) [
      | inl unset ↦ rw unset (elim b.last [
        | inl none_read ↦
            let none_there : length text ≡ 0 = ap length none_read in
            rw (lt→ltb (length text) (2 ^ 31) (omega (arith, none_there))) (record {
              kept = ap (λ xs. text ++ xs) same ∙ b.kept;
              fits = b.fits;
              small = b.small;
              value = inr (e, inl (ap count none_there));
            })
        | inr other ↦ absurd (ground (arith, unset, other))
      ])
      | inr other ↦ rw other (record {
        kept = ap (λ xs. text ++ xs) same ∙ b.kept;
        fits = b.fits;
        small = b.small;
        value = inr (e, ended);
      })
    ])

grown_fits :
    (pos cur_len total : ℕ)
    → 0 < pos
    → pos ≤ cur_len
    → cur_len < 2 ^ 63
    → pos ≤ total
    → total < 2 ^ 62
    → (pos < grown pos cur_len) × (grown pos cur_len < 2 ^ 63)
unfolding grown
grown_fits pos cur_len total some_byte h small within bound = ground arith

-- A byte has been stored behind the text.
stored :
    (whole : List ℕ) (c b cur_len : ℕ) (text rest : List ℕ)
    → length whole < 2 ^ 62
    → Before whole c cur_len text (b ∷ rest)
    → ((text ++ b ∷ []) ++ rest ≡ whole)
      × (length (text ++ b ∷ []) < grown (length text + 1) cur_len)
      × (grown (length text + 1) cur_len < 2 ^ 63)
stored whole c b cur_len text rest bound before =
    let total : length text + suc (length rest) ≡ length whole =
      sym (length-append text (b ∷ rest)) ∙ ap length before.kept in
    let room =
      grown_fits (length text + 1) cur_len (length whole) (omega arith) (omega (arith, before.fits))
        before.small (omega (arith, total)) bound in
    (
      append_assoc text (b ∷ []) rest ∙ before.kept,
      omega (arith, length-append text (b ∷ []), room.0),
      room.1,
    )

store-Before :
    (whole : List ℕ) (c b cur_len : ℕ) (text rest : List ℕ)
    → length whole < 2 ^ 62
    → Before whole c cur_len text (b ∷ rest)
    → b ≢ newline
    → Before whole b (grown (length text + 1) cur_len) (text ++ b ∷ []) rest
store-Before whole c b cur_len text rest bound before other =
    let s = stored whole c b cur_len text rest bound before in
    record {
      kept = s.0;
      fits = s.1;
      small = s.2;
      plain = All-append (λ x. x ≢ newline) text (b ∷ []) before.plain (other, tt);
      last = inr other;
    }

-- The newline has been stored, and the line is complete.
end_line-whole :
    (E : Type 0) (whole : List ℕ) (c cur_len : ℕ) (text rest : List ℕ) (t : Transfer)
    → length whole < 2 ^ 62
    → ShortLine whole
    → Before whole c cur_len text (newline ∷ rest)
    → t.source ≡ rest
    → Returns
        (IsReceived E whole)
        (end_line newline (grown (length text + 1) cur_len) (text ++ newline ∷ []) t)
unfolding end_line int_of
end_line-whole E whole c cur_len text rest t bound short before same =
    let s = stored whole c newline cur_len text rest bound before in
    let line = short text (newline ∷ rest) (sym before.kept) before.plain in
    let fits : length (text ++ newline ∷ []) < 2 ^ 31 =
      omega (arith, line, length-append text (newline ∷ [])) in
    rw
      (
        lt→ltb (length (text ++ newline ∷ [])) (grown (length text + 1) cur_len) s.1,
        lt→ltb (length (text ++ newline ∷ [])) (2 ^ 31) fits,
      )
      (record {
        kept = ap (λ xs. (text ++ newline ∷ []) ++ xs) same ∙ s.0;
        fits = s.1;
        small = s.2;
        value = inl (refl, (text, refl, before.plain));
      })

-- The rest of the loop behind a byte, if the loop does its work on `fuel`.
round_byte :
    (E : Type 0) (fuel : ℕ) (whole : List ℕ) (c cur_len : ℕ) (text : List ℕ) (b : ℕ) (t : Transfer)
    → length whole < 2 ^ 62
    → ShortLine whole
    → ((c cur_len : ℕ) (text stream : List ℕ) (replies : List Reply)
        → length whole < 2 ^ 62
        → ShortLine whole
        → Before whole c cur_len text stream
        → Reads E stream replies
        → length replies < fuel
        → Returns (IsReceived E whole) (line_loop fuel c cur_len text stream replies))
    → (b ≡ newline) ⊎ Reads E t.source t.replies
    → Before whole c cur_len text (b ∷ t.source)
    → length t.replies < fuel
    → Returns (IsReceived E whole) (
        if b == newline
        then end_line b (grown (length text + 1) cur_len) (text ++ b ∷ []) t
        else line_loop fuel b (grown (length text + 1) cur_len) (text ++ b ∷ []) t.source t.replies)
round_byte E fuel whole c cur_len text b t bound short loop more before less =
    elim (Bool-cases (b == newline)) [
      | inl e ↦ rw e (
          rw (==→eq b newline e) (
            end_line-whole E whole c cur_len text t.source t bound short
              (subst (λ x. Before whole c cur_len text (x ∷ t.source)) (==→eq b newline e) before)
              refl))
      | inr other ↦ rw other (elim more [
        | inl e ↦ absurd (ground (arith, e, other))
        | inr reads ↦
            loop b (grown (length text + 1) cur_len) (text ++ b ∷ []) t.source t.replies bound short
              (store-Before whole c b cur_len text t.source bound before (ground (arith, other)))
              reads less
      ])
    ]

line_loop-IsReceived :
    (E : Type 0) (fuel : ℕ) (whole : List ℕ) (c cur_len : ℕ) (text stream : List ℕ)
    (replies : List Reply)
    → length whole < 2 ^ 62
    → ShortLine whole
    → Before whole c cur_len text stream
    → Reads E stream replies
    → length replies < fuel
    → Returns (IsReceived E whole) (line_loop fuel c cur_len text stream replies)
unfolding line_loop Got
line_loop-IsReceived E zero whole c cur_len text stream replies bound short b h enough =
    absurd (omega (arith, enough))
line_loop-IsReceived E (suc fuel) whole c cur_len text stream replies bound short b h enough =
    Returns-bind (IsReceived E whole) (get_data true 1 stream replies) _
      (get_data-Got E stream replies h)
      (λ t got. elim got [
        | inl (b', split, read, more, shorter) ↦ rw read (
            rw (lt→ltb (length text) cur_len b.fits) (
              round_byte E fuel whole c cur_len text b' t bound short
                (line_loop-IsReceived E fuel whole) more
                (subst (λ xs. Before whole c cur_len text xs) split b)
                (omega (arith, shorter, enough))))
        | inr (ended, same, none_read, result) ↦
            rw none_read (end_line-IsReceived E whole c cur_len text stream t b ended same result)
      ])

-- With a buffer of `cur_len` bytes, positive and below 2^63, a stream of less than 2^62 bytes with less than 2^31 up to its first newline, and
-- recv bringing one byte at a time until a newline comes or, where `E` holds, the stream ends or
-- breaks, get_line ends and writes to no byte outside the buffer, whose size stays below 2^63. The bytes in the buffer are the
-- first of the stream, and the others stay. The value is their number, and they end with the first
-- newline of the stream; or `E` holds, and the value is 0 or -1.
pub get_line-IsReceived :
    (E : Type 0) (c cur_len : ℕ) (stream : List ℕ) (replies : List Reply)
    → 0 < cur_len
    → cur_len < 2 ^ 63
    → length stream < 2 ^ 62
    → ShortLine stream
    → Reads E stream replies
    → Returns (IsReceived E stream) (get_line c cur_len stream replies)
unfolding get_line
get_line-IsReceived E c cur_len stream replies some_room small bound short h =
    rw (ne→== cur_len 0 (λ e. omega (arith, e, some_room))) (
      line_loop-IsReceived E (length replies + 1) stream c cur_len [] stream replies bound short
        (record { kept = refl; fits = some_room; small = small; plain = tt; last = inl refl }) h
        (omega arith))
