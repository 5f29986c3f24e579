-- ===== src/Network/Line.antt =====
-- lab-5-network/net.c: get_line and put_line. A buffer is the list of the bytes written to it, with
-- its size; memory suffices for the larger buffer. A value that does not fit an int is a `fault`.
pub mod Receiving
pub mod RoundTrip
use snu_2021_fall_sys_prog.Common.{
  newline, ℕ, zero, suc, ◌+◌, ◌*◌, ◌%◌, ◌^◌, ◌&&◌, not, Bool, true, false, Option, none, some, List,
  [], ◌∷◌, ◌++◌, ltb, ◌==◌, if◌then◌else◌, length,
}
use snu_2021_fall_sys_prog.Common.Run.{Run, ok, fault, out_of_fuel, ◌>>=◌}
use snu_2021_fall_sys_prog.Network.{
  Reply, Result, count, failure, invalid, Transfer, get_data, put_data,
}

-- What get_line leaves: its value, the bytes in the buffer before the null byte, and the size.
pub record Line : Type 0 where
  pub result : Result
  pub text : List ℕ
  pub cur_len : ℕ
  pub stream : List ℕ
  pub replies : List Reply

-- The byte in `c` if res == 1.
unfoldable pub one_byte : Result → List ℕ → Option ℕ
one_byte (count n) (c ∷ cs) = if n == 1 then some c else none
one_byte (count n) [] = none
one_byte failure cs = none
one_byte invalid cs = none

-- A value of type int.
unfoldable pub int_of : ℕ → Run Result
int_of n = if ltb n (2 ^ 31) then ok (count n) else fault

-- Behind the loop: the null byte is written, and the value depends on the last byte.
unfoldable pub end_line : (c cur_len : ℕ) (text : List ℕ) → Transfer → Run Line
end_line c cur_len text t =
    if ltb (length text) cur_len
    then (do
      result ← if c == newline then int_of (length text) else ok t.result
      ok (record {
        result = result;
        text = text;
        cur_len = cur_len;
        stream = t.source;
        replies = t.replies;
      }))
    else fault

-- The size of the buffer once a byte has been stored.
unfoldable pub grown : (pos cur_len : ℕ) → ℕ
grown pos cur_len = if pos == cur_len then cur_len * 2 % 2 ^ 64 else cur_len

-- The loop; `c` is the local variable, which is not initialised at first.
unfoldable pub line_loop : (fuel c cur_len : ℕ) (text stream : List ℕ) → List Reply → Run Line
line_loop zero c cur_len text stream replies = out_of_fuel
line_loop (suc fuel) c cur_len text stream replies = get_data true 1 stream replies >>= λ t.
    elim (one_byte t.result t.done) [
      | none ↦ end_line c cur_len text t
      | some b ↦
          let more =
            line_loop fuel b (grown (length text + 1) cur_len) (text ++ b ∷ []) t.source
              t.replies in
          let last = end_line b (grown (length text + 1) cur_len) (text ++ b ∷ []) t in
          if ltb (length text) cur_len then if b == newline then last else more else fault
    ]

-- Each round consumes a reply, so that their number bounds the rounds.
unfoldable pub get_line : (c cur_len : ℕ) (stream : List ℕ) → List Reply → Run Line
get_line c cur_len stream replies =
    if cur_len == 0
    then ok (record {
      result = invalid;
      text = [];
      cur_len = cur_len;
      stream = stream;
      replies = replies;
    })
    else line_loop (length replies + 1) c cur_len [] stream replies

-- The bytes of the buffer before the null byte, `len` at most.
unfoldable pub string_of : (len : ℕ) → List ℕ → Run (List ℕ)
string_of zero buf = ok []
string_of (suc len) [] = fault
string_of (suc len) (c ∷ buf) =
    let rest = string_of len buf in if c == 0 then ok [] else (rest >>= λ cs. ok (c ∷ cs))

-- buf[pos - 1], which lies before the buffer for pos == 0.
unfoldable pub last_of : List ℕ → Run ℕ
last_of [] = fault
last_of (c ∷ []) = ok c
last_of (c ∷ d ∷ cs) = last_of (d ∷ cs)

unfoldable pub positive : Result → Bool
positive (count n) = ltb 0 n
positive failure = false
positive invalid = false

-- What put_line leaves: its value, the bytes it has sent, and the replies behind those it got.
pub record Sent : Type 0 where
  pub result : Result
  pub sent : List ℕ
  pub replies : List Reply

-- res + res2, and res2 if that is negative.
unfoldable pub both : Result → Result → Run Result
both (count m) (count n) = int_of (m + n)
both (count m) failure = ok failure
both (count m) invalid = ok invalid
both failure r = ok failure
both invalid r = ok invalid

-- The newline, if some of the string has been sent and it has none at its end.
unfoldable pub put_newline : (cs : List ℕ) → Sent → Run Sent
put_newline cs s = if not (positive s.result) then ok s else (do
  last ← last_of cs
  if last == newline then ok s else (do
    t ← put_data true 1 (newline ∷ []) s.replies
    result ← both s.result t.result
    ok (record { result = result; sent = s.sent ++ t.done; replies = t.replies })))

unfoldable pub put_string : (cs : List ℕ) → List Reply → Run Sent
put_string cs replies =
    if ltb 0 (length cs)
    then (do
      t ← put_data true (length cs) cs replies
      ok (record { result = t.result; sent = t.done; replies = t.replies }))
    else ok (record { result = count 1; sent = []; replies = replies })

unfoldable pub put_line : (len : ℕ) (buf : List ℕ) → List Reply → Run Sent
put_line len buf replies =
    if len == 0
    then ok (record { result = invalid; sent = []; replies = replies })
    else (do cs ← string_of len buf; s ← put_string cs replies; put_newline cs s)
