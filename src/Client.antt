-- ===== src/Client.antt =====
-- lab-5-network/client.c: thread_task. The results of socket and connect for each address, what
-- getsocklist returns, the bytes that arrive before each get_line, the results of recv and send, and
-- the choice of rand are arguments. Memory suffices.
pub mod Conversation
mod Tests
use snu_2021_fall_sys_prog.Common.{
  newline, ℕ, ◌+◌, ◌-◌, Bool, true, false, Option, none, some, List, [], ◌∷◌, ◌++◌, ◌==◌,
  if◌then◌else◌, length, replicate,
}
use snu_2021_fall_sys_prog.Common.Run.{Run, ok, ◌>>=◌}
use snu_2021_fall_sys_prog.Network.{Reply, Result, count, failure, invalid}
use snu_2021_fall_sys_prog.Network.Line.{get_line, put_line}
use snu_2021_fall_sys_prog.Server.Orders.{Burger}
use snu_2021_fall_sys_prog.Server.Threads.{burger_names}

-- socket fails, connect fails, or neither.
pub data Attempt : Type 0 where
  no_socket : Attempt
  refused : (fd : ℕ) → Attempt
  connects : (fd : ℕ) → Attempt

-- The loop over the addresses: serverfd, `none` for -1, and whether it is connected. Without a
-- success serverfd is what the last attempt left, which has been closed.
unfoldable pub connect_loop : (serverfd : Option ℕ) → List Attempt → Option ℕ × Bool
connect_loop serverfd [] = (serverfd, false)
connect_loop serverfd (no_socket ∷ addresses) = connect_loop none addresses
connect_loop serverfd (refused fd ∷ addresses) = connect_loop (some fd) addresses
connect_loop serverfd (connects fd ∷ addresses) = (some fd, true)

-- BUF_SIZE
abbrev pub buf_size : ℕ
buf_size = 1024

-- read <= 0, where `read` is a size_t: a negative value is a large number.
unfoldable pub no_data : Result → Bool
no_data (count n) = n == 0
no_data failure = false
no_data invalid = false

-- The buffer behind memset, strncpy and the newline.
abbrev pub order_buffer : Burger → List ℕ
order_buffer b =
    (burger_names b ++ newline ∷ []) ++ replicate (buf_size - length (burger_names b) - 1) 0

-- The lines that are shown as from the server, and the bytes that are sent.
pub record Talk : Type 0 where
  pub shown : List (List ℕ)
  pub sent : List ℕ

-- What arrives for a get_line: bytes behind those left over, and the results of recv. `initial` is
-- the local variable of get_line, which is not initialised.
pub record Arrival : Type 0 where
  pub initial : ℕ
  pub bytes : List ℕ
  pub replies : List Reply

-- The conversation on a socket; `sent < 0` never holds for a size_t.
unfoldable pub converse : Burger → (first second : Arrival) → (sending : List Reply) → Run Talk
converse choice first second sending = do
  welcome ← get_line first.initial buf_size first.bytes first.replies
  elim (no_data welcome.result) [
    | true ↦ ok (record { shown = []; sent = [] })
    | false ↦ do
      s ← put_line (length (burger_names choice) + 1) (order_buffer choice) sending
      final ←
          get_line second.initial welcome.cur_len (welcome.stream ++ second.bytes) second.replies
      ok (record {
        shown = welcome.text ∷ (if no_data final.result then [] else final.text ∷ []);
        sent = s.sent;
      })
  ]

-- serverfd when it is closed at `err`, and the conversation. `res` is what getsocklist returns.
unfoldable pub thread_task :
    (res : ℕ)
    → List Attempt
    → Burger
    → (first second : Arrival) → (sending : List Reply) → Run (Option ℕ × Talk)
thread_task res addresses choice first second sending =
    if res == 0
    then (do
      talk ← converse choice first second sending
      ok ((connect_loop none addresses).0, talk))
    else ok (none, record { shown = []; sent = [] })
