-- ===== src/Network.antt =====
-- lab-5-network/net.c: the transfer of data and lines. recv and send answer with the `Reply`s of a
-- list; a call beyond the list blocks, which is `out_of_fuel`. recv moves bytes from the incoming
-- stream to the buffer, send from the buffer to the outgoing stream: either way `source` holds the
-- bytes still to be moved, and `done` those that have been moved. A sum that does not fit an int is
-- a `fault`, since the C standard gives it no value.
pub mod Moving
pub mod Line
mod Tests
use snu_2021_fall_sys_prog.Common.{
  ℕ, zero, suc, ◌+◌, ◌-◌, ◌%◌, ◌^◌, ◌||◌, ◌&&◌, not, Bool, true, false, Option, none, some, List,
  [], ◌∷◌, ◌++◌, ltb, leb, ◌==◌, if◌then◌else◌, take, length,
}
use snu_2021_fall_sys_prog.Common.Run.{Run, ok, fault, panic, out_of_fuel, ◌>>=◌}

-- r >= 0 of recv or send, a signal (EINTR), and any other error.
pub data Reply : Type 0 where
  moved : ℕ → Reply
  interrupted : Reply
  broken : Reply

-- The value returned: a number of bytes, -1, or -2.
pub data Result : Type 0 where
  count : ℕ → Result
  failure : Result
  invalid : Result

pub record Transfer : Type 0 where
  pub result : Result
  pub done : List ℕ
  pub source : List ℕ
  pub replies : List Reply

unfoldable pub drop : ℕ → List ℕ → List ℕ
drop zero xs = xs
drop (suc n) [] = []
drop (suc n) (x ∷ xs) = drop n xs

unfoldable pub transfer_loop : (len res : ℕ) (done source : List ℕ) → List Reply → Run Transfer
transfer_loop len res done source [] =
    if len == 0
    then ok (record { result = count res; done = done; source = source; replies = [] })
    else out_of_fuel
transfer_loop len res done source (reply ∷ replies) =
    if len == 0
    then ok (record { result = count res; done = done; source = source; replies = reply ∷ replies })
    else elim reply [
      | moved r ↦
          if r == 0
          then ok (record { result = count res; done = done; source = source; replies = replies })
          else let rest =
              transfer_loop ((len + 2 ^ 64 - r) % 2 ^ 64) (res + r) (done ++ take r source)
                (drop r source) replies in
            if ltb (res + r) (2 ^ 31) then rest else fault
      | interrupted ↦ transfer_loop len res done source replies
      | broken ↦ ok (record { result = failure; done = done; source = source; replies = replies })
    ]

-- transfer_data with a mode that is NET_RECV or NET_SEND; `buf` tells whether the buffer is not NULL.
unfoldable pub transfer_data : (buf : Bool) (len : ℕ) (source : List ℕ) → List Reply → Run Transfer
transfer_data buf len source replies =
    if buf
    then transfer_loop len 0 [] source replies
    else ok (record { result = invalid; done = []; source = source; replies = replies })

-- get_data from the incoming stream, and put_data from the buffer.
unfoldable pub get_data : (buf : Bool) (len : ℕ) (stream : List ℕ) → List Reply → Run Transfer
get_data buf len stream replies = transfer_data buf len stream replies

unfoldable pub put_data : (buf : Bool) (len : ℕ) (data' : List ℕ) → List Reply → Run Transfer
put_data buf len data' replies = transfer_data buf len data' replies
