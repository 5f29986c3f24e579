-- ===== src/Network/Tests.antt =====
-- The theorems on lab-5-network/net.c at short transfers, in parts and with signals between them.
use snu_2021_fall_sys_prog.Common.{
  ap, ℕ, length, length-append, ◌≡◌, ◌++◌, newline, List, [], ◌∷◌, true, refl, inl, inr, arith,
}
use snu_2021_fall_sys_prog.Common.Run.{Returns, ◌>>=◌}
use snu_2021_fall_sys_prog.Network.{Reply, count, moved, interrupted, get_data, put_data}
use snu_2021_fall_sys_prog.Network.Line.{get_line, put_line}
use snu_2021_fall_sys_prog.Network.Line.Receiving.{IsReceived, get_line-IsReceived}
use snu_2021_fall_sys_prog.Network.Line.RoundTrip.{put_line-get_line}
use snu_2021_fall_sys_prog.Network.Moving.{IsPrefix, transfer-IsPrefix}

abbrev parts : List Reply
parts = moved 2 ∷ interrupted ∷ moved 1 ∷ []

transfer-IsPrefix_example :
    Returns (IsPrefix 3 (7 ∷ 8 ∷ 9 ∷ 6 ∷ [])) (get_data true 3 (7 ∷ 8 ∷ 9 ∷ 6 ∷ []) parts)
    × Returns (IsPrefix 3 (7 ∷ 8 ∷ 9 ∷ 6 ∷ [])) (put_data true 3 (7 ∷ 8 ∷ 9 ∷ 6 ∷ []) parts)
transfer-IsPrefix_example =
    transfer-IsPrefix 3 (7 ∷ 8 ∷ 9 ∷ 6 ∷ []) parts (omega arith)
      (inr (inr (omega arith, omega arith, inr (inr (omega arith, omega arith, refl)))))

-- A buffer of two bytes that grows, and a stream that ends in the middle of a line.
get_line-IsReceived_example :
    Returns
      (IsReceived Unit (b'o' ∷ b'k' ∷ []))
      (get_line 0 2 (b'o' ∷ b'k' ∷ []) (moved 1 ∷ interrupted ∷ moved 1 ∷ moved 0 ∷ []))
get_line-IsReceived_example =
    get_line-IsReceived Unit 0 2 (b'o' ∷ b'k' ∷ []) (moved 1 ∷ interrupted ∷ moved 1 ∷ moved 0 ∷ [])
      (omega arith) (omega arith) (omega arith)
      (λ body rest e plain.
        omega (arith, ap (λ (xs : List ℕ). length xs) e, length-append body rest))
      (inr (refl, inr (inr (refl, inr (refl, tt)))))

put_line-get_line_example :
    Returns
      (λ l. (l.result ≡ count 3) × (l.text ≡ b'o' ∷ b'k' ∷ newline ∷ []) × (l.stream ≡ b'!' ∷ []))
      (put_line 8 (b'o' ∷ b'k' ∷ 0 ∷ []) (moved 1 ∷ interrupted ∷ moved 1 ∷ moved 1 ∷ []) >>= λ s.
        get_line 0 2 (s.sent ++ b'!' ∷ []) (moved 1 ∷ moved 1 ∷ interrupted ∷ moved 1 ∷ []))
put_line-get_line_example =
    put_line-get_line 8 b'o' 2 (b'k' ∷ []) [] (b'!' ∷ []) 0 (moved 1 ∷ interrupted ∷ moved 1 ∷ [])
      (moved 1 ∷ []) (moved 1 ∷ moved 1 ∷ interrupted ∷ moved 1 ∷ []) (omega arith) (omega arith)
      (omega arith) (omega arith) (omega arith) (omega arith) (omega arith) (omega arith)
      (omega arith) (inr (refl, inr (inr (refl, inr (inr (refl, inl refl))))))
