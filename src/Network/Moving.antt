-- ===== src/Network/Moving.antt =====
-- transfer_data of lab-5-network/net.c.
use snu_2021_fall_sys_prog.Common.{
  ℕ, zero, suc, ◌+◌, ◌-◌, ◌%◌, ◌^◌, ◌≤◌, ◌<◌, ◌≡◌, ◌⊎◌, ◌∙◌, refl, inl, inr, sym, ap, subst, true,
  List, [], ◌∷◌, ◌++◌, arith, ◌==◌, take, length, length-append, append_assoc, Bool-cases, eq→==,
  lt→ltb,
}
use snu_2021_fall_sys_prog.Common.Run.{Returns}
use snu_2021_fall_sys_prog.Network.{
  Reply, moved, interrupted, broken, count, failure, Transfer, drop, transfer_loop, transfer_data,
  get_data, put_data,
}

-- The replies of recv or send to a caller that wants `len` bytes more, with `left` bytes at the source: none
-- moves more than asked for or left, and they last until the transfer ends.
abbrev pub Answers : (len left : ℕ) → List Reply → Type 0
Answers len left [] = len ≡ 0
Answers len left (moved r ∷ replies) =
    (len ≡ 0) ⊎ (r ≡ 0) ⊎ ((r ≤ len) × (r ≤ left) × Answers (len - r) (left - r) replies)
Answers len left (interrupted ∷ replies) = Answers len left replies
Answers len left (broken ∷ replies) = Unit

-- What a transfer of `len` bytes of `source` leaves: no byte is lost or reordered, and a number that is returned is
-- the number of the bytes moved, at most `len`.
pub record IsPrefix (len : ℕ) (source : List ℕ) (t : Transfer) : Type 0 where
  pub kept : t.done ++ t.source ≡ source
  pub counted : (t.result ≡ count (length t.done)) ⊎ (t.result ≡ failure)
  pub bounded : length t.done ≤ len

pub take-drop : (n : ℕ) (xs : List ℕ) → take n xs ++ drop n xs ≡ xs
unfolding drop
take-drop zero xs = refl
take-drop (suc n) [] = refl
take-drop (suc n) (x ∷ xs) = ap (λ ys. x ∷ ys) (take-drop n xs)

pub length-take : (n : ℕ) (xs : List ℕ) → n ≤ length xs → length (take n xs) ≡ n
length-take zero xs h = refl
length-take (suc n) [] h = absurd (omega (arith, h))
length-take (suc n) (x ∷ xs) h = omega (arith, length-take n xs (omega (arith, h)))

pub length-drop : (n : ℕ) (xs : List ℕ) → length (drop n xs) ≡ length xs - n
unfolding drop
length-drop zero xs = omega arith
length-drop (suc n) [] = omega arith
length-drop (suc n) (x ∷ xs) = omega (arith, length-drop n xs)

moved_length :
    (done source : List ℕ) (r : ℕ)
    → r ≤ length source
    → length (done ++ take r source) ≡ length done + r
moved_length done source r h =
    omega (arith, length-append done (take r source), length-take r source h)

pub less_wraps : (len r : ℕ) → r ≤ len → len < 2 ^ 64 → (len + 2 ^ 64 - r) % 2 ^ 64 ≡ len - r
less_wraps len r h small = omega (arith, h, small)

-- The loop stops and returns the bytes moved so far.
stop-IsPrefix :
    (total len : ℕ) (whole done source : List ℕ) (replies : List Reply)
    → done ++ source ≡ whole
    → length done + len ≡ total
    → IsPrefix total whole
        (record { result = count (length done); done = done; source = source; replies = replies })
stop-IsPrefix total len whole done source replies kept fits = record {
  kept = kept;
  counted = inl refl;
  bounded = omega (arith, fits);
}

transfer_loop-IsPrefix :
    (total len : ℕ) (whole done source : List ℕ) (replies : List Reply)
    → total < 2 ^ 31
    → done ++ source ≡ whole
    → length done + len ≡ total
    → Answers len (length source) replies
    → Returns (IsPrefix total whole) (transfer_loop len (length done) done source replies)
unfolding transfer_loop
transfer_loop-IsPrefix total len whole done source [] small kept fits answers =
    rw (eq→== len 0 answers) (stop-IsPrefix total len whole done source [] kept fits)
transfer_loop-IsPrefix total len whole done source (interrupted ∷ replies) small kept fits answers =
    elim (Bool-cases (len == 0)) [
      | inl full ↦
          rw full (stop-IsPrefix total len whole done source (interrupted ∷ replies) kept fits)
      | inr more ↦
          rw more
            (transfer_loop-IsPrefix total len whole done source replies small kept fits answers)
    ]
transfer_loop-IsPrefix total len whole done source (broken ∷ replies) small kept fits answers =
    elim (Bool-cases (len == 0)) [
      | inl full ↦ rw full (stop-IsPrefix total len whole done source (broken ∷ replies) kept fits)
      | inr more ↦
          rw more (record { kept = kept; counted = inr refl; bounded = omega (arith, fits) })
    ]
transfer_loop-IsPrefix total len whole done source (moved r ∷ replies) small kept fits answers =
    elim (Bool-cases (len == 0)) [
      | inl full ↦ rw full (stop-IsPrefix total len whole done source (moved r ∷ replies) kept fits)
      | inr more ↦ rw more (elim (Bool-cases (r == 0)) [
        | inl closed ↦ rw closed (stop-IsPrefix total len whole done source replies kept fits)
        | inr some_moved ↦ rw some_moved (elim answers [
          | inl none_wanted ↦ absurd (ground (arith, more, none_wanted))
          | inr (inl none_moved) ↦ absurd (ground (arith, some_moved, none_moved))
          | inr (inr (wanted, there, rest)) ↦
              rw (lt→ltb (length done + r) (2 ^ 31) (omega (arith, wanted, fits, small))) (
                subst
                  (λ n. Returns (IsPrefix total whole) (
                    transfer_loop n (length done + r) (done ++ take r source) (drop r source)
                      replies))
                  (sym (less_wraps len r wanted (omega (arith, small, fits))))
                  (subst
                    (λ k.
                      Returns (IsPrefix total whole)
                        (transfer_loop (len - r) k (done ++ take r source) (drop r source) replies))
                    (moved_length done source r there)
                    (transfer_loop-IsPrefix total (len - r) whole (done ++ take r source)
                      (drop r source) replies small
                      (append_assoc done (take r source) (drop r source)
                        ∙ ap (λ xs. done ++ xs) (take-drop r source)
                        ∙ kept)
                      (omega (arith, moved_length done source r there, fits, wanted))
                      (subst (λ n. Answers (len - r) n replies) (sym (length-drop r source))
                        rest))))
        ])
      ])
    ]

-- For less than 2^31 bytes, a buffer and replies that last and never move more than asked for or left, get_data and put_data end.
-- The bytes moved are the first bytes of the source in their order and the others stay,
-- at most `len` are moved, and the result is their number, or -1 after an error.
pub transfer-IsPrefix :
    (len : ℕ) (source : List ℕ) (replies : List Reply)
    → len < 2 ^ 31
    → Answers len (length source) replies
    → Returns (IsPrefix len source) (get_data true len source replies)
      × Returns (IsPrefix len source) (put_data true len source replies)
unfolding get_data put_data transfer_data
transfer-IsPrefix len source replies small answers =
    let run =
      transfer_loop-IsPrefix len len source [] source replies small refl (omega arith) answers in
    (run, run)
