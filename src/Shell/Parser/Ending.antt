-- ===== src/Shell/Parser/Ending.antt =====
-- The loop of parseline of lab-4-shell/csapsh.c.
use snu_2021_fall_sys_prog.Common.{
  newline, ℕ, zero, suc, ◌+◌, ◌≤◌, ◌<◌, ◌≡◌, ◌⊎◌, refl, inl, inr, true, false, [], ◌∷◌, ◌||◌, arith,
  ◌==◌, length, Bool-cases, ==→eq,
}
use snu_2021_fall_sys_prog.Common.Run.{ok, Returns, Returns-bind, Returns-mono}
use snu_2021_fall_sys_prog.Shell.Parser.{
  Text, skip_whitespace, Parser, failed, Round, stop, continue, round, at_newline, parse_loop,
  parseline, start,
}
use snu_2021_fall_sys_prog.Shell.Parser.Commands.{
  IsLine, IsSound, IsSound-mono, Progress, Usable, skip_whitespace-IsLine, finish-Usable,
}
use snu_2021_fall_sys_prog.Shell.Parser.Rounds.{skip_whitespace-head, round-Progress}

-- What the loop makes of a text: an error, the newline, or a shorter text.
Nearer : (size : ℕ) → Text → Round → Type 0
Nearer size t (stop at code) = Unit
Nearer size t (continue rest p) =
    IsSound size (length rest) p
    × IsLine rest
    × ((at_newline rest ≡ true) ⊎ (length rest < length t))

Progress-Nearer :
    (size : ℕ) (t s : Text) (r : Round) → length s ≤ length t → Progress size s r → Nearer size t r
unfolding Nearer
Progress-Nearer size t s (stop at code) h progress = tt
Progress-Nearer size t s (continue rest p) h (sound, line, shorter) =
    (sound, line, inr (omega arith))

-- At the newline, the round changes nothing.
round_end :
    {size : ℕ} (t : Text) (cs : Text) (p : Parser)
    → IsSound size (length (newline ∷ cs)) p
    → Returns (Nearer size t) (round (newline ∷ cs) p)
unfolding round Nearer at_newline
round_end t cs p sound = elim (Bool-cases (p.mode == 0 || p.mode == 2)) [
  | inl early ↦ rw early tt
  | inr late ↦ rw late (sound, inl refl, inl refl)
]

round-Nearer :
    (size : ℕ) (t s : Text) (p : Parser)
    → skip_whitespace t ≡ s
    → IsSound size (length s) p
    → IsLine s
    → length s ≤ length t
    → Returns (Nearer size t) (round s p)
round-Nearer size t [] p run sound line h = absurd line
round-Nearer size t (c ∷ cs) p run sound line h = elim (Bool-cases (c == newline)) [
  | inl e ↦ rw (==→eq c newline e) (round_end t cs p sound)
  | inr other ↦
      Returns-mono (Progress size (c ∷ cs)) (Nearer size t) (round (c ∷ cs) p)
        (round-Progress c cs p sound line (skip_whitespace-head t c cs run) (ground arith))
        (λ r progress. Progress-Nearer size t (c ∷ cs) r h progress)
]

IsLine-nonempty : (t : Text) → IsLine t → 1 ≤ length t
IsLine-nonempty [] h = absurd h
IsLine-nonempty (c ∷ cs) h = omega arith

shorten :
    (t : Text) (n : ℕ)
    → at_newline t ≡ false
    → (at_newline t ≡ true) ⊎ (length t < suc n)
    → length t ≤ n
shorten t n more (inl end) = absurd (ground (arith, more, end))
shorten t n more (inr less) = omega (arith, less)

-- The rest of the loop behind a round, if the loop does its work on `fuel`.
continue-Usable :
    (size fuel : ℕ) (t : Text)
    → ((rest : Text) (p : Parser)
        → IsSound size (length rest) p
        → IsLine rest
        → 1 ≤ fuel
        → (at_newline rest ≡ true) ⊎ (length rest < fuel)
        → Returns (Usable size) (parse_loop fuel rest p))
    → 1 ≤ length t
    → length t ≤ fuel
    → (r : Round) → Nearer size t r
    → Returns
        (Usable size)
        (elim r [ stop at code ↦ ok (failed at code) | continue rest p ↦ parse_loop fuel rest p ])
unfolding Nearer
continue-Usable size fuel t loop some_text enough (stop at code) nearer = tt
continue-Usable size fuel t loop some_text enough (continue rest p) (sound, line, inl end) =
    loop rest p sound line (omega (arith, some_text, enough)) (inl end)
continue-Usable size fuel t loop some_text enough (continue rest p) (sound, line, inr less) =
    loop rest p sound line (omega (arith, some_text, enough)) (inr (omega (arith, less, enough)))

parse_loop-Usable :
    (size fuel : ℕ) (t : Text) (p : Parser)
    → IsSound size (length t) p
    → IsLine t
    → 1 ≤ fuel
    → (at_newline t ≡ true) ⊎ (length t < fuel)
    → Returns (Usable size) (parse_loop fuel t p)
unfolding parse_loop
parse_loop-Usable size zero t p sound line some_fuel enough = absurd (omega (arith, some_fuel))
parse_loop-Usable size (suc fuel) t p sound line some_fuel enough =
    elim (Bool-cases (at_newline t)) [
      | inl end ↦ rw end (finish-Usable t p (IsLine-nonempty t line) sound)
      | inr more ↦
          let skipped = skip_whitespace-IsLine t line in
          let some_text = IsLine-nonempty t line in
          rw more (
            Returns-bind (Usable size) (round (skip_whitespace t) p)
              (λ r. elim r [
                | stop at code ↦ ok (failed at code)
                | continue rest' p' ↦ parse_loop fuel rest' p'
              ])
              (round-Nearer size t (skip_whitespace t) p refl (IsSound-mono p skipped.1 sound)
                skipped.0 skipped.1)
              (continue-Usable size fuel t (parse_loop-Usable size fuel) some_text
                (shorten t fuel more enough)))
    ]

-- On a line of characters other than the null byte with a newline, parseline returns within the rounds that
-- the length of the line bounds: it reads no character behind the null byte and the loop ends. It
-- reports an error, or each of its commands has at least one argument, its name, and the line has
-- at least twice as many characters as commands.
pub parseline-Usable : (line : Text) → IsLine line → Returns (Usable (length line)) (parseline line)
unfolding parseline
parseline-Usable line h =
    parse_loop-Usable (length line) (length line + 1) line start
      (record { done = tt; begun = λ h. absurd (h refl); room = omega arith }) h (omega arith)
      (inr (omega arith))
