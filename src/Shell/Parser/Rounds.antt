-- ===== src/Shell/Parser/Rounds.antt =====
-- The rounds of parseline of lab-4-shell/csapsh.c progress on every line with a newline.
use snu_2021_fall_sys_prog.Common.{
  newline, ℕ, ◌+◌, ◌≤◌, ◌≡◌, ◌≢◌, inl, inr, false, [], ◌∷◌, ◌||◌, arith, leb, ◌==◌, if◌then◌else◌,
  length, Bool-cases, ne→==, sym, refl, length-append,
}
use snu_2021_fall_sys_prog.Common.Run.{ok, Returns, Returns-bind}
use snu_2021_fall_sys_prog.Shell.Parser.{
  Text, no_quote, isdelim, skip_whitespace, scan_argument, Parser, close_quote, open_quote,
  read_argument, round,
}
use snu_2021_fall_sys_prog.Shell.Parser.Commands.{
  IsLine, IsSound, Progress, append-All, store_argument-IsSound, begun_one-NonEmpty,
}

-- A scan ends at the newline at the latest, with no fault.
abbrev Scanned : Text → Text × Text → Type 0
Scanned t (text, rest) = IsLine rest × (length text + length rest ≡ length t)

scan_argument-Scanned :
    (extra : ℕ) (t : Text) → IsLine t → Returns (Scanned t) (scan_argument extra t)
unfolding scan_argument
scan_argument-Scanned extra [] h = absurd h
scan_argument-Scanned extra (c ∷ cs) h = elim (Bool-cases (c == newline || isdelim c extra)) [
  | inl ends ↦ rw ends (h, omega arith)
  | inr more ↦ rw more (elim h [
    | inl e ↦ absurd (ground arith)
    | inr h' ↦
        Returns-bind (Scanned (c ∷ cs)) (scan_argument extra cs) (λ r. ok (c ∷ r.0, r.1))
          (scan_argument-Scanned extra cs h'.1) (λ r s. (s.0, omega (arith, s.1)))
  ])
]

-- Behind the text of an argument, the next round starts past it.
close_quote-Progress :
    {size : ℕ} (extra : ℕ) (s begin text rest : Text) (p : Parser)
    → IsSound size (length s) p
    → IsLine rest
    → extra ≢ newline
    → length rest + (if extra == no_quote then 1 else 0) ≤ length s
    → Progress size s (close_quote extra begin text rest p)
unfolding close_quote
close_quote-Progress extra s begin text [] p sound h quote shorter = absurd h
close_quote-Progress extra s begin text (c ∷ cs) p sound h quote shorter =
    elim (Bool-cases (extra == no_quote)) [
      | inl none_open ↦
          rw none_open (store_argument-IsSound text p (ground arith) sound, h, ground arith)
      | inr opened ↦ rw opened (elim (Bool-cases (c == extra)) [
        | inl closes ↦ rw closes (elim h [
          | inl e ↦ absurd (ground arith)
          | inr h' ↦ (store_argument-IsSound text p (ground arith) sound, h'.1, ground arith)
        ])
        | inr other ↦ rw other tt
      ])
    ]

isdelim-inside :
    (c : ℕ)
    → c ≢ newline
    → isdelim c no_quote ≡ false
    → (c == newline || isdelim c no_quote) ≡ false
isdelim-inside c no_newline inside = ground (arith, inside)

scan_argument-Advances :
    (c : ℕ) (cs : Text)
    → IsLine (c ∷ cs)
    → c ≢ newline
    → isdelim c no_quote ≡ false
    → Returns
        (λ r. IsLine r.1 × (length r.1 + 1 ≤ length (c ∷ cs)))
        (scan_argument no_quote (c ∷ cs))
unfolding scan_argument
scan_argument-Advances c cs h no_newline inside = elim h [
  | inl e ↦ absurd (no_newline e)
  | inr h' ↦ rw (isdelim-inside c no_newline inside) (
      Returns-bind (λ r. IsLine r.1 × (length r.1 + 1 ≤ length (c ∷ cs)))
        (scan_argument no_quote cs) (λ r. ok (c ∷ r.0, r.1))
        (scan_argument-Scanned no_quote cs h'.1)
        (λ r scanned. (scanned.0, omega (arith, scanned.1))))
]

read_argument-Progress :
    {size : ℕ} (c : ℕ) (cs : Text) (p : Parser)
    → IsSound size (length (c ∷ cs)) p
    → IsLine (c ∷ cs)
    → c ≢ newline
    → isdelim c no_quote ≡ false
    → Returns (Progress size (c ∷ cs)) (read_argument (c ∷ cs) p)
unfolding read_argument open_quote
read_argument-Progress {size = size} c cs p sound h no_newline inside =
    elim (Bool-cases (leb 3 p.mode)) [
      | inl over ↦ rw over tt
      | inr more ↦ rw more (elim (Bool-cases (c == b'\'' || c == b'"')) [
        | inl quoted ↦ rw quoted (elim h [
          | inl e ↦ absurd (no_newline e)
          | inr h' ↦
              Returns-bind (Progress size (c ∷ cs)) (scan_argument c cs)
                (λ r. ok (close_quote c cs r.0 r.1 p)) (scan_argument-Scanned c cs h'.1)
                (λ r scanned.
                  close_quote-Progress c (c ∷ cs) cs r.0 r.1 p sound scanned.0 no_newline
                    (let len = scanned.1 in ground arith))
        ])
        | inr bare ↦ rw bare (
            Returns-bind (Progress size (c ∷ cs)) (scan_argument no_quote (c ∷ cs))
              (λ r. ok (close_quote no_quote (c ∷ cs) r.0 r.1 p))
              (scan_argument-Advances c cs h no_newline inside)
              (λ r scanned.
                close_quote-Progress no_quote (c ∷ cs) (c ∷ cs) r.0 r.1 p sound scanned.0
                  (omega arith) scanned.1))
      ])
    ]

cons_head : (d c : ℕ) (ds cs : Text) → d ∷ ds ≡ c ∷ cs → d ≡ c
cons_head d c ds cs e = cc

pub skip_whitespace-head :
    (t : Text) (c : ℕ) (cs : Text) → skip_whitespace t ≡ c ∷ cs → (c == b' ' || c == 9) ≡ false
unfolding skip_whitespace
skip_whitespace-head [] c cs run = cc
skip_whitespace-head (d ∷ ds) c cs run = elim (Bool-cases (d == b' ' || d == 9)) [
  | inl white ↦ skip_whitespace-head ds c cs (cc (white, run))
  | inr other ↦ rw (sym (cons_head d c ds cs (cc (other, run)))) other
]

isdelim-dark :
    (c : ℕ)
    → (c == b' ' || c == 9) ≡ false
    → (c == b'|') ≡ false
    → (c == b'>') ≡ false
    → c ≢ 0
    → isdelim c no_quote ≡ false
unfolding isdelim
isdelim-dark c dark pipe redirect char = ground arith

IsLine-tail : (c : ℕ) (cs : Text) → IsLine (c ∷ cs) → c ≢ newline → (c ≢ 0) × IsLine cs
IsLine-tail c cs (inl e) h = absurd (h e)
IsLine-tail c cs (inr r) h = r

-- At any character but whitespace and the newline, a round progresses.
pub round-Progress :
    {size : ℕ} (c : ℕ) (cs : Text) (p : Parser)
    → IsSound size (length (c ∷ cs)) p
    → IsLine (c ∷ cs)
    → (c == b' ' || c == 9) ≡ false
    → c ≢ newline
    → Returns (Progress size (c ∷ cs)) (round (c ∷ cs) p)
unfolding round
round-Progress c cs p sound h dark no_newline =
    let tail = IsLine-tail c cs h no_newline in
    elim (Bool-cases (c == b'|')) [
      | inl pipe ↦ rw pipe (elim (Bool-cases (p.mode == 1)) [
        | inl named ↦ rw named (
          record {
            done = append-All p.finished p.arguments sound.done (sound.begun (ground arith));
            begun = λ h. absurd (h refl);
            room =
                let one = begun_one-NonEmpty p.arguments (sound.begun (ground arith)) in
                let r = sound.room in
                let more = length-append p.finished (p.arguments ∷ []) in
                omega (arith, one, r, more);
          },
          tail.1,
          omega arith,
        )
        | inr wrong ↦ rw wrong tt
      ])
      | inr no_pipe ↦ rw no_pipe (elim (Bool-cases (c == b'>')) [
        | inl redirect ↦ rw redirect (elim (Bool-cases (p.mode == 1)) [
          | inl named ↦ rw named (
            record {
              done = sound.done;
              begun = λ h. sound.begun (ground arith);
              room = let r = sound.room in omega (arith, r);
            },
            tail.1,
            omega arith,
          )
          | inr wrong ↦ rw wrong tt
        ])
        | inr no_redirect ↦ rw no_redirect (elim (Bool-cases (c == b'&')) [
          | inl ampersand ↦ rw ampersand (elim (Bool-cases (p.mode == 1 || p.mode == 3)) [
            | inl named ↦ rw named (
              record {
                done = sound.done;
                begun = λ h. sound.begun (ground arith);
                room = let r = sound.room in omega (arith, r);
              },
              tail.1,
              omega arith,
            )
            | inr wrong ↦ rw wrong tt
          ])
          | inr argument ↦ rw argument (
              rw (ne→== c newline no_newline) (
                read_argument-Progress c cs p sound h no_newline
                  (isdelim-dark c dark no_pipe no_redirect tail.0)))
        ])
      ])
    ]
