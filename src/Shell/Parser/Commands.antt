-- ===== src/Shell/Parser/Commands.antt =====
-- parseline of lab-4-shell/csapsh.c ends on every line with a newline, and its commands are usable.
use snu_2021_fall_sys_prog.Common.{
  newline, ℕ, ◌+◌, ◌*◌, ◌≤◌, ◌<◌, ◌≡◌, ◌≢◌, ◌⊎◌, inl, inr, false, Option, List, [], ◌∷◌, ◌++◌, ◌||◌,
  ◌&&◌, arith, ltb, ◌==◌, length, All, Bool-cases, refl, length-append,
}
use snu_2021_fall_sys_prog.Shell.Jobs.{JobState}
use snu_2021_fall_sys_prog.Shell.Parser.{
  Text, skip_whitespace, Parser, Outcome, failed, parsed, Round, stop, continue, commands, given,
  store_argument, finish,
}

-- A newline stands in the text, with no null byte before it.
abbrev pub IsLine : Text → Type 0
IsLine [] = ⊥
IsLine (c ∷ cs) = (c ≡ newline) ⊎ (c ≢ 0) × IsLine cs

-- Skipping whitespace keeps the newline.
pub skip_whitespace-IsLine :
    (t : Text) → IsLine t → IsLine (skip_whitespace t) × (length (skip_whitespace t) ≤ length t)
unfolding skip_whitespace
skip_whitespace-IsLine [] h = absurd h
skip_whitespace-IsLine (c ∷ cs) h = elim (Bool-cases (c == b' ' || c == 9)) [
  | inl white ↦ rw white (elim h [
    | inl e ↦ absurd (ground arith)
    | inr h' ↦ let r = skip_whitespace-IsLine cs h'.1 in (r.0, omega (arith, r.1))
  ])
  | inr other ↦ rw other (h, omega arith)
]

abbrev pub NonEmpty : List Text → Type 0
NonEmpty [] = ⊥
NonEmpty (a ∷ others) = Unit

abbrev begun_one : List Text → ℕ
begun_one [] = 0
begun_one (a ∷ others) = 1

-- The least number of characters that give these commands: an argument and a pipe symbol for each
-- finished command, and an argument for the current one.
abbrev pub weight : Parser → ℕ
weight p = 2 * length p.finished + begun_one p.arguments

-- Between rounds, with `left` of the `size` characters of the line to be read: finished commands
-- have arguments, the current one has some unless a command is expected, and the characters that
-- were read are enough for the commands.
pub record IsSound (size left : ℕ) (p : Parser) : Type 0 where
  pub done : All NonEmpty p.finished
  pub begun : p.mode ≢ 0 → NonEmpty p.arguments
  pub room : weight p + left ≤ size

pub IsSound-mono :
    {size left left' : ℕ} (p : Parser) → left' ≤ left → IsSound size left p → IsSound size left' p
IsSound-mono p h sound = record {
  done = sound.done;
  begun = sound.begun;
  room = let r = sound.room in omega (arith, r, h);
}

-- What a round leaves: an error, or a shorter text with a newline.
abbrev pub Progress : (size : ℕ) → Text → Round → Type 0
Progress size t (stop at code) = Unit
Progress size t (continue rest p) =
    IsSound size (length rest) p × IsLine rest × (length rest < length t)

-- Every command of the result has a name (`argv[i][0]` is no NULL), and a line of `size` characters
-- has half as many commands at most.
abbrev pub Usable : (size : ℕ) → Outcome → Type 0
Usable size (failed rest code) = Unit
Usable size (parsed cmds out state) = All NonEmpty cmds × (2 * length cmds ≤ size)

append-NonEmpty : (xs : List Text) (x : Text) → NonEmpty (xs ++ x ∷ [])
append-NonEmpty [] x = tt
append-NonEmpty (y ∷ ys) x = tt

pub append-All :
    (xss : List (List Text)) (xs : List Text)
    → All NonEmpty xss
    → NonEmpty xs
    → All NonEmpty (xss ++ xs ∷ [])
append-All [] xs h k = (k, tt)
append-All (ys ∷ yss) xs h k = (h.0, append-All yss xs h.1 k)

begun_one-append : (xs : List Text) (x : Text) → begun_one (xs ++ x ∷ []) ≡ 1
begun_one-append [] x = refl
begun_one-append (y ∷ ys) x = refl

pub store_argument-IsSound :
    {size left left' : ℕ} (text : Text) (p : Parser)
    → left' < left
    → IsSound size left p
    → IsSound size left' (store_argument text p)
unfolding store_argument
store_argument-IsSound text p less sound = elim (Bool-cases (ltb p.mode 2)) [
  | inl argument ↦ rw argument (record {
    done = sound.done;
    begun = λ h. append-NonEmpty p.arguments text;
    room =
        let r = sound.room in
        let one = begun_one-append p.arguments text in omega (arith, r, one, less);
  })
  | inr filename ↦ rw filename (record {
    done = sound.done;
    begun = λ h. sound.begun (ground arith);
    room = let r = sound.room in omega (arith, r, less);
  })
]

commands-NonEmpty :
    (finished : List (List Text)) (arguments : List Text)
    → All NonEmpty finished
    → NonEmpty arguments
    → (mode : ℕ) (state : JobState) (out : Option Text)
    → All NonEmpty (
        commands (record {
          mode = mode;
          bgnd = state;
          outfile = out;
          finished = finished;
          arguments = arguments;
        }))
unfolding commands
commands-NonEmpty finished [] done begun mode state out = absurd begun
commands-NonEmpty finished (a ∷ others) done begun mode state out =
    append-All finished (a ∷ others) done tt

length-commands :
    (finished : List (List Text)) (arguments : List Text) (mode : ℕ) (state : JobState)
    (out : Option Text)
    → length (
        commands (record {
          mode = mode;
          bgnd = state;
          outfile = out;
          finished = finished;
          arguments = arguments;
        }))
      ≤ length finished + 1
unfolding commands
length-commands [] [] mode state out = omega arith
length-commands (c ∷ cs) [] mode state out =
    let r = length-append (c ∷ cs) ([] ∷ []) in omega (arith, r)
length-commands finished (a ∷ others) mode state out =
    let r = length-append finished ((a ∷ others) ∷ []) in omega (arith, r)

given-Usable :
    {size : ℕ} (cmds : List (List Text)) (out : Option Text) (state : JobState)
    → given cmds ≡ false
    → Usable size (parsed cmds out state)
unfolding given
given-Usable [] out state h = (tt, omega arith)
given-Usable (c ∷ cs) out state h = cc

pub begun_one-NonEmpty : (xs : List Text) → NonEmpty xs → begun_one xs ≡ 1
begun_one-NonEmpty [] h = absurd h
begun_one-NonEmpty (x ∷ xs) h = refl

pub finish-Usable :
    {size : ℕ} (rest : Text) (p : Parser)
    → 1 ≤ length rest
    → IsSound size (length rest) p
    → Usable size (finish rest p)
unfolding finish
finish-Usable rest p some_text sound =
    elim (Bool-cases (given (commands p) && (p.mode == 0 || p.mode == 2))) [
      | inl early ↦ rw early tt
      | inr late ↦ rw late (elim (Bool-cases (p.mode == 0)) [
        | inl first ↦ given-Usable (commands p) p.outfile p.bgnd (grind arith)
        | inr begun ↦
            let named = sound.begun (ground arith) in
            let one = begun_one-NonEmpty p.arguments named in
            let count = length-commands p.finished p.arguments p.mode p.bgnd p.outfile in
            let r = sound.room in
            (
              commands-NonEmpty p.finished p.arguments sound.done named p.mode p.bgnd p.outfile,
              omega (arith, one, count, r, some_text),
            )
      ])
    ]
