-- ===== src/Shell/Parser/Reading.antt =====
-- lab-4-shell/csapsh.c: what the loop of parseline makes of commands, redirection and &.
use snu_2021_fall_sys_prog.Common.{
  ℕ, ◌<◌, ◌≡◌, ◌∙◌, ◌⊎◌, inl, inr, refl, subst, true, false, Bool, Option, none, some, List, [],
  ◌∷◌, ◌++◌, All, map, newline, arith, append_assoc, append-nil, lt→ltb,
}
use snu_2021_fall_sys_prog.Shell.Jobs.{foreground, background}
use snu_2021_fall_sys_prog.Shell.Parser.{Text, Parser, store_argument, commands}
use snu_2021_fall_sys_prog.Shell.Parser.Grammar.{
  Word, Command, word_text, meaning, print_words, print_piped, print_ioredir, print_background,
  arguments_of, IsWord, IsCommand, IsFilename,
}
use snu_2021_fall_sys_prog.Shell.Parser.Words.{
  Follows, Leads, Leads-word_text, Leads-trans, Leads-pipe, Leads-redirect, Leads-ampersand,
}

-- A line that has been read up to the arguments `args`.
abbrev pub reading : (mode : ℕ) (finished : List (List Text)) (args : List Text) → Parser
reading mode finished args = record {
  mode = mode;
  bgnd = foreground;
  outfile = none;
  finished = finished;
  arguments = args;
}

Follows-print_words : (ws : List Word) (r : Text) → Follows r → Follows (print_words ws r)
unfolding print_words
Follows-print_words [] r h = h
Follows-print_words (w ∷ ws) r h = inl refl

store_argument-reading :
    (text : Text) (mode : ℕ) (finished : List (List Text)) (args : List Text)
    → mode < 2
    → store_argument text (reading mode finished args) ≡ reading 1 finished (args ++ text ∷ [])
unfolding store_argument
store_argument-reading text mode finished args low = rw (lt→ltb mode 2 low) refl

Leads-print_words :
    (ws : List Word) (r : Text) (finished : List (List Text)) (args : List Text)
    → All IsWord ws
    → Follows r
    → Leads
        (print_words ws r)
        (reading 1 finished args)
        r
        (reading 1 finished (args ++ map meaning ws))
unfolding print_words
Leads-print_words [] r finished args words follows =
    λ fuel enough. (fuel, enough, rw (append-nil args) refl)
Leads-print_words (w ∷ ws) r finished args words follows =
    subst (λ a. Leads (print_words (w ∷ ws) r) (reading 1 finished args) r (reading 1 finished a))
      (append_assoc args (meaning w ∷ []) (map meaning ws))
      (Leads-trans (print_words (w ∷ ws) r) (print_words ws r) r (reading 1 finished args)
        (reading 1 finished (args ++ meaning w ∷ []))
        (reading 1 finished ((args ++ meaning w ∷ []) ++ map meaning ws))
        (subst (Leads (print_words (w ∷ ws) r) (reading 1 finished args) (print_words ws r))
          (store_argument-reading (meaning w) 1 finished args (omega arith))
          (Leads-word_text w (print_words ws r) (reading 1 finished args) words.0
            (Follows-print_words ws r follows) (omega arith)))
        (Leads-print_words ws r finished (args ++ meaning w ∷ []) words.1 follows))

-- A command, at the start of the line or behind a pipe.
pub Leads-command :
    (c : Command) (r : Text) (finished : List (List Text))
    → IsCommand c
    → Follows r
    → Leads
        (print_words (c.name ∷ c.args) r)
        (reading 0 finished [])
        r
        (reading 1 finished (arguments_of c))
unfolding print_words
Leads-command c r finished command follows =
    Leads-trans (print_words (c.name ∷ c.args) r) (print_words c.args r) r (reading 0 finished [])
      (reading 1 finished (meaning c.name ∷ [])) (reading 1 finished (arguments_of c))
      (subst
        (Leads (print_words (c.name ∷ c.args) r) (reading 0 finished []) (print_words c.args r))
        (store_argument-reading (meaning c.name) 0 finished [] (omega arith))
        (Leads-word_text c.name (print_words c.args r) (reading 0 finished []) command.0
          (Follows-print_words c.args r follows) (omega arith)))
      (Leads-print_words c.args r finished (meaning c.name ∷ []) command.1 follows)

-- The finished commands and the arguments of the last one, behind piped commands.
unfoldable pub finished_with :
    (finished : List (List Text)) (args : List Text) → List Command → List (List Text)
finished_with finished args [] = finished
finished_with finished args (c ∷ cs) = finished_with (finished ++ args ∷ []) (arguments_of c) cs

unfoldable pub last_with : List Text → List Command → List Text
last_with args [] = args
last_with args (c ∷ cs) = last_with (arguments_of c) cs

pub finished_with-last_with :
    (finished : List (List Text)) (args : List Text) (cs : List Command)
    → finished_with finished args cs ++ last_with args cs ∷ []
      ≡ finished ++ args ∷ map arguments_of cs
unfolding finished_with last_with
finished_with-last_with finished args [] = refl
finished_with-last_with finished args (c ∷ cs) =
    finished_with-last_with (finished ++ args ∷ []) (arguments_of c) cs
    ∙ append_assoc finished (args ∷ []) (map arguments_of (c ∷ cs))

pub Follows-print_piped : (cs : List Command) (r : Text) → Follows r → Follows (print_piped cs r)
unfolding print_piped
Follows-print_piped [] r h = h
Follows-print_piped (c ∷ cs) r h = inl refl

pub Leads-print_piped :
    (cs : List Command) (r : Text) (finished : List (List Text)) (args : List Text)
    → All IsCommand cs
    → Follows r
    → Leads
        (print_piped cs r)
        (reading 1 finished args)
        r
        (reading 1 (finished_with finished args cs) (last_with args cs))
unfolding print_piped finished_with last_with
Leads-print_piped [] r finished args commands follows = λ fuel enough. (fuel, enough, refl)
Leads-print_piped (c ∷ cs) r finished args commands follows =
    let rest = print_words (c.name ∷ c.args) (print_piped cs r) in
    let behind = finished ++ args ∷ [] in
    let end =
      reading 1 (finished_with behind (arguments_of c) cs) (last_with (arguments_of c) cs) in
    Leads-trans (b' ' ∷ b'|' ∷ rest) rest r (reading 1 finished args) (reading 0 behind []) end
      (Leads-pipe rest (reading 1 finished args) refl)
      (Leads-trans rest (print_piped cs r) r (reading 0 behind [])
        (reading 1 behind (arguments_of c)) end
        (Leads-command c (print_piped cs r) behind commands.0 (Follows-print_piped cs r follows))
        (Leads-print_piped cs r behind (arguments_of c) commands.1 follows))

-- The line has been read up to the redirection.
unfoldable pub redirected : (finished : List (List Text)) (args : List Text) → Option Word → Parser
redirected finished args none = reading 1 finished args
redirected finished args (some w) = record (reading 3 finished args) { outfile = some (meaning w) }

pub Leads-print_ioredir :
    (o : Option Word) (r : Text) (finished : List (List Text)) (args : List Text)
    → IsFilename o
    → Follows r
    → Leads (print_ioredir o r) (reading 1 finished args) r (redirected finished args o)
unfolding print_ioredir redirected store_argument
Leads-print_ioredir none r finished args filename follows = λ fuel enough. (fuel, enough, refl)
Leads-print_ioredir (some w) r finished args filename follows =
    Leads-trans (b' ' ∷ b'>' ∷ b' ' ∷ (word_text w ++ r)) (b' ' ∷ (word_text w ++ r)) r
      (reading 1 finished args) (reading 2 finished args)
      (record (reading 3 finished args) { outfile = some (meaning w) })
      (Leads-redirect (b' ' ∷ (word_text w ++ r)) (reading 1 finished args) refl)
      (Leads-word_text w r (reading 2 finished args) filename follows (omega arith))

pub Follows-print_background : (b : Bool) → Follows (print_background b)
unfolding print_background
Follows-print_background true = inl refl
Follows-print_background false = inr refl

pub Follows-print_ioredir : (o : Option Word) (r : Text) → Follows r → Follows (print_ioredir o r)
unfolding print_ioredir
Follows-print_ioredir none r h = h
Follows-print_ioredir (some w) r h = inl refl

redirected_mode :
    (finished : List (List Text)) (args : List Text) (o : Option Word)
    → ((redirected finished args o).mode ≡ 1) ⊎ ((redirected finished args o).mode ≡ 3)
unfolding redirected
redirected_mode finished args none = inl refl
redirected_mode finished args (some w) = inr refl

-- The whole line has been read.
unfoldable pub ended :
    (finished : List (List Text)) (args : List Text) → Option Word → Bool → Parser
ended finished args o true = record (redirected finished args o) { mode = 4; bgnd = background }
ended finished args o false = redirected finished args o

pub Leads-print_background :
    (b : Bool) (finished : List (List Text)) (args : List Text) (o : Option Word)
    → Leads
        (print_background b)
        (redirected finished args o)
        (newline ∷ [])
        (ended finished args o b)
unfolding print_background ended
Leads-print_background true finished args o =
    Leads-ampersand (newline ∷ []) (redirected finished args o) (redirected_mode finished args o)
Leads-print_background false finished args o = λ fuel enough. (fuel, enough, refl)
