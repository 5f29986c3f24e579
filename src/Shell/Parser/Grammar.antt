-- ===== src/Shell/Parser/Grammar.antt =====
-- lab-4-shell/csapsh.c: the command lines of the comment above parseline, as data with their text
-- and their meaning.
--   cmdline = command { "|" command } [ ioredir ] ["&"].
--   command = cmd { arg }.
--   ioredir = ">" filename
-- A word is a text as it stands or between quotes. One blank stands before each word and symbol.
use snu_2021_fall_sys_prog.Common.{
  ℕ, ◌≡◌, ◌≢◌, ◌⊎◌, Bool, true, false, Option, none, some, List, [], ◌∷◌, ◌++◌, map, All, newline,
}
use snu_2021_fall_sys_prog.Shell.Jobs.{JobState, foreground, background}
use snu_2021_fall_sys_prog.Shell.Parser.{Text, Outcome, parsed, no_quote, isdelim}

pub data Word : Type 0 where
  bare : Text → Word
  quoted : (quote : ℕ) → Text → Word

pub record Command : Type 0 where
  pub name : Word
  pub args : List Word

pub record CommandLine : Type 0 where
  pub command : Command
  pub piped : List Command
  pub ioredir : Option Word
  pub in_background : Bool

abbrev pub word_text : Word → Text
word_text (bare t) = t
word_text (quoted quote t) = quote ∷ (t ++ quote ∷ [])

abbrev pub meaning : Word → Text
meaning (bare t) = t
meaning (quoted quote t) = t

-- The texts with what follows them.
unfoldable pub print_words : List Word → Text → Text
print_words [] rest = rest
print_words (w ∷ ws) rest = b' ' ∷ (word_text w ++ print_words ws rest)

unfoldable pub print_piped : List Command → Text → Text
print_piped [] rest = rest
print_piped (c ∷ cs) rest = b' ' ∷ b'|' ∷ print_words (c.name ∷ c.args) (print_piped cs rest)

unfoldable pub print_ioredir : Option Word → Text → Text
print_ioredir none rest = rest
print_ioredir (some w) rest = b' ' ∷ b'>' ∷ b' ' ∷ (word_text w ++ rest)

unfoldable pub print_background : Bool → Text
print_background true = b' ' ∷ b'&' ∷ newline ∷ []
print_background false = newline ∷ []

unfoldable pub print_line : CommandLine → Text
print_line l =
    print_words (l.command.name ∷ l.command.args)
      (print_piped l.piped (print_ioredir l.ioredir (print_background l.in_background)))

abbrev pub arguments_of : Command → List Text
arguments_of c = map meaning (c.name ∷ c.args)

abbrev pub filename_of : Option Word → Option Text
filename_of none = none
filename_of (some w) = some (meaning w)

abbrev pub mode_of : Bool → JobState
mode_of true = background
mode_of false = foreground

-- What a command line means.
unfoldable pub meaning_of : CommandLine → Outcome
meaning_of l =
    parsed (map arguments_of (l.command ∷ l.piped)) (filename_of l.ioredir)
      (mode_of l.in_background)

-- A character that ends no word.
abbrev pub IsPlain : ℕ → Type 0
IsPlain c = (c ≢ newline) × (isdelim c no_quote ≡ false)

-- The first character of a word without quotes.
abbrev pub Begins : Text → Type 0
Begins [] = ⊥
Begins (c ∷ cs) = (c ≢ b'\'') × (c ≢ b'"') × (c ≢ b'&')

-- A word without quotes is not empty and has no blank, no pipe or redirection symbol; one with
-- quotes has any characters but its quote and the newline.
abbrev pub IsWord : Word → Type 0
IsWord (bare t) = Begins t × All IsPlain t
IsWord (quoted quote t) =
    ((quote ≡ b'\'') ⊎ (quote ≡ b'"')) × All (λ c. (c ≢ newline) × (c ≢ quote)) t

abbrev pub IsCommand : Command → Type 0
IsCommand c = IsWord c.name × All IsWord c.args

abbrev pub IsFilename : Option Word → Type 0
IsFilename none = Unit
IsFilename (some w) = IsWord w

abbrev pub IsCommandLine : CommandLine → Type 0
IsCommandLine l = IsCommand l.command × All IsCommand l.piped × IsFilename l.ioredir
