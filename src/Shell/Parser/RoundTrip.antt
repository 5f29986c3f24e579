-- ===== src/Shell/Parser/RoundTrip.antt =====
-- lab-4-shell/csapsh.c: parseline reads every command line of its grammar.
use snu_2021_fall_sys_prog.Common.{
  ℕ, zero, suc, ◌+◌, ◌<◌, ◌≡◌, ◌∙◌, refl, sym, ap, true, false, Bool, Option, none, some, List, [],
  ◌∷◌, ◌++◌, map, newline, arith, length,
}
use snu_2021_fall_sys_prog.Common.Run.{ok}
use snu_2021_fall_sys_prog.Shell.Parser.{
  Text, Parser, parsed, at_newline, parse_loop, finish, commands, given, parseline,
}
use snu_2021_fall_sys_prog.Shell.Parser.Grammar.{
  Word, Command, CommandLine, meaning, print_words, print_piped, print_ioredir, print_background,
  print_line, arguments_of, filename_of, mode_of, meaning_of, IsCommandLine,
}
use snu_2021_fall_sys_prog.Shell.Parser.Words.{Leads, Leads-trans}
use snu_2021_fall_sys_prog.Shell.Parser.Reading.{
  reading, Leads-command, finished_with, last_with, finished_with-last_with, Leads-print_piped,
  redirected, Leads-print_ioredir, ended, Leads-print_background, Follows-print_piped,
  Follows-print_ioredir, Follows-print_background,
}

finish-ended :
    (finished : List (List Text)) (a : Text) (args : List Text) (o : Option Word) (b : Bool)
    → finish (newline ∷ []) (ended finished (a ∷ args) o b)
      ≡ parsed (finished ++ (a ∷ args) ∷ []) (filename_of o) (mode_of b)
unfolding finish ended redirected commands given
finish-ended finished a args none true = ground arith
finish-ended finished a args none false = ground arith
finish-ended finished a args (some w) true = ground arith
finish-ended finished a args (some w) false = ground arith

-- A command has a name.
last_with_name :
    (a : Text) (args : List Text) (cs : List Command)
    → (b : Text) × (others : List Text) × (last_with (a ∷ args) cs ≡ b ∷ others)
unfolding last_with
last_with_name a args [] = (a, args, refl)
last_with_name a args (c ∷ cs) = last_with_name (meaning c.name) (map meaning c.args) cs

finish-meaning_of :
    (l : CommandLine)
    → finish (newline ∷ []) (
        ended
          (finished_with [] (arguments_of l.command) l.piped)
          (last_with (arguments_of l.command) l.piped)
          l.ioredir
          l.in_background)
      ≡ meaning_of l
unfolding meaning_of
finish-meaning_of l =
    let finished = finished_with [] (arguments_of l.command) l.piped in
    let (b, others, e) =
      last_with_name (meaning l.command.name) (map meaning l.command.args) l.piped in
    ap (λ args. finish (newline ∷ []) (ended finished args l.ioredir l.in_background)) e
    ∙ finish-ended finished b others l.ioredir l.in_background
    ∙ ap (λ args. parsed (finished ++ args ∷ []) (filename_of l.ioredir) (mode_of l.in_background))
        (sym e)
    ∙ ap (λ cmds. parsed cmds (filename_of l.ioredir) (mode_of l.in_background))
        (finished_with-last_with [] (arguments_of l.command) l.piped)

Leads-print_line :
    (l : CommandLine)
    → IsCommandLine l
    → Leads (print_line l) (reading 0 [] []) (newline ∷ []) (
        ended
          (finished_with [] (arguments_of l.command) l.piped)
          (last_with (arguments_of l.command) l.piped)
          l.ioredir
          l.in_background)
unfolding print_line
Leads-print_line l (command, piped, filename) =
    let first = arguments_of l.command in
    let finished = finished_with [] first l.piped in
    let args = last_with first l.piped in
    let tail = print_background l.in_background in
    let behind = print_ioredir l.ioredir tail in
    let rest = print_piped l.piped behind in
    let follows = Follows-print_background l.in_background in
    let follows' = Follows-print_ioredir l.ioredir tail follows in
    let whole = print_words (l.command.name ∷ l.command.args) rest in
    let end = ended finished args l.ioredir l.in_background in
    Leads-trans whole rest (newline ∷ []) (reading 0 [] []) (reading 1 [] first) end
      (Leads-command l.command rest [] command (Follows-print_piped l.piped behind follows'))
      (Leads-trans rest behind (newline ∷ []) (reading 1 [] first) (reading 1 finished args) end
        (Leads-print_piped l.piped behind [] first piped follows')
        (Leads-trans behind tail (newline ∷ []) (reading 1 finished args)
          (redirected finished args l.ioredir) end
          (Leads-print_ioredir l.ioredir tail finished args filename follows)
          (Leads-print_background l.in_background finished args l.ioredir)))

parse_loop-newline :
    (fuel : ℕ) (p : Parser)
    → 0 < fuel
    → parse_loop fuel (newline ∷ []) p ≡ ok (finish (newline ∷ []) p)
unfolding parse_loop at_newline
parse_loop-newline zero p h = absurd (omega (arith, h))
parse_loop-newline (suc fuel) p h = refl

-- parseline reads the text of every command line of the grammar, with one blank before each word and
-- symbol, and gives its meaning: the names and arguments of all commands without their quotes, the
-- output file, and whether the line ends with an ampersand.
pub parseline-print_line :
    (l : CommandLine) → IsCommandLine l → parseline (print_line l) ≡ ok (meaning_of l)
unfolding parseline
parseline-print_line l h =
    let (fuel, left, e) = Leads-print_line l h (length (print_line l) + 1) (omega arith) in
    e ∙ parse_loop-newline fuel _ (omega (arith, left)) ∙ ap ok (finish-meaning_of l)
