-- ===== src/Shell/Parser.antt =====
-- lab-4-shell/csapsh.c: parseline. A command line is the list of its characters up to the final
-- null byte, so that [] stands for the null byte; the position of the code is the length of the
-- line less that of the rest. Memory suffices: error 6 does not occur. Reading beyond the null
-- byte is a `fault`.
pub mod Commands
pub mod Rounds
pub mod Ending
pub mod Grammar
pub mod Words
pub mod Reading
pub mod RoundTrip
use snu_2021_fall_sys_prog.Common.{
  newline, ℕ, zero, suc, ◌+◌, ◌-◌, ◌&&◌, ◌||◌, Bool, true, false, not, Option, none, some, List, [],
  ◌∷◌, ◌++◌, ltb, leb, ◌==◌, if◌then◌else◌, length,
}
use snu_2021_fall_sys_prog.Common.Run.{Run, ok, fault, out_of_fuel, ◌>>=◌}
use snu_2021_fall_sys_prog.Shell.Jobs.{JobState, foreground, background}

abbrev pub Text : Type 0
Text = List ℕ

-- NONE
abbrev pub no_quote : ℕ
no_quote = 0

-- isdelim(c, extra)
unfoldable pub isdelim : (c extra : ℕ) → Bool
isdelim c extra =
    (extra == no_quote && (c == b' ' || c == 9 || c == b'|' || c == b'>')) || c == extra

unfoldable pub skip_whitespace : Text → Text
skip_whitespace [] = []
skip_whitespace (c ∷ cs) =
    let rest = skip_whitespace cs in if c == b' ' || c == 9 then rest else c ∷ cs

-- The loop that finds the end of an argument: the argument and the text behind it. The null byte
-- is a delimiter exactly if `extra` is NONE.
unfoldable pub scan_argument : (extra : ℕ) → Text → Run (Text × Text)
scan_argument extra [] = if extra == no_quote then ok ([], []) else fault
scan_argument extra (c ∷ cs) =
    let more = scan_argument extra cs in
    if c == newline || isdelim c extra
    then ok ([], c ∷ cs)
    else (do (text, rest) ← more; ok (c ∷ text, rest))

-- The variables of parseline: `mode`, `bgnd`, `*outfile`, and the array `cmd` as the finished
-- commands and the arguments of the current one.
pub record Parser : Type 0 where
  pub mode : ℕ
  pub bgnd : JobState
  pub outfile : Option Text
  pub finished : List (List Text)
  pub arguments : List Text

abbrev pub start : Parser
start = record { mode = 0; bgnd = foreground; outfile = none; finished = []; arguments = [] }

-- What parseline returns: -1 after an error message with its code and position, or `argv` (NULL as
-- []), `outfile` and the execution mode.
pub data Outcome : Type 0 where
  failed : (rest : Text) (code : ℕ) → Outcome
  parsed : List (List Text) → Option Text → JobState → Outcome

-- One round of the loop: an error, or the text and the variables for the next round.
pub data Round : Type 0 where
  stop : (rest : Text) (code : ℕ) → Round
  continue : Text → Parser → Round

-- `cmd`, which is NULL before the first argument.
unfoldable pub commands : Parser → List (List Text)
commands p = elim p.arguments [
  | [] ↦ elim p.finished [ [] ↦ [] | c ∷ cs ↦ p.finished ++ [] ∷ [] ]
  | a ∷ others ↦ p.finished ++ p.arguments ∷ []
]

-- A command, argument or filename that has been extracted.
unfoldable pub store_argument : Text → Parser → Parser
store_argument text p =
    if ltb p.mode 2
    then record p { mode = 1; arguments = p.arguments ++ text ∷ [] }
    else record p { mode = 3; outfile = some text }

-- The closing quote behind the argument, if it was opened.
unfoldable pub close_quote : (extra : ℕ) (begin text rest : Text) → Parser → Round
close_quote extra begin text [] p =
    if extra == no_quote then continue [] (store_argument text p) else stop begin 5
close_quote extra begin text (c ∷ cs) p =
    if extra == no_quote
    then continue (c ∷ cs) (store_argument text p)
    else if c == extra
    then continue cs (store_argument text p)
    else stop begin 5

-- The opening quote, NONE if there is none, and the text behind it.
unfoldable pub open_quote : Text → ℕ × Text
open_quote [] = (no_quote, [])
open_quote (c ∷ cs) = if c == b'\'' || c == b'"' then (c, cs) else (no_quote, c ∷ cs)

-- The default case of the switch.
unfoldable pub read_argument : Text → Parser → Run Round
read_argument rest p =
    if leb 3 p.mode
    then ok (stop rest p.mode)
    else (let (extra, begin) = open_quote rest in
        do (text, after) ← scan_argument extra begin; ok (close_quote extra begin text after p))

-- The switch on the character at the current position.
unfoldable pub round : Text → Parser → Run Round
round [] p = read_argument [] p
round (c ∷ cs) p =
    if c == b'|'
    then ok (
        if p.mode == 1
        then continue cs
            (record p { mode = 0; finished = p.finished ++ p.arguments ∷ []; arguments = [] })
        else stop (c ∷ cs) p.mode)
    else if c == b'>'
    then ok (if p.mode == 1 then continue cs (record p { mode = 2 }) else stop (c ∷ cs) p.mode)
    else if c == b'&'
    then ok (
        if p.mode == 1 || p.mode == 3
        then continue cs (record p { mode = 4; bgnd = background })
        else stop (c ∷ cs) p.mode)
    else if c == newline
    then ok (if p.mode == 0 || p.mode == 2 then stop (c ∷ cs) p.mode else continue (c ∷ cs) p)
    else read_argument (c ∷ cs) p

-- cmd != NULL
unfoldable pub given : List (List Text) → Bool
given [] = false
given (c ∷ cs) = true

-- The check behind the loop.
unfoldable pub finish : Text → Parser → Outcome
finish rest p =
    if given (commands p) && (p.mode == 0 || p.mode == 2)
    then failed rest p.mode
    else parsed (commands p) p.outfile p.bgnd

-- cmdline[pos] != '\n'
unfoldable pub at_newline : Text → Bool
at_newline [] = false
at_newline (c ∷ cs) = c == newline

unfoldable pub parse_loop : ℕ → Text → Parser → Run Outcome
parse_loop zero rest p = out_of_fuel
parse_loop (suc fuel) rest p = if at_newline rest then ok (finish rest p) else (do
  r ← round (skip_whitespace rest) p
  elim r [ stop at code ↦ ok (failed at code) | continue rest' p' ↦ parse_loop fuel rest' p' ])

-- Each round moves past a character, so that the length of the line bounds the rounds.
unfoldable pub parseline : Text → Run Outcome
parseline line = parse_loop (length line + 1) line start
