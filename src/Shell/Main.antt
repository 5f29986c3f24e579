-- ===== src/Shell/Main.antt =====
-- lab-4-shell/csapsh.c: the read/eval loop of main, over the characters of the standard input. fgets
-- reads without an error. The children that sigchld_handler reaps while the n-th line runs, and the
-- process ID of its last child, are arguments.
pub mod Sessions
use snu_2021_fall_sys_prog.Common.{
  not, Option, none, some, newline, ℕ, zero, suc, ◌+◌, ◌-◌, Bool, true, false, List, [], ◌∷◌, ◌==◌,
  if◌then◌else◌, length,
}
use snu_2021_fall_sys_prog.Common.Run.{Run, ok, out_of_fuel, ◌>>=◌}
use snu_2021_fall_sys_prog.Shell.Jobs.{Table, max_line}
use snu_2021_fall_sys_prog.Shell.Control.{Status, continued, sigchld_handler, waitfg_done}
use snu_2021_fall_sys_prog.Shell.Parser.{Text}
use snu_2021_fall_sys_prog.Shell.Pipeline.{Descriptors}
use snu_2021_fall_sys_prog.Shell.Eval.{Action, nothing, quits, listed, resumed, launched, eval}

-- What fgets stores, what it leaves in the stream, and whether it has met the end of the stream.
pub record Read : Type 0 where
  pub line : Text
  pub rest : Text
  pub at_end : Bool

-- fgets for at most `n` characters
unfoldable pub fgets : ℕ → Text → Read
fgets zero s = record { line = []; rest = s; at_end = false }
fgets (suc n) [] = record { line = []; rest = []; at_end = true }
fgets (suc n) (c ∷ cs) =
    let r = fgets n cs in
    if c == newline
    then record { line = c ∷ []; rest = cs; at_end = false }
    else record { line = c ∷ r.line; rest = r.rest; at_end = r.at_end }

module _ (D : Descriptors) where
  -- How the loop ends: at the end of the input, by quit, by a fault of sigchld_handler, or in a
  -- foreground wait that nothing ends.
  pub data Ending : Type 0 where
    input_over quit_read handler_fault waits_on : Ending

  -- What the shell did for each line, its descriptors, its job list, and its end.
  pub record Session : Type 0 where
    pub actions : List (Action D)
    pub files : D.Files
    pub table : Table
    pub ending : Ending

  abbrev pub files_behind : D.Files → Action D → D.Files
  files_behind files (launched cs files' jid mode) = files'
  files_behind files action = files

  abbrev pub is_quit : Action D → Bool
  is_quit quits = true
  is_quit action = false

  -- The process that waitfg is called for. For bg and a job in the background, for which it is not
  -- called, its test holds at once.
  abbrev pub waited_for : (pid : ℕ) → Action D → Option ℕ
  waited_for pid (launched cs files' jid mode) = some pid
  waited_for pid (resumed (continued job)) = some job.pid
  waited_for pid action = none

  abbrev pub is_waiting : Option ℕ → Table → Bool
  is_waiting none t = false
  is_waiting (some pid) t = not (waitfg_done pid t)

  -- Behind a line: sigchld_handler runs, waitfg ends or not, and the next line is read.
  unfoldable pub settle :
      Run Table
      → (waits : Table → Bool) → (stop : Ending → Run Session) → (next_line : Table → Run Session)
      → Run Session
  settle (ok t) waits stop next_line = elim (waits t) [ true ↦ stop waits_on | false ↦ next_line t ]
  settle r waits stop next_line = stop handler_fault

  module _ (pids : ℕ → ℕ) (children : ℕ → List (ℕ × Status)) where
    -- The loop from the n-th line on. Each round reads a character, so that the length of the input
    -- bounds the rounds. The built-in command quit ends the shell.
    unfoldable pub eval_loop : (fuel n : ℕ) (input : Text) → D.Files → Table → Run Session
    eval_loop zero n input files t = out_of_fuel
    eval_loop (suc fuel) n input files t =
        let r = fgets (max_line - 1) input in
        elim r.at_end [
          | true ↦ ok (record { actions = []; files = files; table = t; ending = input_over })
          | false ↦ do
            done ← eval D r.line (pids n) files t
            elim (is_quit done.0) [
              | true ↦ ok (record {
                actions = quits ∷ [];
                files = files;
                table = done.1;
                ending = quit_read;
              })
              | false ↦
                  settle (sigchld_handler (children n) done.1)
                    (is_waiting (waited_for (pids n) done.0))
                    (λ ending. ok (record {
                      actions = done.0 ∷ [];
                      files = files_behind files done.0;
                      table = done.1;
                      ending = ending;
                    }))
                    (λ u. do
                      later ← eval_loop fuel (suc n) r.rest (files_behind files done.0) u
                      ok (record later { actions = done.0 ∷ later.actions }))
            ]
        ]

    unfoldable pub run_shell : (input : Text) → D.Files → Table → Run Session
    run_shell input files t = eval_loop (length input + 1) 0 input files t
