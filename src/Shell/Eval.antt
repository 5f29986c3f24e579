-- ===== src/Shell/Eval.antt =====
-- lab-4-shell/csapsh.c: eval and builtin_cmd. The process ID of the last child is an argument, and
-- no fork fails. What do_bgfg and waitfg wait for is left to Control: eval ends before the wait.
pub mod Safety
mod Tests
use snu_2021_fall_sys_prog.Common.{
  ℕ, ◌&&◌, Bool, true, false, Option, none, some, List, [], ◌∷◌, ◌==◌, if◌then◌else◌,
}
use snu_2021_fall_sys_prog.Common.Run.{Run, ok, fault, ◌>>=◌}
use snu_2021_fall_sys_prog.Shell.Jobs.{
  Job, JobState, foreground, background, Table, addjob, pid2jid, listjobs,
}
use snu_2021_fall_sys_prog.Shell.Control.{Reply, do_bgfg}
use snu_2021_fall_sys_prog.Shell.Parser.{Text, Outcome, failed, parsed, parseline}
use snu_2021_fall_sys_prog.Shell.Pipeline.{Descriptors, pipeline}

-- !strcmp(a, b)
unfoldable pub same_text : (a b : Text) → Bool
same_text [] [] = true
same_text [] (d ∷ ds) = false
same_text (c ∷ cs) [] = false
same_text (c ∷ cs) (d ∷ ds) = c == d && same_text cs ds

abbrev quit_name : Text
quit_name = b'q' ∷ b'u' ∷ b'i' ∷ b't' ∷ []

abbrev fg_name : Text
fg_name = b'f' ∷ b'g' ∷ []

abbrev bg_name : Text
bg_name = b'b' ∷ b'g' ∷ []

abbrev jobs_name : Text
jobs_name = b'j' ∷ b'o' ∷ b'b' ∷ b's' ∷ []

-- argv[1], NULL behind the last argument
unfoldable pub first_argument : List Text → Option Text
first_argument [] = none
first_argument (a ∷ others) = some a

-- What a command line does: nothing, the end of the shell, a list of jobs, what do_bgfg does, or a
-- pipeline with the descriptors of its children and of the shell behind it, its job ID and its mode.
pub data Action (D : Descriptors) : Type 0 where
  nothing : Action D
  quits : Action D
  listed : List Job → Action D
  resumed : Reply → Action D
  launched : List (Run D.Files) → D.Files → (jid : ℕ) → JobState → Action D

module _ (D : Descriptors) where
  -- `none` is the result 0, no built-in command. strcmp reads argv[0], which must not be NULL.
  unfoldable pub builtin_cmd : List Text → Table → Run (Option (Action D × Table))
  unfolding first_argument same_text
  builtin_cmd [] t = fault
  builtin_cmd (name ∷ args) t =
      let to_fg = do_bgfg foreground (first_argument args) t in
      let to_bg = do_bgfg background (first_argument args) t in
      if same_text name quit_name
      then ok (some (quits, t))
      else if same_text name fg_name
      then ok (some (resumed to_fg.0, to_fg.1))
      else if same_text name bg_name
      then ok (some (resumed to_bg.0, to_bg.1))
      else if same_text name jobs_name
      then ok (some (listed (listjobs t.jobs), t))
      else ok none

  -- The part of eval for a command that is not built in: the pipeline, and addjob with the process
  -- ID of its last child.
  unfoldable pub launch :
      List (List Text)
      → Option Text
      → JobState
      → (line : Text) (pid : ℕ) → D.Files
      → Table
      → Run (Action D × Table)
  launch commands outfile mode line pid files t = do
    made ← pipeline D commands outfile files
    let t' = (addjob pid mode line t).1 in
        ok (launched made.0 made.1 (pid2jid pid t'.jobs) mode, t')

  -- What eval does with the result of parseline.
  unfoldable pub execute :
      Outcome → (line : Text) (pid : ℕ) → D.Files → Table → Run (Action D × Table)
  execute (failed rest code) line pid files t = ok (nothing, t)
  execute (parsed [] outfile mode) line pid files t = ok (nothing, t)
  execute (parsed (argv ∷ others) outfile mode) line pid files t = do
    built_in ← builtin_cmd argv t
    elim built_in [
      | some done ↦ ok done
      | none ↦ launch (argv ∷ others) outfile mode line pid files t
    ]

  unfoldable pub eval : (line : Text) (pid : ℕ) → D.Files → Table → Run (Action D × Table)
  eval line pid files t = do outcome ← parseline line; execute outcome line pid files t
