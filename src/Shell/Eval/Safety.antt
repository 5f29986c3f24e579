-- ===== src/Shell/Eval/Safety.antt =====
-- eval of lab-4-shell/csapsh.c on every command line that main reads.
use snu_2021_fall_sys_prog.Common.{
  ℕ, ◌≡◌, ◌≢◌, ◌≤◌, ◌<◌, Option, none, some, List, [], ◌∷◌, length, arith, Bool-cases, inl, inr,
}
use snu_2021_fall_sys_prog.Common.Run.{ok, Returns, Returns-bind}
use snu_2021_fall_sys_prog.Shell.Jobs.{JobState, Table, addjob, pid2jid, max_line}
use snu_2021_fall_sys_prog.Shell.Parser.{Text, Outcome, failed, parsed, parseline}
use snu_2021_fall_sys_prog.Shell.Parser.Commands.{IsLine, NonEmpty, Usable}
use snu_2021_fall_sys_prog.Shell.Parser.Ending.{parseline-Usable}
use snu_2021_fall_sys_prog.Shell.Pipeline.{Descriptors, IsLawful, pipeline}
use snu_2021_fall_sys_prog.Shell.Pipeline.Closing.{pipeline-close_pipes}
use snu_2021_fall_sys_prog.Shell.Eval.{
  Action, launched, same_text, quit_name, fg_name, bg_name, jobs_name, builtin_cmd, launch, execute,
  eval,
}

module _ (D : Descriptors) where
  -- A pipeline leaves each descriptor of the shell as it was.
  abbrev pub Restores : D.Files → Action D × Table → Type 0
  Restores files (launched cs files' jid mode, t) =
      (fd : ℕ) → D.stream files' fd ≡ D.stream files fd
  Restores files (action, t) = Unit

  abbrev MaybeRestores : D.Files → Option (Action D × Table) → Type 0
  MaybeRestores files none = Unit
  MaybeRestores files (some r) = Restores files r

  builtin_cmd-Restores :
      (argv : List Text) (files : D.Files) (t : Table)
      → NonEmpty argv
      → Returns (MaybeRestores files) (builtin_cmd D argv t)
  unfolding builtin_cmd
  builtin_cmd-Restores [] files t named = absurd named
  builtin_cmd-Restores (name ∷ args) files t named = elim (Bool-cases (same_text name quit_name)) [
    | inl h ↦ rw h tt
    | inr h ↦ rw h (elim (Bool-cases (same_text name fg_name)) [
      | inl h' ↦ rw h' tt
      | inr h' ↦ rw h' (elim (Bool-cases (same_text name bg_name)) [
        | inl h'' ↦ rw h'' tt
        | inr h'' ↦
            rw h'' (elim (Bool-cases (same_text name jobs_name)) [
              | inl h3 ↦ rw h3 tt
              | inr h3 ↦ rw h3 tt
            ])
      ])
    ])
  ]

module _ (D : Descriptors) (lawful : IsLawful D) where
  launch-Restores :
      (commands : List (List Text)) (outfile : Option Text) (mode : JobState) (line : Text)
      (pid : ℕ) (files : D.Files) (t : Table)
      → ((u : D.Files) → D.pipe u ≢ none)
      → length commands ≤ 513
      → Returns (Restores D files) (launch D commands outfile mode line pid files t)
  unfolding launch
  launch-Restores commands outfile mode line pid files t pipes small =
      Returns-bind (Restores D files) (pipeline D commands outfile files)
        (λ made.
          let t' = (addjob pid mode line t).1 in
          ok (launched made.0 made.1 (pid2jid pid t'.jobs) mode, t'))
        (pipeline-close_pipes D lawful commands outfile files pipes small) (λ made kept. kept)

  execute-Restores :
      (size : ℕ) (outcome : Outcome) (line : Text) (pid : ℕ) (files : D.Files) (t : Table)
      → ((u : D.Files) → D.pipe u ≢ none)
      → size < max_line
      → Usable size outcome
      → Returns (Restores D files) (execute D outcome line pid files t)
  unfolding execute
  execute-Restores size (failed rest code) line pid files t pipes short usable = tt
  execute-Restores size (parsed [] outfile mode) line pid files t pipes short usable = tt
  execute-Restores size (parsed (argv ∷ others) outfile mode) line pid files t pipes short usable =
      Returns-bind (Restores D files) (builtin_cmd D argv t)
        (λ built_in. elim built_in [
          | some done ↦ ok done
          | none ↦ launch D (argv ∷ others) outfile mode line pid files t
        ])
        (builtin_cmd-Restores D argv files t usable.0.0)
        (λ built_in.
          elim built_in
            as (λ b.
              MaybeRestores D files b
              → Returns (Restores D files) (elim b [
                | some done ↦ ok done
                | none ↦ launch D (argv ∷ others) outfile mode line pid files t
              ])) [
                | some done ↦ λ kept. kept
                | none ↦ λ kept.
                    launch-Restores (argv ∷ others) outfile mode line pid files t pipes
                      (let count = usable.1 in omega (arith, count, short))
              ])

  -- On a line with a newline, no null character before it and fewer than MAXLINE characters, and with
  -- no failure of pipe, eval comes to its end: it reads no NULL command name and no entry beyond
  -- the 512 of fp, and a pipeline leaves each descriptor of the shell what it was.
  pub eval-Restores :
      (line : Text) (pid : ℕ) (files : D.Files) (t : Table)
      → IsLine line
      → length line < max_line
      → ((u : D.Files) → D.pipe u ≢ none)
      → Returns (Restores D files) (eval D line pid files t)
  unfolding eval
  eval-Restores line pid files t line_end short pipes =
      Returns-bind (Restores D files) (parseline line)
        (λ outcome. execute D outcome line pid files t) (parseline-Usable line line_end)
        (λ outcome. execute-Restores (length line) outcome line pid files t pipes short)
