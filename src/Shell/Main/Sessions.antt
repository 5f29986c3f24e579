-- ===== src/Shell/Main/Sessions.antt =====
-- lab-4-shell/csapsh.c: main on a whole input.
use snu_2021_fall_sys_prog.Common.{
  List, Bool, newline, ℕ, zero, suc, ◌+◌, ◌≤◌, ◌<◌, ◌≡◌, ◌≢◌, ◌∙◌, ◌⊎◌, inl, inr, refl, true, false,
  none, [], ◌∷◌, length, arith, ne→==, eq→==,
}
use snu_2021_fall_sys_prog.Common.Run.{
  Run, ok, fault, panic, out_of_fuel, ◌>>=◌, Returns, Returns-bind,
}
use snu_2021_fall_sys_prog.Shell.Jobs.{Table}
use snu_2021_fall_sys_prog.Shell.Control.{Status, sigchld_handler}
use snu_2021_fall_sys_prog.Shell.Parser.{Text}
use snu_2021_fall_sys_prog.Shell.Parser.Commands.{IsLine}
use snu_2021_fall_sys_prog.Shell.Pipeline.{Descriptors, IsLawful}
use snu_2021_fall_sys_prog.Shell.Eval.{Action, nothing, quits, listed, resumed, launched, eval}
use snu_2021_fall_sys_prog.Shell.Eval.Safety.{Restores, eval-Restores}
use snu_2021_fall_sys_prog.Shell.Main.{
  fgets, Read, Session, Ending, quit_read, handler_fault, waits_on, waited_for, is_waiting, settle,
  files_behind, is_quit, eval_loop, run_shell,
}

-- The input has no null character, and at most `limit` characters before each newline and before
-- its end; `room` of them are left on the current line.
abbrev pub Within : (limit room : ℕ) → Text → Type 0
Within limit room [] = Unit
Within limit zero (c ∷ cs) = (c ≡ newline) × Within limit limit cs
Within limit (suc room) (c ∷ cs) =
    ((c ≡ newline) × Within limit limit cs) ⊎ ((c ≢ newline) × (c ≢ 0) × Within limit room cs)

-- fgets has met the end of the input, or has read a line.
abbrev HasRead : (limit room : ℕ) → Text → Read → Type 0
HasRead limit room s r =
    (r.at_end ≡ true)
    ⊎ (r.at_end ≡ false)
      × IsLine r.line
      × (length r.line ≤ suc room)
      × Within limit limit r.rest
      × (length r.rest < length s)

fgets-HasRead :
    (limit room : ℕ) (s : Text) → Within limit room s → HasRead limit room s (fgets (suc room) s)
unfolding fgets
fgets-HasRead limit zero [] h = inl refl
fgets-HasRead limit (suc room) [] h = inl refl
fgets-HasRead limit zero (c ∷ cs) (end, more) =
    rw (eq→== c newline end) (inr (refl, inl end, omega arith, more, omega arith))
fgets-HasRead limit (suc room) (c ∷ cs) (inl (end, more)) =
    rw (eq→== c newline end) (inr (refl, inl end, omega arith, more, omega arith))
fgets-HasRead limit (suc room) (c ∷ cs) (inr (inside, char, more)) =
    rw (ne→== c newline inside) (elim (fgets-HasRead limit room cs more) [
      | inl over ↦ inl over
      | inr (still, line, short, within, less) ↦
          inr (still, inr (char, line), omega (arith, short), within, omega (arith, less))
    ])

module _ (D : Descriptors) where
  -- Every descriptor refers to what it referred to.
  abbrev pub SameFiles : (before after : D.Files) → Type 0
  SameFiles before after = (fd : ℕ) → D.stream after fd ≡ D.stream before fd

  files_behind-Restores :
      (files : D.Files) (r : Action D × Table)
      → Restores D files r
      → SameFiles files (files_behind D files r.0)
  files_behind-Restores files (nothing, t) h fd = refl
  files_behind-Restores files (quits, t) h fd = refl
  files_behind-Restores files (listed jobs, t) h fd = refl
  files_behind-Restores files (resumed reply, t) h fd = refl
  files_behind-Restores files (launched cs files' jid mode, t) h fd = h fd

module _ (D : Descriptors) where
  settle-Returns :
      (P : Session D → Type 0) (r : Run Table) (waits : Table → Bool)
      (stop : Ending D → Run (Session D)) (next_line : Table → Run (Session D))
      → ((e : Ending D) → Returns P (stop e))
      → ((t : Table) → Returns P (next_line t))
      → Returns P (settle D r waits stop next_line)
  unfolding settle
  settle-Returns P (ok t) waits stop next_line stops goes =
      elim (waits t) as (λ b. Returns P (elim b [ true ↦ stop waits_on | false ↦ next_line t ])) [
        | true ↦ stops waits_on
        | false ↦ goes t
      ]
  settle-Returns P fault waits stop next_line stops goes = stops handler_fault
  settle-Returns P panic waits stop next_line stops goes = stops handler_fault
  settle-Returns P out_of_fuel waits stop next_line stops goes = stops handler_fault

module _ (D : Descriptors) (lawful : IsLawful D) (pids : ℕ → ℕ)
    (children : ℕ → List (ℕ × Status)) where
  eval_loop-SameFiles :
      (fuel n : ℕ) (input : Text) (files : D.Files) (t : Table)
      → ((u : D.Files) → D.pipe u ≢ none)
      → Within 1022 1022 input
      → length input < fuel
      → Returns (λ s. SameFiles D files s.files) (eval_loop D pids children fuel n input files t)
  unfolding eval_loop fgets
  eval_loop-SameFiles zero n input files t pipes within enough = absurd (omega (arith, enough))
  eval_loop-SameFiles (suc fuel) n input files t pipes within enough =
      elim (fgets-HasRead 1022 1022 input within) [
        | inl over ↦ rw over (λ fd. refl)
        | inr (still, line, short, more, less) ↦ rw still (
            Returns-bind P (eval D r.line (pids n) files t)
              (λ done. elim (is_quit D done.0) [ true ↦ left done | false ↦ settled done ])
              (eval-Restores D lawful r.line (pids n) files t line (omega (arith, short)) pipes)
              (λ done kept.
                elim (is_quit D done.0)
                  as (λ b. Returns P (elim b [ true ↦ left done | false ↦ settled done ])) [
                    | true ↦ λ fd. refl
                    | false ↦
                        settle-Returns D P (sigchld_handler (children n) done.1)
                          (is_waiting D (waited_for D (pids n) done.0)) (stopped done) (later done)
                          (λ e. files_behind-Restores D files done kept)
                          (λ u.
                            Returns-bind P
                              (eval_loop D pids children fuel (suc n) r.rest
                                (files_behind D files done.0) u)
                              (λ s. ok (record s { actions = done.0 ∷ s.actions }))
                              (eval_loop-SameFiles fuel (suc n) r.rest (files_behind D files done.0)
                                u pipes more (omega (arith, less, enough)))
                              (λ s same fd. same fd ∙ files_behind-Restores D files done kept fd))
                  ]))
      ]
    where
      r : Read
      r = fgets 1023 input

      P : Session D → Type 0
      P s = SameFiles D files s.files

      left : Action D × Table → Run (Session D)
      left done =
          ok (record { actions = quits ∷ []; files = files; table = done.1; ending = quit_read })

      stopped : Action D × Table → Ending D → Run (Session D)
      stopped done e = ok (record {
        actions = done.0 ∷ [];
        files = files_behind D files done.0;
        table = done.1;
        ending = e;
      })

      later : Action D × Table → Table → Run (Session D)
      later done u =
          eval_loop D pids children fuel (suc n) r.rest (files_behind D files done.0) u
          >>= (λ s. ok (record s { actions = done.0 ∷ s.actions }))

      settled : Action D × Table → Run (Session D)
      settled done =
          settle D (sigchld_handler (children n) done.1)
            (is_waiting D (waited_for D (pids n) done.0)) (stopped done) (later done)

  -- On an input with no null character and fewer than MAXLINE - 1 characters on each line, with no
  -- failure of pipe, and whatever children are reaped while a line runs, the read/eval loop comes to
  -- the end of the input, to quit, to a fault of sigchld_handler or to a foreground wait that no
  -- child ends. The evaluation of a line itself does not fault: it reads no NULL command name and no
  -- entry beyond the 512 of fp. Each descriptor of the shell is then what it was at the start.
  pub run_shell-SameFiles :
      (input : Text) (files : D.Files) (t : Table)
      → ((u : D.Files) → D.pipe u ≢ none)
      → Within 1022 1022 input
      → Returns (λ s. SameFiles D files s.files) (run_shell D pids children input files t)
  unfolding run_shell
  run_shell-SameFiles input files t pipes within =
      eval_loop-SameFiles (length input + 1) 0 input files t pipes within (omega arith)
