-- ===== src/Shell/Pipeline.antt =====
-- lab-4-shell/csapsh.c: the descriptors of a pipeline in eval and getCmdCount. The system calls on
-- the table of open descriptors of a process are a parameter, `Descriptors`; fork copies the table.
-- unix_error ends the child (`panic`). Descriptors that pipe did not set, and entries beyond the 512
-- of fp, are a `fault`: each child and the shell use all of them.
pub mod Closing
pub mod Wiring
pub mod Memory
use snu_2021_fall_sys_prog.Common.{
  ℕ, zero, suc, ◌+◌, ◌-◌, ◌≡◌, ◌≢◌, Option, none, some, List, [], ◌∷◌, leb, ◌==◌, if◌then◌else◌,
  get_elem?, length,
}
use snu_2021_fall_sys_prog.Common.Run.{Run, ok, fault, panic, ◌>>=◌}
use snu_2021_fall_sys_prog.Shell.Parser.{Text}

-- pipe, dup2, open and close on the table of open descriptors, and what a descriptor refers to.
-- `none` is a call that fails. pipe gives the read end and the write end.
pub record Descriptors : Type 1 where
  pub Files : Type 0
  pub Stream : Type 0
  pub stream : Files → ℕ → Option Stream
  pub pipe : Files → Option ((ℕ × ℕ) × Files)
  pub dup2 : Files → (old new : ℕ) → Option Files
  pub open_file : Files → Text → Option (ℕ × Files)
  pub close : Files → ℕ → Files
  pub file : Text → Stream

-- The documented behaviour of the calls: pipe and open use descriptors that were not open, dup2 of
-- an open descriptor succeeds, and a call changes no other descriptor than those it is about.
pub record IsLawful (D : Descriptors) : Type 0 where
  pub pipe_unused :
      (t t' : D.Files) (p : ℕ × ℕ)
      → D.pipe t ≡ some (p, t')
      → (D.stream t p.0 ≡ none) × (D.stream t p.1 ≡ none)
  pub pipe_opens :
      (t t' : D.Files) (p : ℕ × ℕ)
      → D.pipe t ≡ some (p, t')
      → (D.stream t' p.0 ≢ none) × (D.stream t' p.1 ≢ none)
  pub pipe_keeps :
      (t t' : D.Files) (p : ℕ × ℕ) (fd : ℕ)
      → D.pipe t ≡ some (p, t')
      → fd ≢ p.0
      → fd ≢ p.1
      → D.stream t' fd ≡ D.stream t fd
  pub dup2_succeeds : (t : D.Files) (old new : ℕ) → D.stream t old ≢ none → D.dup2 t old new ≢ none
  pub stream-dup2 :
      (t t' : D.Files) (old new fd : ℕ)
      → D.dup2 t old new ≡ some t'
      → D.stream t' fd ≡ (if fd == new then D.stream t old else D.stream t fd)
  pub open_unused :
      (t t' : D.Files) (path : Text) (fd : ℕ)
      → D.open_file t path ≡ some (fd, t')
      → D.stream t fd ≡ none
  pub stream-open_file :
      (t t' : D.Files) (path : Text) (new fd : ℕ)
      → D.open_file t path ≡ some (new, t')
      → D.stream t' fd ≡ (if fd == new then some (D.file path) else D.stream t fd)
  pub stream-close :
      (t : D.Files) (old fd : ℕ)
      → D.stream (D.close t old) fd ≡ (if fd == old then none else D.stream t fd)

module _ (D : Descriptors) where
  -- The calls of pipe, from fp[i] on.
  unfoldable pub make_pipes : (n i : ℕ) → D.Files → Run (List (ℕ × ℕ) × D.Files)
  make_pipes zero i t = ok ([], t)
  make_pipes (suc n) i t = if leb 512 i then fault else elim (D.pipe t) [
    | none ↦ fault
    | some opened ↦ do made ← make_pipes n (suc i) opened.1; ok (opened.0 ∷ made.0, made.1)
  ]

  -- Every pipe is closed, its write end first.
  unfoldable pub close_pipes : List (ℕ × ℕ) → D.Files → D.Files
  close_pipes [] t = t
  close_pipes (p ∷ ps) t = close_pipes ps (D.close (D.close t p.1) p.0)

  -- if (dup2(old, new) < 0) unix_error("dup2 error")
  unfoldable pub redirect : D.Files → (old new : ℕ) → Run D.Files
  redirect t old new = elim (D.dup2 t old new) [ none ↦ panic | some t' ↦ ok t' ]

  -- Input from fp[i - 1], unless the command is the first.
  unfoldable pub connect_input : List (ℕ × ℕ) → ℕ → D.Files → Run D.Files
  connect_input fp zero t = ok t
  connect_input fp (suc i) t = elim (get_elem? fp i) [ none ↦ fault | some p ↦ redirect t p.0 0 ]

  -- Output of the last command to the file, if there is one.
  unfoldable pub save_output : Option Text → D.Files → Run D.Files
  save_output none t = ok t
  save_output (some path) t = elim (D.open_file t path) [
    | none ↦ panic
    | some opened ↦ do t' ← redirect opened.1 opened.0 1; ok (D.close t' opened.0)
  ]

  -- Output to fp[i], or of the last command.
  unfoldable pub connect_output : (count i : ℕ) → List (ℕ × ℕ) → Option Text → D.Files → Run D.Files
  connect_output count i fp outfile t =
      if suc i == count
      then save_output outfile t
      else elim (get_elem? fp i) [ none ↦ fault | some p ↦ redirect t p.1 1 ]

  -- The descriptors of child i of `count` when it calls execve.
  unfoldable pub child : (count i : ℕ) → List (ℕ × ℕ) → Option Text → D.Files → Run D.Files
  child count i fp outfile t = do
    t1 ← connect_input fp i t
    t2 ← connect_output count i fp outfile t1
    ok (close_pipes fp t2)

  -- The children from child i on.
  unfoldable pub children :
      (n count i : ℕ) → List (ℕ × ℕ) → Option Text → D.Files → List (Run D.Files)
  children zero count i fp outfile t = []
  children (suc n) count i fp outfile t =
      child count i fp outfile t ∷ children n count (suc i) fp outfile t

  -- The descriptors of the children and, behind the loop, of the shell.
  unfoldable pub pipeline :
      (commands : List (List Text)) → Option Text → D.Files → Run (List (Run D.Files) × D.Files)
  pipeline commands outfile t = do
    made ← make_pipes (length commands - 1) 0 t
    ok (
      children (length commands) (length commands) 0 made.0 outfile made.1,
      close_pipes made.0 made.1,
    )
