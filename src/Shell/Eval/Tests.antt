-- ===== src/Shell/Eval/Tests.antt =====
-- Pipelines and command lines of lab-4-shell/csapsh.c with concrete descriptors.
use snu_2021_fall_sys_prog.Common.{
  newline, ℕ, ◌-◌, ◌+◌, ◌≡◌, Option, refl, inl, inr, none, some, List, [], ◌∷◌, arith,
}
use snu_2021_fall_sys_prog.Common.Run.{Run, ok, ◌>>=◌, Returns}
use snu_2021_fall_sys_prog.Shell.Jobs.{Table, cleared}
use snu_2021_fall_sys_prog.Shell.Control.{exited}
use snu_2021_fall_sys_prog.Shell.Parser.{Text}
use snu_2021_fall_sys_prog.Shell.Pipeline.{
  make_pipes, close_pipes, redirect, connect_input, connect_output, save_output, child,
}
use snu_2021_fall_sys_prog.Shell.Pipeline.Memory.{
  Changes, Stream, terminal, read_end, write_end, saved, stream_of, memory, memory-IsLawful,
}
use snu_2021_fall_sys_prog.Shell.Pipeline.Wiring.{IsWired, make_pipes-child}
use snu_2021_fall_sys_prog.Shell.Main.{run_shell}
use snu_2021_fall_sys_prog.Shell.Main.Sessions.{SameFiles, run_shell-SameFiles}

-- A shell at a terminal, with no jobs.
abbrev at_terminal : Changes
at_terminal = (0, some terminal) ∷ (1, some terminal) ∷ (2, some terminal) ∷ []

abbrev no_jobs : Table
no_jobs = record { jobs = cleared ∷ cleared ∷ []; next_jid = 1 }

-- The descriptors 0 and 1 and the ends of the pipes of child i of `a | b | c > f`.
child_streams : ℕ → Run (List (Option Stream))
child_streams i = do
  made ← make_pipes memory 2 0 at_terminal
  u ← child memory 3 i made.0 (some (b'f' ∷ [])) made.1
  ok (stream_of u 0 ∷ stream_of u 1 ∷ stream_of u 6 ∷ stream_of u 7 ∷ stream_of u 22 ∷ [])

second_child :
    child_streams 1 ≡ ok (some (read_end 6) ∷ some (write_end 21) ∷ none ∷ none ∷ none ∷ [])
unfolding child_streams make_pipes close_pipes redirect connect_input connect_output save_output
    child
second_child = refl

last_child :
    child_streams 2 ≡ ok (some (read_end 21) ∷ some (saved (b'f' ∷ [])) ∷ none ∷ none ∷ none ∷ [])
unfolding child_streams make_pipes close_pipes redirect connect_input connect_output save_output
    child
last_child = refl

-- The last child of three commands with the output file "f".
make_pipes-child_example :
    Returns
      (λ made.
        Returns
          (λ u. IsWired memory at_terminal made.1 u made.0 3 2 (some (b'f' ∷ [])))
          (child memory 3 2 made.0 (some (b'f' ∷ [])) made.1))
      (make_pipes memory (3 - 1) 0 at_terminal)
make_pipes-child_example =
    make_pipes-child memory memory-IsLawful at_terminal 3 2 (some (b'f' ∷ [])) (λ e. cc (e))
      (λ e. cc (e)) (omega arith) (omega arith) (λ u e. cc (e)) (λ path v h e. cc (e))

-- a|b, quit
abbrev session : Text
session = b'a' ∷ b'|' ∷ b'b' ∷ newline ∷ b'q' ∷ b'u' ∷ b'i' ∷ b't' ∷ newline ∷ []

run_shell-SameFiles_example :
    Returns
      (λ s. SameFiles memory at_terminal s.files)
      (run_shell memory (λ n. n + 100) (λ n. (n + 100, exited) ∷ []) session at_terminal no_jobs)
run_shell-SameFiles_example =
    run_shell-SameFiles memory memory-IsLawful (λ n. n + 100) (λ n. (n + 100, exited) ∷ []) session
      at_terminal no_jobs (λ u e. cc (e))
      (inr (
        omega arith,
        omega arith,
        inr (
          omega arith,
          omega arith,
          inr (
            omega arith,
            omega arith,
            inl (
              refl,
              inr (
                omega arith,
                omega arith,
                inr (
                  omega arith,
                  omega arith,
                  inr (omega arith, omega arith, inr (omega arith, omega arith, inl (refl, tt))),
                ),
              ),
            ),
          ),
        ),
      ))
