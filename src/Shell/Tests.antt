-- ===== src/Shell/Tests.antt =====
-- The theorems on lab-4-shell/csapsh.c at concrete job lists, and runs of the job list.
use snu_2021_fall_sys_prog.Common.{
  newline, ℕ, ◌+◌, ◌<◌, ◌≡◌, refl, inl, inr, none, some, List, [], ◌∷◌, arith, All, replicate, zero,
  true, suc, map,
}
use snu_2021_fall_sys_prog.Common.Run.{ok, Returns, fault, out_of_fuel}
use snu_2021_fall_sys_prog.Shell.Parser.{
  Text, parsed, failed, parseline, parse_loop, at_newline, round, skip_whitespace, read_argument,
  scan_argument, open_quote, isdelim, close_quote, store_argument, finish, given, commands,
}
use snu_2021_fall_sys_prog.Shell.Parser.Commands.{Usable}
use snu_2021_fall_sys_prog.Shell.Parser.Ending.{parseline-Usable}
use snu_2021_fall_sys_prog.Shell.Parser.Grammar.{bare, quoted, CommandLine, print_line, meaning_of}
use snu_2021_fall_sys_prog.Shell.Parser.RoundTrip.{parseline-print_line}
use snu_2021_fall_sys_prog.Shell.Jobs.{
  Job, Table, foreground, background, cleared, addjob, deletejob, getjobpid,
}
use snu_2021_fall_sys_prog.Shell.Jobs.Lookup.{Distinct, addjob-getjobpid, deletejob-getjobpid}
use snu_2021_fall_sys_prog.Shell.Jobs.Identifiers.{deletejob-next_jid}
use snu_2021_fall_sys_prog.Shell.Control.{stopped_by_signal, sigchld_handler}
use snu_2021_fall_sys_prog.Shell.Control.Foreground.{
  Shell, IsOrderly, here, next, launch_fg, sigchld-faults, Reach-IsOrderly,
}

abbrev job : (pid jid : ℕ) → Job
job pid jid = record { pid = pid; jid = jid; state = background; cmdline = [] }

-- One running job in a list of three slots.
abbrev one_job : Table
one_job = record { jobs = job 100 1 ∷ cleared ∷ cleared ∷ []; next_jid = 2 }

addjob-getjobpid_example :
    (getjobpid 100 (addjob 200 foreground [] one_job).1.jobs ≡ getjobpid 100 one_job.jobs)
    × Distinct (addjob 200 foreground [] one_job).1.jobs
addjob-getjobpid_example =
    addjob-getjobpid 200 100 foreground [] one_job
      ((λ ne. (omega arith, (omega arith, tt))), ((λ ne. (absurd (ne refl))), ((λ ne. tt), tt)))
      (omega arith, (omega arith, (omega arith, tt))) (unfold addjob in refl)

deletejob-getjobpid_example :
    (getjobpid 100 (deletejob 100 one_job).1.jobs ≡ none) × Distinct (deletejob 100 one_job).1.jobs
deletejob-getjobpid_example =
    deletejob-getjobpid 100 100 one_job
      ((λ ne. (omega arith, (omega arith, tt))), ((λ ne. absurd (ne refl)), ((λ ne. tt), tt)))

deletejob-next_jid_example :
    All (λ j. j.jid < (deletejob 100 one_job).1.next_jid) (deletejob 100 one_job).1.jobs
deletejob-next_jid_example = deletejob-next_jid 100 one_job (unfold deletejob in refl)

sigchld-faults_example : sigchld_handler ((300, stopped_by_signal) ∷ []) one_job ≡ fault
sigchld-faults_example =
    sigchld-faults 300 [] one_job (omega arith, (omega arith, (omega arith, tt)))

abbrev prompt : Shell
prompt = record { table = one_job; waiting = none }

abbrev running : Shell
running = record { table = (addjob 200 foreground [] one_job).1; waiting = some 200 }

Reach-IsOrderly_example : IsOrderly running
Reach-IsOrderly_example =
    Reach-IsOrderly {s = prompt} (next here (launch_fg 200 [] refl))
      ((λ e. cc), ((λ e. cc), ((λ e. cc), tt)))

-- The job IDs after 16 launches, ten deletions and two more launches: two jobs have the ID 1.
launch : ℕ → Table → Table
unfolding addjob
launch pid t = (addjob pid background [] t).1

launches : ℕ → Table → Table
launches zero t = t
launches (suc n) t = launches n (launch (n + 100) t)

deletes : ℕ → Table → Table
deletes zero t = t
deletes (suc n) t = deletes n (deletejob (n + 101) t).1

after_wrap : List ℕ
unfolding launch launches deletes deletejob
after_wrap =
    map (λ j. j.jid)
      (launch 500 (
        launch 400
          (deletes 10 (launches 16 (record { jobs = replicate 16 cleared; next_jid = 1 }))))).jobs

-- a b|c 'd >'>e &
abbrev line : Text
line =
    b'a' ∷ b' ' ∷ b'b' ∷ b'|' ∷ b'c' ∷ b' ' ∷ b'\'' ∷ b'd' ∷ b' ' ∷ b'>' ∷ b'\'' ∷ b'>' ∷ b'e'
    ∷ b' ' ∷ b'&' ∷ newline ∷ []

parses :
    parseline line
    ≡ ok (
        parsed
          (((b'a' ∷ []) ∷ (b'b' ∷ []) ∷ []) ∷ ((b'c' ∷ []) ∷ (b'd' ∷ b' ' ∷ b'>' ∷ []) ∷ []) ∷ [])
          (some (b'e' ∷ []))
          background)
unfolding parseline parse_loop at_newline round skip_whitespace read_argument scan_argument
    open_quote isdelim close_quote store_argument finish given commands
parses = refl

-- a|
pipe_at_end : parseline (b'a' ∷ b'|' ∷ newline ∷ []) ≡ ok (failed (newline ∷ []) 0)
unfolding parseline parse_loop at_newline round skip_whitespace read_argument scan_argument
    open_quote isdelim close_quote store_argument finish given commands
pipe_at_end = refl

-- A line without newline: the model's loop uses up its rounds, and an open quote leaves the line.
no_newline : parseline (b'a' ∷ []) ≡ out_of_fuel
unfolding parseline parse_loop at_newline round skip_whitespace read_argument scan_argument
    open_quote isdelim close_quote store_argument finish given commands
no_newline = refl

open_quote_at_end : parseline (b'"' ∷ b'a' ∷ []) ≡ fault
unfolding parseline parse_loop at_newline round skip_whitespace read_argument scan_argument
    open_quote isdelim close_quote store_argument finish given commands
open_quote_at_end = refl

parseline-Usable_example : Returns (Usable 4) (parseline (b'a' ∷ b'|' ∷ b'b' ∷ newline ∷ []))
parseline-Usable_example =
    parseline-Usable (b'a' ∷ b'|' ∷ b'b' ∷ newline ∷ [])
      (inr (omega arith, inr (omega arith, inr (omega arith, inl refl))))

-- a "b |" | c > d &
abbrev full_line : CommandLine
full_line = record {
  command = record { name = bare (b'a' ∷ []); args = quoted b'"' (b'b' ∷ b' ' ∷ b'|' ∷ []) ∷ [] };
  piped = record { name = bare (b'c' ∷ []); args = [] } ∷ [];
  ioredir = some (bare (b'd' ∷ []));
  in_background = true;
}

parseline-print_line_example : parseline (print_line full_line) ≡ ok (meaning_of full_line)
unfolding isdelim
parseline-print_line_example = parseline-print_line full_line (
  (
    (
      (λ e. omega (arith, e), λ e. omega (arith, e), λ e. omega (arith, e)),
      ((λ e. omega (arith, e), refl), tt),
    ),
    (
      (
        inr refl,
        (
          (λ e. omega (arith, e), λ e. omega (arith, e)),
          (
            (λ e. omega (arith, e), λ e. omega (arith, e)),
            ((λ e. omega (arith, e), λ e. omega (arith, e)), tt),
          ),
        ),
      ),
      tt,
    ),
  ),
  (
    (
      (
        (λ e. omega (arith, e), λ e. omega (arith, e), λ e. omega (arith, e)),
        ((λ e. omega (arith, e), refl), tt),
      ),
      tt,
    ),
    tt,
  ),
  (
    (λ e. omega (arith, e), λ e. omega (arith, e), λ e. omega (arith, e)),
    ((λ e. omega (arith, e), refl), tt),
  ),
)
