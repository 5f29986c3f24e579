-- ===== src/Shell/Control.antt =====
-- lab-4-shell/csapsh.c: signal handlers, the built-in commands fg and bg, and waitfg.
-- A handler returns the job list and, for sigint_handler and sigtstp_handler, the process group
-- that the signal is sent to. What waitpid returns is a list of process IDs and statuses, ended by
-- its first result that is not positive. Text is a list of character codes, without the final 0.
pub mod Foreground
use snu_2021_fall_sys_prog.Common.{
  ℕ, zero, suc, ◌+◌, ◌*◌, ◌-◌, ◌&&◌, ◌||◌, Bool, true, false, Option, none, some, List, [], ◌∷◌,
  leb, ◌==◌, if◌then◌else◌,
}
use snu_2021_fall_sys_prog.Common.Run.{Run, ok, fault, ◌>>=◌}
use snu_2021_fall_sys_prog.Shell.Jobs.{
  Job, JobState, Table, foreground, background, stopped, deletejob, fgpid, getjobpid, getjobjid,
  set_slot,
}

-- WIFEXITED, WIFSTOPPED and WIFSIGNALED with WTERMSIG
pub data Status : Type 0 where
  exited : Status
  stopped_by_signal : Status
  killed : ℕ → Status

-- `getjobpid(jobs, pid)->state = ST`: getjobpid returns NULL for a process that is no job.
unfoldable pub stop_job : ℕ → Table → Run Table
stop_job pid t = if pid == 0 then fault else elim (set_slot pid stopped t.jobs) [
  | none ↦ fault
  | some jobs ↦ ok (record t { jobs = jobs })
]

-- One round of the loop of sigchld_handler.
unfoldable pub reap : ℕ → Status → Table → Run Table
reap pid exited t = ok (deletejob pid t).1
reap pid stopped_by_signal t = stop_job pid t
reap pid (killed n) t = ok (deletejob pid t).1

unfoldable pub sigchld_handler : List (ℕ × Status) → Table → Run Table
sigchld_handler [] t = ok t
sigchld_handler ((pid, status) ∷ rest) t = do t' ← reap pid status t; sigchld_handler rest t'

-- sigint_handler and sigtstp_handler: kill(-pid, sig) for the job in the foreground.
unfoldable pub forward_signal : Table → Option ℕ
forward_signal t = if fgpid t.jobs == 0 then none else some (fgpid t.jobs)

-- isdigit, and atoi on digits
abbrev pub is_digit : ℕ → Bool
is_digit c = leb b'0' c && leb c b'9'

unfoldable pub all_digits : List ℕ → Bool
all_digits [] = true
all_digits (c ∷ cs) = is_digit c && all_digits cs

unfoldable pub atoi_from : ℕ → List ℕ → ℕ
atoi_from n [] = n
atoi_from n (c ∷ cs) = atoi_from (n * 10 + (c - b'0')) cs

-- getPIDJID on argv[1]
unfoldable pub get_pid_jid : List ℕ → ℕ
unfolding all_digits atoi_from
get_pid_jid [] = 0
get_pid_jid (c ∷ cs) =
    if is_digit c
    then (if all_digits cs then atoi_from 0 (c ∷ cs) else 0)
    else if c == b'%' && all_digits cs
    then atoi_from 0 cs
    else 0

-- argv[1][0] == '%'
unfoldable pub is_jid : List ℕ → Bool
is_jid [] = false
is_jid (c ∷ cs) = c == b'%'

-- The job that the argument names.
unfoldable pub named_job : List ℕ → Table → Option Job
unfolding get_pid_jid is_jid
named_job arg t =
    if is_jid arg then getjobjid (get_pid_jid arg) t.jobs else getjobpid (get_pid_jid arg) t.jobs

-- What do_bgfg prints or does: a message, or SIGCONT to the group of the job.
pub data Reply : Type 0 where
  argument_required : Reply
  no_such_job : ℕ → Reply
  no_such_process : ℕ → Reply
  continued : Job → Reply

-- The write through the job pointer goes to the slot with the job's pid.
unfoldable pub set_state : Job → JobState → Table → Table
set_state job state t = elim (set_slot job.pid state t.jobs) [
  | none ↦ t
  | some jobs ↦ record t { jobs = jobs }
]

-- do_bgfg for "bg" (`state` is BG) and for "fg" (`state` is FG), before waitfg.
unfoldable pub do_bgfg : JobState → Option (List ℕ) → Table → Reply × Table
do_bgfg state none t = (argument_required, t)
do_bgfg state (some arg) t = elim (named_job arg t) [
  | none ↦
      (if is_jid arg then no_such_job (get_pid_jid arg) else no_such_process (get_pid_jid arg), t)
  | some job ↦ (continued job, set_state job state t)
]

-- The test that ends the loop of waitfg.
unfoldable pub waitfg_done : ℕ → Table → Bool
waitfg_done pid t = if fgpid t.jobs == pid then false else true
