-- ===== src/Shell/Jobs.antt =====
-- lab-4-shell/csapsh.c: the job list. A process ID is a natural number (the callers handle the
-- negative results of fork and waitpid), so `pid < 1` is `pid == 0`. Text is a list of characters.
pub mod Lookup
pub mod Identifiers
use snu_2021_fall_sys_prog.Common.{
  ℕ, zero, suc, ◌+◌, ◌-◌, Bool, true, false, Option, none, some, List, [], ◌∷◌, ltb, ◌==◌, map,
  if◌then◌else◌, replicate, take,
}

-- MAXLINE and MAXJOBS
abbrev pub max_line : ℕ
max_line = 1024

abbrev pub max_jobs : ℕ
max_jobs = 16

-- UNDEF, FG, BG and ST
pub data JobState : Type 0 where
  undefined foreground background stopped : JobState

pub record Job : Type 0 where
  pub pid : ℕ
  pub jid : ℕ
  pub state : JobState
  pub cmdline : List ℕ

-- The globals `jobs` and `nextjid`.
pub record Table : Type 0 where
  pub jobs : List Job
  pub next_jid : ℕ

-- clearjob
abbrev pub cleared : Job
cleared = record { pid = 0; jid = 0; state = undefined; cmdline = [] }

-- initjobs, over an array of any length
pub initjobs : List Job → List Job
initjobs jobs = map (λ j. cleared) jobs

-- The loop of maxjid, with the maximum so far.
unfoldable pub maxjid_from : ℕ → List Job → ℕ
maxjid_from top [] = top
maxjid_from top (j ∷ jobs) = maxjid_from (if ltb top j.jid then j.jid else top) jobs

unfoldable pub maxjid : List Job → ℕ
unfolding maxjid_from
maxjid jobs = maxjid_from 0 jobs

-- The loop of addjob: `job` goes into the first slot whose pid is 0; `none` if there is none.
unfoldable pub fill_slot : Job → List Job → Option (List Job)
fill_slot job [] = none
fill_slot job (j ∷ jobs) =
    let rest = fill_slot job jobs in
    if j.pid == 0 then some (job ∷ jobs) else elim rest [ none ↦ none | some js ↦ some (j ∷ js) ]

-- The job that addjob writes: strncpy copies at most MAXLINE - 1 characters.
abbrev pub new_job : (pid jid : ℕ) → JobState → List ℕ → Job
new_job pid jid state cmdline = record {
  pid = pid;
  jid = jid;
  state = state;
  cmdline = take (max_line - 1) cmdline;
}

-- nextjid++, and back to 1 above MAXJOBS
abbrev pub following : ℕ → ℕ
following jid = if ltb max_jobs (jid + 1) then 1 else jid + 1

unfoldable pub addjob : (pid : ℕ) → JobState → List ℕ → Table → Bool × Table
unfolding fill_slot
addjob pid state cmdline t =
    if pid == 0
    then (false, t)
    else elim (fill_slot (new_job pid t.next_jid state cmdline) t.jobs) [
      | none ↦ (false, t)
      | some jobs ↦ (true, record { jobs = jobs; next_jid = following t.next_jid })
    ]

-- The loop of deletejob: the first slot with the pid is cleared.
unfoldable pub clear_slot : ℕ → List Job → Option (List Job)
clear_slot pid [] = none
clear_slot pid (j ∷ jobs) =
    let rest = clear_slot pid jobs in
    if j.pid == pid
    then some (cleared ∷ jobs)
    else elim rest [ none ↦ none | some js ↦ some (j ∷ js) ]

unfoldable pub deletejob : ℕ → Table → Bool × Table
unfolding clear_slot
deletejob pid t = if pid == 0 then (false, t) else elim (clear_slot pid t.jobs) [
  | none ↦ (false, t)
  | some jobs ↦ (true, record { jobs = jobs; next_jid = maxjid jobs + 1 })
]

-- fgpid: the pid of the first job in the foreground, 0 if there is none.
unfoldable pub fgpid : List Job → ℕ
fgpid [] = 0
fgpid (j ∷ jobs) = let rest = fgpid jobs in elim j.state [ foreground ↦ j.pid | _ ↦ rest ]

-- The loops of getjobpid, getjobjid and pid2jid.
unfoldable pub find_pid : ℕ → List Job → Option Job
find_pid pid [] = none
find_pid pid (j ∷ jobs) = let rest = find_pid pid jobs in if j.pid == pid then some j else rest

unfoldable pub find_jid : ℕ → List Job → Option Job
find_jid jid [] = none
find_jid jid (j ∷ jobs) = let rest = find_jid jid jobs in if j.jid == jid then some j else rest

unfoldable pub getjobpid : ℕ → List Job → Option Job
unfolding find_pid
getjobpid pid jobs = if pid == 0 then none else find_pid pid jobs

unfoldable pub getjobjid : ℕ → List Job → Option Job
unfolding find_jid
getjobjid jid jobs = if jid == 0 then none else find_jid jid jobs

unfoldable pub pid2jid : ℕ → List Job → ℕ
unfolding find_pid
pid2jid pid jobs = if pid == 0 then 0 else elim (find_pid pid jobs) [ none ↦ 0 | some j ↦ j.jid ]

-- `getjobpid(jobs, pid)->state = state`: a write into the job's slot, `none` at a NULL pointer.
unfoldable pub set_slot : (pid : ℕ) → JobState → List Job → Option (List Job)
set_slot pid state [] = none
set_slot pid state (j ∷ jobs) =
    let rest = set_slot pid state jobs in
    if j.pid == pid
    then some (record j { state = state } ∷ jobs)
    else elim rest [ none ↦ none | some js ↦ some (j ∷ js) ]

-- listjobs prints the occupied slots, in order.
unfoldable pub listjobs : List Job → List Job
listjobs [] = []
listjobs (j ∷ jobs) = if j.pid == 0 then listjobs jobs else j ∷ listjobs jobs
