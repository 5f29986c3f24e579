-- ===== src/Shell/Control/Foreground.antt =====
-- The job in the foreground of lab-4-shell/csapsh.c, over every interleaving of commands, signals
-- and the wait.
use snu_2021_fall_sys_prog.Common.{
  ℕ, ◌≡◌, ◌≢◌, ◌⊎◌, ◌∙◌, refl, inl, inr, true, Option, none, some, List, [], ◌∷◌, arith, ◌==◌, All,
  Bool-cases, Option-cases, ==→eq, some_eq, subst, sym,
}
use snu_2021_fall_sys_prog.Common.Run.{ok, fault, ok_eq}
use snu_2021_fall_sys_prog.Shell.Jobs.{
  Job, JobState, Table, new_job, foreground, background, stopped, fill_slot, addjob, deletejob,
  clear_slot, set_slot, fgpid, cleared,
}
use snu_2021_fall_sys_prog.Shell.Control.{
  Status, exited, stopped_by_signal, killed, reap, stop_job, sigchld_handler, do_bgfg, waitfg_done,
  named_job, set_state,
}
use snu_2021_fall_sys_prog.Shell.Jobs.Lookup.{Absent}

set_slot-Absent :
    (pid : ℕ) (state : JobState) (jobs : List Job)
    → Absent pid jobs
    → set_slot pid state jobs ≡ none
unfolding set_slot
set_slot-Absent pid state [] a = refl
set_slot-Absent pid state (j ∷ jobs) a = ground (arith, a.0, set_slot-Absent pid state jobs a.1)

-- Stopping a process that is no job: the handler writes through a NULL pointer.
pub sigchld-faults :
    (pid : ℕ) (rest : List (ℕ × Status)) (t : Table)
    → Absent pid t.jobs
    → sigchld_handler ((pid, stopped_by_signal) ∷ rest) t ≡ fault
unfolding sigchld_handler reap stop_job
sigchld-faults pid rest t a = ground (arith, set_slot-Absent pid stopped t.jobs a)

-- The shell between two events: its job list, and the process that waitfg waits for, if any.
pub record Shell : Type 0 where
  pub table : Table
  pub waiting : Option ℕ

-- One event. eval and do_bgfg run only while the shell does not wait; a child may be reaped at any
-- time; the wait ends when its test says so.
pub data Step (s : Shell) : Shell → Type 0 where
  launch_fg :
      (pid : ℕ) (cmdline : List ℕ)
      → s.waiting ≡ none
      → Step s (record { table = (addjob pid foreground cmdline s.table).1; waiting = some pid })
  launch_bg :
      (pid : ℕ) (cmdline : List ℕ)
      → s.waiting ≡ none
      → Step s (record { table = (addjob pid background cmdline s.table).1; waiting = none })
  child :
      (pid : ℕ) (status : Status) (t : Table)
      → reap pid status s.table ≡ ok t
      → Step s (record { table = t; waiting = s.waiting })
  continue_bg :
      (arg : Option (List ℕ))
      → s.waiting ≡ none
      → Step s (record { table = (do_bgfg background arg s.table).1; waiting = none })
  continue_fg :
      (arg : List ℕ) (job : Job)
      → s.waiting ≡ none
      → named_job arg s.table ≡ some job
      → Step s
          (record { table = (do_bgfg foreground (some arg) s.table).1; waiting = some job.pid })
  wake :
      (pid : ℕ)
      → s.waiting ≡ some pid
      → waitfg_done pid s.table ≡ true
      → Step s (record { table = s.table; waiting = none })

pub data Reach (s : Shell) : Shell → Type 0 where
  here : Reach s s
  next : {t u : Shell} → Reach s t → Step t u → Reach s u

-- A job may be in the foreground only if the shell waits for it.
abbrev pub Allowed : Option ℕ → Job → Type 0
Allowed none j = j.state ≢ foreground
Allowed (some pid) j = j.state ≡ foreground → j.pid ≡ pid

abbrev pub IsOrderly : Shell → Type 0
IsOrderly s = All (Allowed s.waiting) s.table.jobs

-- A predicate of all slots, under the writes to one slot.
module _ (P : Job → Type 0) where
  All-fill :
      (job : Job) (jobs new : List Job)
      → P job
      → All P jobs
      → fill_slot job jobs ≡ some new
      → All P new
  unfolding fill_slot
  All-fill job [] new p a e = cc
  All-fill job (j ∷ jobs) new p a e = elim (Bool-cases (j.pid == 0)) [
    | inl unused ↦ subst (All P) (some_eq (rw unused at e)) (p, a.1)
    | inr used ↦ elim (Option-cases (fill_slot job jobs)) [
      | inl full ↦ cc (rw (used, full) at e)
      | inr (js, filled) ↦
          subst (All P) (some_eq (rw (used, filled) at e)) (a.0, All-fill job jobs js p a.1 filled)
    ]
  ]

  All-clear :
      (pid : ℕ) (jobs new : List Job)
      → P cleared
      → All P jobs
      → clear_slot pid jobs ≡ some new
      → All P new
  unfolding clear_slot
  All-clear pid [] new p a e = cc
  All-clear pid (j ∷ jobs) new p a e = elim (Bool-cases (j.pid == pid)) [
    | inl hit ↦ subst (All P) (some_eq (rw hit at e)) (p, a.1)
    | inr miss ↦ elim (Option-cases (clear_slot pid jobs)) [
      | inl nothing ↦ cc (rw (miss, nothing) at e)
      | inr (js, gone) ↦
          subst (All P) (some_eq (rw (miss, gone) at e)) (a.0, All-clear pid jobs js p a.1 gone)
    ]
  ]

  All-set_slot :
      (pid : ℕ) (state : JobState) (jobs new : List Job)
      → ((j : Job) → j.pid ≡ pid → P (record j { state = state }))
      → All P jobs
      → set_slot pid state jobs ≡ some new
      → All P new
  unfolding set_slot
  All-set_slot pid state [] new p a e = cc
  All-set_slot pid state (j ∷ jobs) new p a e = elim (Bool-cases (j.pid == pid)) [
    | inl hit ↦ subst (All P) (some_eq (rw hit at e)) (p j (==→eq j.pid pid hit), a.1)
    | inr miss ↦ elim (Option-cases (set_slot pid state jobs)) [
      | inl nothing ↦ cc (rw (miss, nothing) at e)
      | inr (js, gone) ↦
          subst (All P) (some_eq (rw (miss, gone) at e))
            (a.0, All-set_slot pid state jobs js p a.1 gone)
    ]
  ]

  All-addjob :
      (pid : ℕ) (state : JobState) (cmdline : List ℕ) (t : Table)
      → P (new_job pid t.next_jid state cmdline)
      → All P t.jobs
      → All P (addjob pid state cmdline t).1.jobs
  unfolding addjob
  All-addjob pid state cmdline t p a = elim (Bool-cases (pid == 0)) [
    | inl z ↦ rw z a
    | inr nz ↦ elim (Option-cases (fill_slot (new_job pid t.next_jid state cmdline) t.jobs)) [
      | inl full ↦ rw (nz, full) a
      | inr (js, filled) ↦
          rw (nz, filled) (All-fill (new_job pid t.next_jid state cmdline) t.jobs js p a filled)
    ]
  ]

  All-deletejob : (pid : ℕ) (t : Table) → P cleared → All P t.jobs → All P (deletejob pid t).1.jobs
  unfolding deletejob
  All-deletejob pid t p a = elim (Bool-cases (pid == 0)) [
    | inl z ↦ rw z a
    | inr nz ↦ elim (Option-cases (clear_slot pid t.jobs)) [
      | inl nothing ↦ rw (nz, nothing) a
      | inr (js, gone) ↦ rw (nz, gone) (All-clear pid t.jobs js p a gone)
    ]
  ]

Allowed-cleared : (w : Option ℕ) → Allowed w cleared
Allowed-cleared none = λ e. cc
Allowed-cleared (some p) = λ e. cc

Allowed-stopped : (w : Option ℕ) (j : Job) → Allowed w (record j { state = stopped })
Allowed-stopped none j = λ e. cc
Allowed-stopped (some p) j = λ e. cc

weaken : (pid : ℕ) (jobs : List Job) → All (Allowed none) jobs → All (Allowed (some pid)) jobs
weaken pid [] a = tt
weaken pid (j ∷ jobs) a = ((λ e. absurd (a.0 e)), weaken pid jobs a.1)

foreground-cases : (s : JobState) → (s ≡ foreground) ⊎ (s ≢ foreground)
foreground-cases foreground = inl refl
foreground-cases _ = inr (λ e. cc)

fgpid-skip : (j : Job) (jobs : List Job) → j.state ≢ foreground → fgpid (j ∷ jobs) ≡ fgpid jobs
unfolding fgpid
fgpid-skip j jobs ne = ground arith

-- When the test of waitfg ends the wait, no job is in the foreground.
none_left :
    (pid : ℕ) (jobs : List Job)
    → All (Allowed (some pid)) jobs
    → fgpid jobs ≢ pid
    → All (Allowed none) jobs
unfolding fgpid
none_left pid [] a ne = tt
none_left pid (j ∷ jobs) a ne = elim (foreground-cases j.state) [
  | inl fg ↦ absurd (ne (ground (arith, a.0 fg)))
  | inr other ↦ (other, none_left pid jobs a.1 (λ e. ne (fgpid-skip j jobs other ∙ e)))
]

reap-Allowed :
    (w : Option ℕ) (pid : ℕ) (status : Status) (t u : Table)
    → All (Allowed w) t.jobs
    → reap pid status t ≡ ok u
    → All (Allowed w) u.jobs
unfolding reap stop_job
reap-Allowed w pid exited t u a e =
    subst (λ (x : Table). All (Allowed w) x.jobs) (ok_eq e)
      (All-deletejob (Allowed w) pid t (Allowed-cleared w) a)
reap-Allowed w pid (killed n) t u a e =
    subst (λ (x : Table). All (Allowed w) x.jobs) (ok_eq e)
      (All-deletejob (Allowed w) pid t (Allowed-cleared w) a)
reap-Allowed w pid stopped_by_signal t u a e = elim (Bool-cases (pid == 0)) [
  | inl z ↦ cc (rw z at e)
  | inr nz ↦ elim (Option-cases (set_slot pid stopped t.jobs)) [
    | inl nothing ↦ cc (rw (nz, nothing) at e)
    | inr (js, done) ↦
        subst (λ (x : Table). All (Allowed w) x.jobs) (ok_eq (rw (nz, done) at e))
          (All-set_slot (Allowed w) pid stopped t.jobs js (λ j same. Allowed-stopped w j) a done)
  ]
]

set_state-Allowed :
    (w : Option ℕ) (job : Job) (state : JobState) (t : Table)
    → ((j : Job) → j.pid ≡ job.pid → Allowed w (record j { state = state }))
    → All (Allowed w) t.jobs
    → All (Allowed w) (set_state job state t).jobs
unfolding set_state
set_state-Allowed w job state t p a = elim (Option-cases (set_slot job.pid state t.jobs)) [
  | inl nothing ↦
      let e : set_state job state t ≡ t = ground (arith, nothing) in
      subst (λ (x : Table). All (Allowed w) x.jobs) (sym e) a
  | inr (js, done) ↦
      let e : set_state job state t ≡ record t { jobs = js } = ground (arith, done) in
      subst (λ (x : Table). All (Allowed w) x.jobs) (sym e)
        (All-set_slot (Allowed w) job.pid state t.jobs js p a done)
]

do_bgfg-found :
    (state : JobState) (arg : List ℕ) (job : Job) (t : Table)
    → named_job arg t ≡ some job
    → set_state job state t ≡ (do_bgfg state (some arg) t).1
unfolding do_bgfg
do_bgfg-found state arg job t e = ground (arith, e)

do_bgfg-unknown :
    (state : JobState) (arg : List ℕ) (t : Table)
    → named_job arg t ≡ none
    → t ≡ (do_bgfg state (some arg) t).1
unfolding do_bgfg
do_bgfg-unknown state arg t e = ground (arith, e)

Step-IsOrderly : {s u : Shell} → Step s u → IsOrderly s → IsOrderly u
unfolding waitfg_done do_bgfg
Step-IsOrderly {s} (launch_fg pid cmdline idle) h =
    All-addjob (Allowed (some pid)) pid foreground cmdline s.table (λ e. refl)
      (weaken pid s.table.jobs (rw idle at h))
Step-IsOrderly {s} (launch_bg pid cmdline idle) h =
    All-addjob (Allowed none) pid background cmdline s.table (λ e. cc) (rw idle at h)
Step-IsOrderly {s} (child pid status t e) h = reap-Allowed s.waiting pid status s.table t h e
Step-IsOrderly {s} (continue_bg none idle) h = rw idle at h
Step-IsOrderly {s} (continue_bg (some arg) idle) h = elim (Option-cases (named_job arg s.table)) [
  | inl unknown ↦
      subst (λ (t : Table). All (Allowed none) t.jobs)
        (do_bgfg-unknown background arg s.table unknown) (rw idle at h)
  | inr (job, named) ↦
      subst (λ (t : Table). All (Allowed none) t.jobs)
        (do_bgfg-found background arg job s.table named)
        (set_state-Allowed none job background s.table (λ j same e. cc) (rw idle at h))
]
Step-IsOrderly {s} (continue_fg arg job idle named) h =
    subst (λ (t : Table). All (Allowed (some job.pid)) t.jobs)
      (do_bgfg-found foreground arg job s.table named)
      (set_state-Allowed (some job.pid) job foreground s.table (λ j same e. same)
        (weaken job.pid s.table.jobs (rw idle at h)))
Step-IsOrderly {s} (wake pid e done) h =
    none_left pid s.table.jobs (rw e at h) (λ same. ground arith)

-- From a shell in which no job is in the foreground unless the shell waits for it, every sequence
-- of launches, fg and bg commands, terminated or stopped children and ends of waits leads to such a
-- shell: when the shell does not wait no job is in the foreground, and while it waits for a process
-- only that process's job is.
pub Reach-IsOrderly : {s u : Shell} → Reach s u → IsOrderly s → IsOrderly u
Reach-IsOrderly here h = h
Reach-IsOrderly (next r step) h = Step-IsOrderly step (Reach-IsOrderly r h)
