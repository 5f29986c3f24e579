-- ===== src/Shell/Jobs/Lookup.antt =====
-- The job list of lab-4-shell/csapsh.c as a map from process IDs to jobs.
use snu_2021_fall_sys_prog.Common.{
  ℕ, ◌≡◌, ◌≢◌, refl, inl, inr, sym, subst, true, none, some, List, [], ◌∷◌, arith, ◌==◌,
  if◌then◌else◌, All, some_eq, ==→ne, Bool-cases, Option-cases,
}
use snu_2021_fall_sys_prog.Shell.Jobs.{
  Job, JobState, Table, new_job, addjob, deletejob, fill_slot, clear_slot, find_pid, getjobpid,
}

-- No slot has this pid.
abbrev pub Absent : ℕ → List Job → Type 0
Absent pid = All (λ j. j.pid ≢ pid)

-- The occupied slots have different pids.
abbrev pub Distinct : List Job → Type 0
Distinct [] = Unit
Distinct (j ∷ jobs) = (j.pid ≢ 0 → Absent j.pid jobs) × Distinct jobs

-- A job that is added is found under its pid, and the other pids give what they gave.
find-fill :
    (job : Job) (pid : ℕ) (jobs new : List Job)
    → job.pid ≢ 0
    → pid ≢ 0
    → Absent job.pid jobs
    → fill_slot job jobs ≡ some new
    → find_pid pid new ≡ (if job.pid == pid then some job else find_pid pid jobs)
unfolding fill_slot find_pid
find-fill job pid [] new ne nz a e = cc
find-fill job pid (j ∷ jobs) new ne nz a e = elim (Option-cases (fill_slot job jobs)) [
  | inl none_free ↦ ground (arith, a.0)
  | inr (js, filled) ↦ ground (arith, a.0, find-fill job pid jobs js ne nz a.1 filled)
]

find_pid-Absent : (pid : ℕ) (jobs : List Job) → Absent pid jobs → find_pid pid jobs ≡ none
unfolding find_pid
find_pid-Absent pid [] a = refl
find_pid-Absent pid (j ∷ jobs) a = ground (arith, a.0, find_pid-Absent pid jobs a.1)

find-clear :
    (pid other : ℕ) (jobs new : List Job)
    → pid ≢ 0
    → other ≢ 0
    → Distinct jobs
    → clear_slot pid jobs ≡ some new
    → find_pid other new ≡ (if pid == other then none else find_pid other jobs)
unfolding clear_slot find_pid
find-clear pid other [] new nz nz' d e = cc
find-clear pid other (j ∷ jobs) new nz nz' d e = elim (Bool-cases (j.pid == pid)) [
  | inl hit ↦ ground (arith, find_pid-Absent j.pid jobs (d.0 (ground arith)))
  | inr miss ↦ elim (Option-cases (clear_slot pid jobs)) [
    | inl nothing ↦ ground arith
    | inr (js, gone) ↦ ground (arith, find-clear pid other jobs js nz nz' d.1 gone)
  ]
]

-- What keeps the pids different.
Absent-fill :
    (q : ℕ) (job : Job) (jobs new : List Job)
    → job.pid ≢ q
    → Absent q jobs
    → fill_slot job jobs ≡ some new
    → Absent q new
unfolding fill_slot
Absent-fill q job [] new ne a e = cc
Absent-fill q job (j ∷ jobs) new ne a e = elim (Bool-cases (j.pid == 0)) [
  | inl unused ↦ subst (Absent q) (some_eq (rw unused at e)) (ne, a.1)
  | inr used ↦ elim (Option-cases (fill_slot job jobs)) [
    | inl full ↦ cc (rw (used, full) at e)
    | inr (js, filled) ↦
        subst (Absent q) (some_eq (rw (used, filled) at e))
          (a.0, Absent-fill q job jobs js ne a.1 filled)
  ]
]

Distinct-fill :
    (job : Job) (jobs new : List Job)
    → Absent job.pid jobs
    → Distinct jobs
    → fill_slot job jobs ≡ some new
    → Distinct new
unfolding fill_slot
Distinct-fill job [] new a d e = cc
Distinct-fill job (j ∷ jobs) new a d e = elim (Bool-cases (j.pid == 0)) [
  | inl unused ↦ subst Distinct (some_eq (rw unused at e)) ((λ ne. a.1), d.1)
  | inr used ↦ elim (Option-cases (fill_slot job jobs)) [
    | inl full ↦ cc (rw (used, full) at e)
    | inr (js, filled) ↦ subst Distinct (some_eq (rw (used, filled) at e)) (
      (λ ne. Absent-fill j.pid job jobs js (λ same. a.0 (sym same)) (d.0 ne) filled),
      Distinct-fill job jobs js a.1 d.1 filled,
    )
  ]
]

Absent-clear :
    (q pid : ℕ) (jobs new : List Job)
    → q ≢ 0
    → Absent q jobs
    → clear_slot pid jobs ≡ some new
    → Absent q new
unfolding clear_slot
Absent-clear q pid [] new ne a e = cc
Absent-clear q pid (j ∷ jobs) new ne a e = elim (Bool-cases (j.pid == pid)) [
  | inl hit ↦ subst (Absent q) (some_eq (rw hit at e)) ((λ z. ne (sym z)), a.1)
  | inr miss ↦ elim (Option-cases (clear_slot pid jobs)) [
    | inl nothing ↦ cc (rw (miss, nothing) at e)
    | inr (js, gone) ↦
        subst (Absent q) (some_eq (rw (miss, gone) at e))
          (a.0, Absent-clear q pid jobs js ne a.1 gone)
  ]
]

Distinct-clear :
    (pid : ℕ) (jobs new : List Job) → Distinct jobs → clear_slot pid jobs ≡ some new → Distinct new
unfolding clear_slot
Distinct-clear pid [] new d e = cc
Distinct-clear pid (j ∷ jobs) new d e = elim (Bool-cases (j.pid == pid)) [
  | inl hit ↦ subst Distinct (some_eq (rw hit at e)) ((λ ne. absurd (ne refl)), d.1)
  | inr miss ↦ elim (Option-cases (clear_slot pid jobs)) [
    | inl nothing ↦ cc (rw (miss, nothing) at e)
    | inr (js, gone) ↦ subst Distinct (some_eq (rw (miss, gone) at e)) (
      (λ ne. Absent-clear j.pid pid jobs js ne (d.0 ne) gone),
      Distinct-clear pid jobs js d.1 gone,
    )
  ]
]

-- After a successful addjob of a new pid the job list maps that pid to the new job, with the next
-- job ID, and every other pid to what it mapped it to; the pids are still different.
pub addjob-getjobpid :
    (pid other : ℕ) (state : JobState) (cmdline : List ℕ) (t : Table)
    → Distinct t.jobs
    → Absent pid t.jobs
    → (addjob pid state cmdline t).0 ≡ true
    → (getjobpid other (addjob pid state cmdline t).1.jobs ≡ (
        if pid == other
        then some (new_job pid t.next_jid state cmdline)
        else getjobpid other t.jobs))
      × Distinct (addjob pid state cmdline t).1.jobs
unfolding addjob getjobpid
addjob-getjobpid pid other state cmdline t d a added = elim (Bool-cases (pid == 0)) [
  | inl z ↦ cc (rw z at added)
  | inr nz ↦ elim (Option-cases (fill_slot (new_job pid t.next_jid state cmdline) t.jobs)) [
    | inl full ↦ cc (rw (nz, full) at added)
    | inr (js, filled) ↦
        rw (nz, filled)
          (
            ground (
              arith,
              nz,
              find-fill (new_job pid t.next_jid state cmdline) other t.jobs js (==→ne pid 0 nz),
            ),
            Distinct-fill (new_job pid t.next_jid state cmdline) t.jobs js a d filled,
          )
  ]
]

clear-none : (pid : ℕ) (jobs : List Job) → clear_slot pid jobs ≡ none → find_pid pid jobs ≡ none
unfolding clear_slot find_pid
clear-none pid [] e = refl
clear-none pid (j ∷ jobs) e =
    ground (arith, clear-none pid jobs, Option-cases (clear_slot pid jobs))

-- After deletejob the job list maps that pid to nothing, and every other pid to what it mapped it
-- to, whether or not there was a job with the pid; the pids are still different.
pub deletejob-getjobpid :
    (pid other : ℕ) (t : Table)
    → Distinct t.jobs
    → (getjobpid other (deletejob pid t).1.jobs
        ≡ (if pid == other then none else getjobpid other t.jobs))
      × Distinct (deletejob pid t).1.jobs
unfolding deletejob getjobpid
deletejob-getjobpid pid other t d = elim (Bool-cases (pid == 0)) [
  | inl z ↦ rw z (ground arith, d)
  | inr nz ↦ elim (Option-cases (clear_slot pid t.jobs)) [
    | inl nothing ↦ rw (nz, nothing) (ground (arith, nz, clear-none pid t.jobs nothing), d)
    | inr (js, gone) ↦
        rw (nz, gone)
          (
            ground (arith, nz, find-clear pid other t.jobs js (==→ne pid 0 nz)),
            Distinct-clear pid t.jobs js d gone,
          )
  ]
]
