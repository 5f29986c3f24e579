-- ===== src/Shell/Jobs/Identifiers.antt =====
-- Job IDs in the job list of lab-4-shell/csapsh.c.
use snu_2021_fall_sys_prog.Common.{
  ℕ, ◌+◌, ◌≤◌, ◌<◌, ◌≡◌, ◌≢◌, inl, inr, true, some, List, [], ◌∷◌, arith, ltb, ◌==◌, if◌then◌else◌,
  All, Bool-cases, Option-cases,
}
use snu_2021_fall_sys_prog.Shell.Jobs.{
  Job, JobState, Table, new_job, fill_slot, addjob, deletejob, clear_slot, maxjid, maxjid_from,
  find_jid, getjobjid,
}

maxjid_from-le : (top : ℕ) (jobs : List Job) → top ≤ maxjid_from top jobs
unfolding maxjid_from
maxjid_from-le top [] = omega arith
maxjid_from-le top (j ∷ jobs) =
    ground (arith, maxjid_from-le (if ltb top j.jid then j.jid else top) jobs)

All-le-maxjid_from : (top : ℕ) (jobs : List Job) → All (λ j. j.jid ≤ maxjid_from top jobs) jobs
unfolding maxjid_from
All-le-maxjid_from top [] = tt
All-le-maxjid_from top (j ∷ jobs) =
    let next : ℕ = if ltb top j.jid then j.jid else top in
    (ground (arith, maxjid_from-le next jobs), All-le-maxjid_from next jobs)

All-suc : (n : ℕ) (jobs : List Job) → All (λ j. j.jid ≤ n) jobs → All (λ j. j.jid < n + 1) jobs
All-suc n [] a = tt
All-suc n (j ∷ jobs) a = (omega (arith, a.0), All-suc n jobs a.1)

-- A successful deletejob leaves a next job ID that is above every job ID in the list.
pub deletejob-next_jid :
    (pid : ℕ) (t : Table)
    → (deletejob pid t).0 ≡ true
    → All (λ j. j.jid < (deletejob pid t).1.next_jid) (deletejob pid t).1.jobs
unfolding deletejob maxjid
deletejob-next_jid pid t done = elim (Bool-cases (pid == 0)) [
  | inl z ↦ cc (rw z at done)
  | inr nz ↦ elim (Option-cases (clear_slot pid t.jobs)) [
    | inl nothing ↦ cc (rw (nz, nothing) at done)
    | inr (js, gone) ↦ rw (nz, gone) (All-suc (maxjid_from 0 js) js (All-le-maxjid_from 0 js))
  ]
]

-- No job has this job ID.
abbrev pub Unused : ℕ → List Job → Type 0
Unused jid = All (λ j. j.jid ≢ jid)

find_jid-fill :
    (job : Job) (jobs new : List Job)
    → Unused job.jid jobs
    → fill_slot job jobs ≡ some new
    → find_jid job.jid new ≡ some job
unfolding fill_slot find_jid
find_jid-fill job [] new u e = cc
find_jid-fill job (j ∷ jobs) new u e = elim (Option-cases (fill_slot job jobs)) [
  | inl full ↦ ground (arith, u.0)
  | inr (js, filled) ↦ ground (arith, u.0, find_jid-fill job jobs js u.1 filled)
]

-- If the next job ID is in use by no job, a job that addjob adds is the one found under its job ID.
pub addjob-getjobjid :
    (pid : ℕ) (state : JobState) (cmdline : List ℕ) (t : Table)
    → t.next_jid ≢ 0
    → Unused t.next_jid t.jobs
    → (addjob pid state cmdline t).0 ≡ true
    → getjobjid t.next_jid (addjob pid state cmdline t).1.jobs
      ≡ some (new_job pid t.next_jid state cmdline)
unfolding addjob getjobjid
addjob-getjobjid pid state cmdline t nz u done = elim (Bool-cases (pid == 0)) [
  | inl z ↦ cc (rw z at done)
  | inr ne ↦ elim (Option-cases (fill_slot (new_job pid t.next_jid state cmdline) t.jobs)) [
    | inl full ↦ cc (rw (ne, full) at done)
    | inr (js, filled) ↦
        rw (ne, filled)
          (ground (arith, find_jid-fill (new_job pid t.next_jid state cmdline) t.jobs js u filled))
  ]
]
