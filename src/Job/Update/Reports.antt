-- ===== src/Job/Update/Reports.antt =====
-- What a progress report does to a job.
use lastore_daemon.Base.{
  ℕ, suc, Bool, true, false, Option, none, some, ◌≡◌, ap, ◌⊎◌, inl, inr, ◌∙◌, arith, Option-cases,
  String, if◌then◌else◌,
}
use lastore_daemon.Base.Float.{Float}
use lastore_daemon.System.{
  Status, status_eq, failed, succeed, end, JobError, Error, job_error, ProgressInfo,
}
use lastore_daemon.Job.{Job, build_progress}
use lastore_daemon.Job.Transition.{Hooks, Outcome, run_hook, transition, transition_once}
use lastore_daemon.Job.Transition.Edges.{IsQuiet, settled, entered, transition_settles}
use lastore_daemon.Job.Update.{
  set_error, take_text, take_cancelable, take_progress, take_speed, take_fatal, take_fields,
  fail_success, take_status,
}

-- Hooks that do not touch the job itself.
pub record LeavesJob {F : Type 0} (h : Hooks F) : Type 0 where
  pub pre_job : (s : Status) (j : Job F) → (run_hook (h.pre s) j).0 ≡ j
  pub after_job : (s : Status) (j : Job F) → (run_hook (h.after s) j).0 ≡ j

module _ {F : Type 0} {h : Hooks F} (q : LeavesJob h) where
  pub leaves-IsQuiet : IsQuiet h
  leaves-IsQuiet = record {
    pre_status = λ s j. ap (λ (k : Job F). k.status) (q.pre_job s j);
    after_status = λ s j. ap (λ (k : Job F). k.status) (q.after_job s j);
    pre_next = λ s j. ap (λ (k : Job F). k.next) (q.pre_job s j);
    after_next = λ s j. ap (λ (k : Job F). k.next) (q.after_job s j);
  }

  once_progress : (j : Job F) (to : Status) → (transition_once h j to).0.job.progress ≡ j.progress
  unfolding transition_once
  once_progress j to = ground (arith, q.pre_job to j, q.after_job to (entered h j to))

  transition_progress :
      (fuel : ℕ) (j : Job F) (to : Status) (o : Outcome F)
      → transition (suc (suc fuel)) h j to ≡ some o
      → o.job.progress ≡ j.progress
  transition_progress fuel j to o e = ground (
    arith,
    transition_settles h leaves-IsQuiet fuel j to,
    once_progress j to,
    once_progress (transition_once h j to).0.job end,
  )

abbrev Keeps : {F : Type 0} → Job F → Job F → Type 0
Keeps j k =
    (k.status ≡ j.status)
    × (k.progress ≡ j.progress)
    × (k.range_begin ≡ j.range_begin)
    × (k.range_end ≡ j.range_end)

Keeps-trans : {F : Type 0} (a b c : Job F) → Keeps a b → Keeps b c → Keeps a c
Keeps-trans a b c p q = ground arith

module _ (fl : Float) (marshal : JobError → Option String) where
  open fl use {Carrier, lit, lt}

  text-Keeps :
      (info : ProgressInfo Carrier) (s : Job Carrier × Bool)
      → Keeps s.0 (take_text marshal info s).0
  unfolding take_text
  text-Keeps info (j, changed) = ground arith

  cancelable-Keeps :
      (info : ProgressInfo Carrier) (s : Job Carrier × Bool) → Keeps s.0 (take_cancelable info s).0
  unfolding take_cancelable
  cancelable-Keeps info (j, changed) = ground arith

  fatal-Keeps :
      (info : ProgressInfo Carrier) (s : Job Carrier × Bool) → Keeps s.0 (take_fatal info s).0
  unfolding take_fatal
  fatal-Keeps info (j, changed) = ground arith

  speed-Keeps :
      (now : ℕ) (info : ProgressInfo Carrier) (s : Job Carrier × Bool)
      → Keeps s.0 (take_speed fl now info s).0
  unfolding take_speed
  speed-Keeps now info (j, changed) = ground arith

  -- Progress is reset on request, and grows or stays otherwise.
  abbrev pub Advances : ProgressInfo Carrier → Job Carrier → Job Carrier → Type 0
  Advances info j k =
      (info.reset_progress ≡ true) × (k.progress ≡ lit 0 0)
      ⊎ (info.reset_progress ≡ false)
        × ((k.progress ≡ j.progress)
            ⊎ (lt j.progress k.progress ≡ true)
              × (k.progress ≡ build_progress fl info.progress j.range_begin j.range_end))

  progress-Advances :
      (info : ProgressInfo Carrier) (s : Job Carrier × Bool)
      → Advances info s.0 (take_progress fl info s).0
        × ((take_progress fl info s).0.status ≡ s.0.status)
  unfolding take_progress
  progress-Advances info (j, changed) = ground arith

  Advances-after :
      (info : ProgressInfo Carrier) (a b c d : Job Carrier)
      → Keeps a b
      → Advances info b c × (c.status ≡ b.status)
      → Keeps c d
      → Advances info a d × (d.status ≡ a.status)
  Advances-after info a b c d before step after = ground arith

  pub fields_advance :
      (now : ℕ) (info : ProgressInfo Carrier) (j : Job Carrier)
      → Advances info j (take_fields fl marshal now info j).0
        × ((take_fields fl marshal now info j).0.status ≡ j.status)
  unfolding take_fields
  fields_advance now info j =
      let s1 : Job Carrier × Bool = take_text marshal info (j, false) in
      let s2 : Job Carrier × Bool = take_cancelable info s1 in
      let s3 : Job Carrier × Bool = take_progress fl info s2 in
      let s4 : Job Carrier × Bool = take_speed fl now info s3 in
      Advances-after info j s2.0 s3.0 (take_fatal info s4).0
        (Keeps-trans j s1.0 s2.0 (text-Keeps info (j, false)) (cancelable-Keeps info s1))
        (progress-Advances info s2)
        (Keeps-trans s3.0 s4.0 (take_fatal info s4).0 (speed-Keeps now info s3)
          (fatal-Keeps info s4))

module _ {F : Type 0} (marshal : JobError → Option String) {h : Hooks F} (q : LeavesJob h) where
  abbrev pub errored : JobError → Job F → Job F
  errored e j = let j' : Job F = set_error marshal e j in record j' { err_log_path = e.error_log }

  pub set_error_progress :
      (e : JobError) (j : Job F)
      → ((errored e j).progress ≡ j.progress) × ((errored e j).status ≡ j.status)
  unfolding set_error
  set_error_progress e j = ground arith

  settled_progress :
      (j : Job F) (to : Status) → (settled h (leaves-IsQuiet q) j to).job.progress ≡ j.progress
  settled_progress j to =
      transition_progress q 0 j to _ (transition_settles h (leaves-IsQuiet q) 0 j to)

  abbrev pub fail_result : Error → Job F → Job F × Bool
  fail_result (job_error e) j = (
    let r : Job F = (settled h (leaves-IsQuiet q) (errored e j) failed).job in
        record r { cancelable = true },
    true,
  )
  fail_result _ j = ((settled h (leaves-IsQuiet q) j failed).job, false)

  pub fail_success_lem :
      (fuel : ℕ) (e : Error) (j : Job F)
      → (fail_success marshal (suc (suc fuel)) h e j ≡ some (fail_result e j))
        × ((fail_result e j).0.progress ≡ j.progress)
  unfolding fail_success
  fail_success_lem fuel (job_error e) j = (
    rw (transition_settles h (leaves-IsQuiet q) fuel (errored e j) failed, fail_success),
    settled_progress (errored e j) failed ∙ (set_error_progress e j).0,
  )
  fail_success_lem fuel _ j = (
    rw (transition_settles h (leaves-IsQuiet q) fuel j failed, fail_success),
    settled_progress j failed,
  )

  abbrev pub status_result : ProgressInfo F → Job F × Bool → Job F × Bool
  status_result info (j, changed) =
      let o = settled h (leaves-IsQuiet q) j info.status in
      if status_eq info.status j.status then (j, changed) else elim o.error [
        | none ↦ (o.job, true)
        | some e ↦ if status_eq info.status succeed then fail_result e o.job else (o.job, false)
      ]

  pub status_lem :
      (fuel : ℕ) (info : ProgressInfo F) (s : Job F × Bool)
      → (take_status marshal (suc (suc fuel)) h info s ≡ some (status_result info s))
        × ((status_result info s).0.progress ≡ s.0.progress)
  unfolding take_status
  status_lem fuel info (j, changed) =
      let o = settled h (leaves-IsQuiet q) j info.status in
      let settles = transition_settles h (leaves-IsQuiet q) fuel j info.status in
      elim (Option-cases o.error) [
        | inl e ↦ ground (arith, settles, settled_progress j info.status)
        | inr (x, e) ↦
            ground (arith, settles, settled_progress j info.status, fail_success_lem fuel x o.job)
      ]
