-- ===== src/JobManager/Chains.antt =====
-- What `CreateJob` makes, and which job it finds instead.
use mathlib.Core.List.{Mem, Perm, mem-cons, mem-cons_self, not-mem-nil, mem-cons_of_mem}
use mathlib.Core.Logic.Or
use mathlib.Core.List.Perm
use lastore_daemon.Base.{
  ℕ, suc, true, false, List, [], ◌∷◌, Option, none, some, String, ◌≡◌, arith, Bool-cases, inl, inr,
  ap, ◌∙◌,
}
use lastore_daemon.Base.Float.{Float}
use lastore_daemon.System.{ok, install_job, download_job}
use lastore_daemon.Job.{new_job, init_progress_range}
use lastore_daemon.JobQueue.{Store, less, system_change_queue}
use lastore_daemon.JobQueue.Sort.{Sorter}
use lastore_daemon.JobManager.{Manager, download_queue}
use lastore_daemon.JobManager.Search.{
  all_jobs, serves_type, first_serving, find_job_by_type, gen_job_id,
}
use lastore_daemon.JobManager.Create.{Machine, Order, make_job, set_range, create_install}

module _ {F : Type 0} (t : String) (packages : List String) where
  -- What a search gives: a job that serves the type, or nothing where none does.
  abbrev pub Serving : Store F → List ℕ → Option ℕ → Type 0
  Serving st ps none = (p : ℕ) → Mem p ps → serves_type st t packages p ≡ false
  Serving st ps (some p) = Mem p ps × (serves_type st t packages p ≡ true)

  Serving-cons :
      (st : Store F) (p : ℕ) (ps : List ℕ) (r : Option ℕ)
      → serves_type st t packages p ≡ false
      → Serving st ps r
      → Serving st (p ∷ ps) r
  Serving-cons st p ps none e h =
      λ x m. Or.elim (hlevel) (mem-cons.0 m) (λ here. ap (serves_type st t packages) here ∙ e) (h x)
  Serving-cons st p ps (some x) e (m, h) = (mem-cons_of_mem p m, h)

  first_serving-Serving :
      (st : Store F) (ps : List ℕ) → Serving st ps (first_serving st t packages ps)
  unfolding first_serving
  first_serving-Serving st [] = λ p m. absurd (not-mem-nil m)
  first_serving-Serving st (p ∷ ps) = elim (Bool-cases (serves_type st t packages p)) [
    | inl e ↦ rw (e, first_serving) (mem-cons_self, e)
    | inr e ↦
        rw (e, first_serving)
          (Serving-cons st p ps (first_serving st t packages ps) e (first_serving-Serving st ps))
  ]

  Serving-perm :
      (st : Store F) (ps qs : List ℕ) (r : Option ℕ)
      → Perm ps qs
      → Serving st ps r
      → Serving st qs r
  Serving-perm st ps qs none perm h = λ p m. h p ((Perm.mem_iff perm).1 m)
  Serving-perm st ps qs (some p) perm (m, h) = ((Perm.mem_iff perm).0 m, h)

  -- `findJobByType` gives a queued job that has the type as its id, is of the type with the same
  -- packages, or is followed by such a job; it gives none only if no queued job is like that,
  -- whatever the order in which the jobs are sorted.
  pub find_job_by_type-Serving :
      (sorter : Sorter) (m : Manager F)
      → Serving m.store (all_jobs m.queues) (find_job_by_type sorter t packages m)
  unfolding find_job_by_type
  find_job_by_type-Serving sorter m =
      Serving-perm m.store _ (all_jobs m.queues) _
        (sorter.sort-perm (less m.store) (all_jobs m.queues))
        (first_serving-Serving m.store (sorter.sort (less m.store) (all_jobs m.queues)))

module _ (fl : Float) (machine : Machine) (order : Order) where
  open fl use {Carrier, lit, le, lt, sub, eq}

  -- When `CreateJob` makes the jobs of an installation, they are new: a download in the queue
  -- `download` that is followed by the installation in the queue `system change`, with one id and
  -- the same packages; the progress of the second goes on where that of the first ends.
  pub create_install_lem :
      (m m' : Manager Carrier) (p : ℕ)
      → create_install fl machine order m ≡ some (m', ok p)
      → (p ≡ m.num_jobs)
        × ((m'.store p).next ≡ some (suc p))
        × ((m'.store p).id ≡ (m'.store (suc p)).id)
        × ((m'.store p).job_type ≡ download_job)
        × ((m'.store p).queue_name ≡ download_queue)
        × ((m'.store (suc p)).job_type ≡ install_job)
        × ((m'.store (suc p)).queue_name ≡ system_change_queue)
        × ((m'.store p).packages ≡ (m'.store (suc p)).packages)
        × ((m'.store p).range_end ≡ (m'.store (suc p)).range_begin)
        × (m'.num_jobs ≡ suc (suc p))
        × (m'.queues ≡ m.queues)
  unfolding create_install make_job set_range gen_job_id init_progress_range new_job
  create_install_lem m m' p e = ground (arith)
