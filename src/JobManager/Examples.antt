-- ===== src/JobManager/Examples.antt =====
-- A concrete manager, and the theorems on managers at it.
use mathlib.Core.List.Perm
use lastore_daemon.Base.{
  arith, ℕ, true, false, [], ◌∷◌, Option, none, some, ◌≡◌, refl, ap, subst, ◌==◌, if◌then◌else◌,
}
use lastore_daemon.System.{running, ready, paused, end, Result, ok, download_job, install_job}
use lastore_daemon.Job.{Job, new_job, init_progress_range}
use lastore_daemon.Job.Transition.{Hooks, transition, transition_once, valid_transition}
use lastore_daemon.Job.Transition.Edges.{IsQuiet}
use lastore_daemon.Job.Examples.{milli, download}
use lastore_daemon.JobQueue.{JobQueue, Store, find, raise, system_change_queue}
use lastore_daemon.JobQueue.Sort.{Sorter}
use lastore_daemon.JobManager.{
  queue_named, Manager, Env, Ran, download_queue, lock_queue, delay_lock_queue, find_job_by_id,
  pause_job, clean_job, mark_start,
}
use lastore_daemon.JobManager.Search.{gen_job_id}
use lastore_daemon.JobManager.Create.{Machine, Order, create_install}
use mathlib.Core.List.{Mem, Nodup, Nodup-cons, Nodup-nil, mem-cons, not-mem-nil}
use mathlib.Core.Logic.Or
use lastore_daemon.System.{status_eq}
use lastore_daemon.JobQueue.{pending_jobs}
use lastore_daemon.JobManager.Dispatch.{Outside, start_jobs_in_queue, start_queues}
use lastore_daemon.JobManager.Started.{Agreeable, start_jobs_in_queue-running}
use lastore_daemon.JobManager.Control.{
  pause_job_pauses, clean_job_ends, IsFirst, mark_start-IsFirst,
}
use lastore_daemon.JobManager.Framed.{is_queued}
use lastore_daemon.JobManager.Waiting.{start_queues-waits}
use lastore_daemon.JobManager.Chains.{create_install_lem}

abbrev no_hooks : Hooks ℕ
no_hooks = record { not_use_dbus = false; pre = λ s. none; after = λ s. none }

no_hooks-IsQuiet : IsQuiet no_hooks
no_hooks-IsQuiet = record {
  pre_status = λ s j. refl;
  after_status = λ s j. refl;
  pre_next = λ s j. refl;
  after_next = λ s j. refl;
}

abbrev env : Env ℕ
env = record { fuel = 2; hooks = λ p. no_hooks; abort = λ id. none; abort_with_failed = λ id. none }

abbrev jobs : Store ℕ
jobs p =
    if p == 0
    then record download { id = "0"; queue_name = download_queue; status = running }
    else download

abbrev queue : JobQueue
queue = record { name = download_queue; cap = 4; jobs = 0 ∷ [] }

abbrev manager : Manager ℕ
manager = record {
  store = jobs;
  num_jobs = 1;
  queues = queue ∷ [];
  changed = false;
  limit_changing = false;
  id_count = 0;
}

abbrev manager_or : Manager ℕ → Ran ℕ → Manager ℕ
manager_or m none = m
manager_or m (some (m', e)) = m'

found : find_job_by_id "0" manager ≡ some 0
unfolding find_job_by_id find
found = refl

abbrev after_pause : Manager ℕ
after_pause = manager_or manager (pause_job env "0" manager)

pauses : pause_job env "0" manager ≡ some (after_pause, none)
unfolding pause_job transition transition_once valid_transition find
pauses = refl

pause_job_pauses_example :
    ((after_pause.store 0).status ≡ paused) × (after_pause.queues ≡ queue ∷ [])
pause_job_pauses_example =
    pause_job_pauses env (λ p. no_hooks-IsQuiet) 0 0 "0" manager after_pause refl found pauses

abbrev after_clean : Manager ℕ
after_clean = manager_or manager (clean_job env "0" manager)

cleans : clean_job env "0" manager ≡ some (after_clean, none)
unfolding clean_job transition transition_once valid_transition find
cleans = refl

clean_job_ends_example :
    ((after_clean.store 0).status ≡ end)
    × ((after_clean.store 0).next ≡ none)
    × (after_clean.queues ≡ queue ∷ [])
clean_job_ends_example =
    clean_job_ends env (λ p. no_hooks-IsQuiet) 0 0 "0" manager after_clean refl found cleans

abbrev after_start : Manager ℕ
after_start = manager_or manager (mark_start env 0 after_pause)

starts : mark_start env 0 after_pause ≡ some (after_start, none)
unfolding mark_start pause_job transition transition_once valid_transition find raise
starts = refl

mark_start-IsFirst_example :
    ((after_start.store 0).status ≡ ready)
    × IsFirst (after_start.store 0).queue_name (after_start.store 0).id after_start
mark_start-IsFirst_example =
    mark_start-IsFirst env (λ p. no_hooks-IsQuiet) 0 0 after_pause after_start refl starts

abbrev outside : Outside ℕ
outside = record {
  answer = λ call. none;
  export = λ id. none;
  not_use_dbus = false;
  marshal = λ e. none;
  retry_hook = λ p. some (λ j. record j { option = ("Acquire::http::Dl-Limit", "100") ∷ [] });
  start_error =
      λ e. record { err_type = "unknown"; err_detail = ""; is_check_error = false; error_log = [] };
}

abbrev unsorted : Sorter
unsorted = record { sort = λ less ps. ps; sort-perm = λ less ps. Perm.refl ps }

abbrev machine : Machine
machine = record {
  itoa = λ n. "1";
  clock = λ p. p;
  is_dir = λ path. true;
  system_source = "/var/lib/lastore/SystemSource.d";
}

abbrev order : Order
order = record { name = ""; packages = "vim" ∷ []; environ = [] }

abbrev made_or : Manager ℕ → Option (Manager ℕ × Result ℕ) → Manager ℕ
made_or m none = m
made_or m (some (m', r)) = m'

abbrev installing : Manager ℕ
installing = made_or manager (create_install milli machine order manager)

creates : create_install milli machine order manager ≡ some (installing, ok 1)
unfolding create_install gen_job_id new_job init_progress_range
creates = refl

create_install_lem_example :
    (◌≡◌ {A = ℕ} 1 1)
    × ((installing.store 1).next ≡ some 2)
    × ((installing.store 1).id ≡ (installing.store 2).id)
    × ((installing.store 1).job_type ≡ download_job)
    × ((installing.store 1).queue_name ≡ download_queue)
    × ((installing.store 2).job_type ≡ install_job)
    × ((installing.store 2).queue_name ≡ system_change_queue)
    × ((installing.store 1).packages ≡ (installing.store 2).packages)
    × ((installing.store 1).range_end ≡ (installing.store 2).range_begin)
    × (installing.num_jobs ≡ 3)
    × (installing.queues ≡ manager.queues)
create_install_lem_example = create_install_lem milli machine order manager installing 1 creates

abbrev waiting_queue : JobQueue
waiting_queue = record queue { jobs = 1 ∷ 2 ∷ [] }

abbrev waiting : Manager ℕ
waiting = record manager { store = λ p. download; queues = waiting_queue ∷ [] }

hook_keeps :
    (f : Job ℕ → Job ℕ)
    → outside.retry_hook 0 ≡ some f
    → (j : Job ℕ) → ((f j).status ≡ j.status) × ((f j).job_type ≡ j.job_type)
hook_keeps f e j =
    subst (λ g. ((g j).status ≡ j.status) × ((g j).job_type ≡ j.job_type))
      (ap (λ o. elim o [ none ↦ f | some g ↦ g ]) e) (refl, refl)

agreeable : Agreeable env outside
agreeable = record {
  quiet = λ p. no_hooks-IsQuiet;
  calm = λ p. record {
    pre_error = λ s j. refl;
    after_error = λ s j. refl;
    pre_type = λ s j. refl;
    after_type = λ s j. refl;
  };
  agrees = λ call. refl;
  retries = λ p f e j. hook_keeps f e j;
}

two-Nodup : Nodup {A = ℕ} (1 ∷ 2 ∷ [])
two-Nodup = Nodup-cons.1 (
  (λ i. Or.elim (hlevel) (mem-cons.0 i) (λ e. absurd (omega (arith, e))) (λ j. not-mem-nil j)),
  Nodup-cons.1 ((λ i. not-mem-nil i), Nodup-nil),
)

start_jobs_in_queue-running_example :
    (m' : Manager ℕ) × (start_jobs_in_queue env outside unsorted download_queue waiting ≡ some m')
    × ((p : ℕ)
        → Mem p (pending_jobs unsorted waiting.store waiting_queue)
        → status_eq (m'.store p).status running ≡ true)
    × ((x : ℕ)
        → ¬ Mem x (pending_jobs unsorted waiting.store waiting_queue)
        → m'.store x ≡ waiting.store x)
unfolding queue_named
start_jobs_in_queue-running_example =
    start_jobs_in_queue-running env outside agreeable 0 refl unsorted download_queue waiting
      waiting_queue refl refl two-Nodup (λ p i. refl)

-- A job of the lock queue runs, and a job that changes the system is ready.
abbrev locked : Manager ℕ
locked = record manager {
  store = λ p.
      if p == 0
      then record download { id = "update_source"; queue_name = lock_queue; status = running }
      else if p == 3
      then record download { queue_name = system_change_queue; status = ready }
      else download;
  queues =
      (record { name = lock_queue; cap = 1; jobs = 0 ∷ [] })
      ∷ (record { name = delay_lock_queue; cap = 1; jobs = [] })
      ∷ (record { name = download_queue; cap = 4; jobs = 1 ∷ 2 ∷ [] })
      ∷ (record { name = system_change_queue; cap = 1; jobs = 3 ∷ [] })
      ∷ [];
}

start_queues-waits_example :
    (m' : Manager ℕ) × (start_queues env outside unsorted locked ≡ some m')
    × ((x : ℕ)
        → is_queued lock_queue x locked.queues ≡ false
        → is_queued delay_lock_queue x locked.queues ≡ false
        → is_queued download_queue x locked.queues ≡ false
        → m'.store x ≡ locked.store x)
unfolding queue_named
start_queues-waits_example =
    start_queues-waits env (λ p. no_hooks-IsQuiet) 0 refl outside unsorted locked 0 refl refl refl
      refl
