-- ===== src/Job/Examples.antt =====
-- Concrete jobs, hooks and numbers, and the theorems on one job at them.
use lastore_daemon.Base.{
  ℕ, ◌-◌, ◌+◌, ◌*◌, ◌/◌, ◌^◌, Bool, true, false, [], ◌∷◌, Option, none, some, ◌≡◌, refl, ltb, leb,
  ◌==◌, ◌⊎◌, if◌then◌else◌, String,
}
use lastore_daemon.Base.Int.{pos, negsuc}
use lastore_daemon.Base.Float.{Float}
use lastore_daemon.System.{
  Status, status_eq, ready, running, succeed, end, message, JobError, download_job, ProgressInfo,
}
use lastore_daemon.Job.{Job, new_job}
use lastore_daemon.Job.Transition.{
  Hooks, Outcome, valid_transition, transition, transition_once, signal,
}
use lastore_daemon.Job.Transition.Edges.{IsQuiet, settled, transition_settles, transition_edge}
use lastore_daemon.Job.Update.{take_fields, update_info}
use lastore_daemon.Job.Update.Reports.{LeavesJob, Advances}
use lastore_daemon.Job.Update.Returns.{update_info-Advances, update_info_unreported}

-- Numbers in thousandths.
abbrev pub milli : Float
milli = record {
  Carrier = ℕ;
  lit = λ n k. n * 1000 / 10 ^ k;
  add = λ a b. a + b;
  sub = λ a b. a - b;
  mul = λ a b. a * b / 1000;
  div = λ a b. a * 1000 / b;
  lt = ltb;
  le = leb;
  eq = λ a b. a == b;
  estimate = λ new old size elapsed. pos (new - old);
}

abbrev quiet : Hooks ℕ
quiet = record { not_use_dbus = false; pre = λ s. none; after = λ s. none }

quiet-LeavesJob : LeavesJob quiet
quiet-LeavesJob = record { pre_job = λ s j. refl; after_job = λ s j. refl }

quiet-IsQuiet : IsQuiet quiet
quiet-IsQuiet = record {
  pre_status = λ s j. refl;
  after_status = λ s j. refl;
  pre_next = λ s j. refl;
  after_next = λ s j. refl;
}

-- The hook for `succeed` reports an error.
abbrev failing : Hooks ℕ
failing = record {
  not_use_dbus = false;
  pre =
      λ s. some (λ j. (j, if status_eq s succeed then some (message "not enough space") else none));
  after = λ s. none;
}

failing-LeavesJob : LeavesJob failing
failing-LeavesJob = record { pre_job = λ s j. refl; after_job = λ s j. refl }

abbrev pub download : Job ℕ
download = record {
  id = "7";
  name = "";
  packages = "vim" ∷ [];
  create_time = 100;
  download_size = pos 0;
  job_type = download_job;
  status = ready;
  progress = 0;
  description = "";
  speed = pos 0;
  delivery_speed = negsuc 0;
  proto = "";
  has_delivery_info = false;
  speed_meter = record {
    download_size = pos 0;
    speed = pos 0;
    update_time = 0;
    start_time = 0;
    progress = 0;
  };
  cancelable = true;
  queue_name = "lock";
  retry = pos 1;
  range_begin = 0;
  range_end = 1000;
  next = none;
  option = [];
  environ = [];
  update_typ = 0;
  err_log_path = [];
}

download_is_new : new_job milli "7" "" ("vim" ∷ []) download_job "lock" [] 100 ≡ download
unfolding new_job
download_is_new = refl

abbrev downloading : Job ℕ
downloading = record download { status = running }

abbrev report : Status → ProgressInfo ℕ
report s = record {
  job_id = "7";
  progress = 500;
  reset_progress = false;
  description = "half";
  status = s;
  cancelable = true;
  error = none;
  fatal_error = false;
  original_log = "";
  only_log = false;
}

abbrev no_text : JobError → Option String
no_text e = none

transition_settles_example :
    transition 2 quiet downloading succeed ≡ some (settled quiet quiet-IsQuiet downloading succeed)
transition_settles_example = transition_settles quiet quiet-IsQuiet 0 downloading succeed

abbrev finished : Outcome ℕ
finished = record {
  job = record downloading { status = end };
  trace = signal succeed ∷ signal end ∷ [];
  error = none;
}

finishes : transition 2 quiet downloading succeed ≡ some finished
unfolding transition transition_once valid_transition
finishes = refl

transition_edge_example :
    (end ≡ running)
    ⊎ (valid_transition running succeed ≡ true)
      × ((end ≡ succeed) ⊎ (succeed ≡ succeed) × (end ≡ end))
transition_edge_example =
    transition_edge quiet quiet-IsQuiet 0 downloading succeed finished finishes

not_to_succeed : valid_transition ready succeed ≡ false
unfolding valid_transition
not_to_succeed = refl

update_info-Advances_example :
    (r : Job ℕ × Bool) × (update_info milli no_text 2 quiet 9 (report running) downloading ≡ some r)
    × Advances milli no_text (report running) downloading r.0
update_info-Advances_example =
    update_info-Advances milli no_text 0 9 quiet quiet-LeavesJob (report running) downloading

not_to_ready : valid_transition running ready ≡ false
unfolding valid_transition
not_to_ready = refl

update_info_unreported_example :
    update_info milli no_text 1 quiet 9 (report ready) downloading
    ≡ some ((take_fields milli no_text 9 (report ready) downloading).0, false)
update_info_unreported_example =
    update_info_unreported milli no_text 0 9 quiet (report ready) downloading refl not_to_ready refl
