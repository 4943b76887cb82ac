-- ===== src/Job.antt =====
-- A job and the operations on one job (src/lastore-daemon/job.go and speed_meter.go).
pub mod Transition
pub mod Examples
pub mod Update
use lastore_daemon.Base.{
  ℕ, zero, suc, ◌+◌, ◌-◌, Bool, true, false, not, ◌&&◌, ◌||◌, List, [], ◌∷◌, Option, none, some,
  String, str_eq, if◌then◌else◌, ltb, ◌==◌,
}
use lastore_daemon.Base.Int.{ℤ, pos, negsuc, ◌-ℤ◌, ltb_ℤ, int_eq}
use lastore_daemon.Base.Float.{Float}
use lastore_daemon.System.{
  Status, status_eq, ready, running, JobError, DeliveryInfo, ProgressInfo, download_job,
  prepare_dist_upgrade_job, incremental_download_job,
}

-- Times are nanoseconds, and 0 is the zero time.
pub record SpeedMeter (F : Type 0) : Type 0 where
  pub download_size : ℤ
  pub speed : ℤ
  pub update_time : ℕ
  pub start_time : ℕ
  pub progress : F

-- `next` is a pointer into the store of jobs. The hooks of a job are not fields: see `Hooks`.
pub record Job (F : Type 0) : Type 0 where
  pub id : String
  pub name : String
  pub packages : List String
  pub create_time : ℕ
  pub download_size : ℤ
  pub job_type : String
  pub status : Status
  pub progress : F
  pub description : String
  pub speed : ℤ
  pub delivery_speed : ℤ
  pub proto : String
  pub has_delivery_info : Bool
  pub speed_meter : SpeedMeter F
  pub cancelable : Bool
  pub queue_name : String
  pub retry : ℤ
  pub range_begin : F
  pub range_end : F
  pub next : Option ℕ
  pub option : List (String × String)
  pub environ : List (String × String)
  pub update_typ : ℕ
  pub err_log_path : List String

module _ (fl : Float) where
  open fl use {Carrier, lit, add, sub, mul, lt, le, eq, estimate}

  unfoldable pub new_job :
      (id name : String) (packages : List String) (job_type queue_name : String)
      (environ : List (String × String)) (now : ℕ)
      → Job Carrier
  new_job id name packages job_type queue_name environ now = record {
    id = id;
    name = name;
    packages = packages;
    create_time = now;
    download_size = pos 0;
    job_type = job_type;
    status = ready;
    progress = lit 0 0;
    description = "";
    speed = pos 0;
    delivery_speed = negsuc 0;
    proto = "";
    has_delivery_info = false;
    speed_meter = record {
      download_size = pos 0;
      speed = pos 0;
      update_time = 0;
      start_time = 0;
      progress = lit 0 0;
    };
    cancelable = true;
    queue_name = queue_name;
    retry = pos 1;
    range_begin = lit 0 0;
    range_end = lit 1 0;
    next = none;
    option = [];
    environ = environ;
    update_typ = 0;
    err_log_path = [];
  }

  -- `Speed`, at the time `now`. The clock does not run backwards, so the truncated differences
  -- agree with those of the source wherever they are compared with a positive number.
  unfoldable pub measure_speed : ℕ → Carrier → ℤ → SpeedMeter Carrier → SpeedMeter Carrier × ℤ
  measure_speed now new_progress delivery_speed s0 =
      let s : SpeedMeter Carrier =
        if s0.start_time == 0 then record s0 { start_time = now } else s0 in
      let moved : SpeedMeter Carrier = record s {
        speed =
            if ltb_ℤ delivery_speed (pos 0)
            then estimate new_progress s.progress s.download_size (now - s.update_time)
            else delivery_speed;
        update_time = now;
        progress = new_progress;
      } in
      if ltb (now - s.start_time) 1_000_000_000
      then (record s { update_time = now; progress = new_progress }, pos 0)
      else if ltb 5_000_000_000 (now - s.update_time) && lt s.progress new_progress
      then (moved, moved.speed)
      else (s, s.speed)

  -- `_InitProgressRange`; `none` is its panic.
  unfoldable pub init_progress_range : Carrier → Carrier → Job Carrier → Option (Job Carrier)
  init_progress_range begin end j =
      if le end begin || lt (lit 1 0) (sub end begin) || lt (lit 1 0) begin || lt (lit 1 0) end
      then none
      else if not (eq j.progress (lit 0 0))
      then none
      else some (record j { range_begin = begin; range_end = end; progress = begin })

  unfoldable pub build_progress : Carrier → Carrier → Carrier → Carrier
  build_progress p begin end = add begin (mul p (sub end begin))

module _ {F : Type 0} where
  unfoldable pub set_download_size : ℤ → SpeedMeter F → SpeedMeter F
  set_download_size size s =
      if int_eq s.download_size (pos 0) then record s { download_size = size } else s

  unfoldable pub init_download_size : ℤ → Job F → Job F
  unfolding set_download_size
  init_download_size size j = record j {
    download_size = if int_eq j.download_size (pos 0) then size else j.download_size;
    speed_meter = set_download_size size j.speed_meter;
  }

  -- `hook` is the field `subRetryHookFn`.
  unfoldable pub sub_retry_count : Option (Job F → Job F) → Bool → Job F → Job F
  sub_retry_count hook true j = record j { retry = pos 0 }
  sub_retry_count none false j = record j { retry = j.retry -ℤ pos 1 }
  sub_retry_count (some f) false j = let j' = f j in record j' { retry = j'.retry -ℤ pos 1 }

  unfoldable pub has_status : Status → Job F → Bool
  has_status s j = status_eq j.status s

-- `lower` is `strings.ToLower`.
unfoldable pub normalize_download_proto : (String → String) → String → String
normalize_download_proto lower proto =
    if str_eq (lower proto) "http" || str_eq (lower proto) "https"
    then "http"
    else if str_eq (lower proto) "p2p" || str_eq (lower proto) "delivery"
    then "delivery"
    else proto

unfoldable pub is_download_protocol_job : String → Bool
is_download_protocol_job t =
    str_eq t download_job || str_eq t prepare_dist_upgrade_job || str_eq t incremental_download_job

module _ {F : Type 0} (lower : String → String) where
  unfoldable pub update_delivery_info : DeliveryInfo → Job F → Job F
  unfolding normalize_download_proto
  update_delivery_info info j =
      if int_eq info.speed (pos 0) && str_eq info.proto "" then j else record j {
        delivery_speed = info.speed;
        has_delivery_info = not info.is_finished;
        speed = if ltb_ℤ info.speed (pos 0) then pos 0 else info.speed;
        proto = normalize_download_proto lower info.proto;
      }
