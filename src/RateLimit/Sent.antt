-- ===== src/RateLimit/Sent.antt =====
-- What the delivery service is sent for the limits of the server and of the configuration
-- (src/internal/ratelimit/ratelimit.go, src/internal/updateplatform/message_report.go).
use lastore_daemon.Base.{
  ℕ, Bool, true, false, ◌&&◌, Option, none, some, String, ◌≡◌, refl, ap, ◌∙◌, Bool-cases, inl, inr,
  if◌then◌else◌,
}
use lastore_daemon.Base.Int.{pos, int_eq}
use lastore_daemon.RateLimit.{
  RateInfo, RateLimitWithTime, SyncLimit, type_remote, bytes_of, parse_set, convert, converted,
  chosen, limit_rate_of, drop_unset, sent, LimitRate, LocalConfig, checked_rate, validate_rate_info,
  validate, or_no_limit, with_local, update_delivery_speed_limit,
}
use lastore_daemon.RateLimit.Bounds.{has_rates, checked-has_rates, both}

-- A limit that the server chose, at its rate; none where it did not.
abbrev pub remote_limit : (String → Option ℕ) → Option RateLimitWithTime → Option RateInfo
remote_limit parse none = none
remote_limit parse (some r) =
    if int_eq r.typ (pos 1)
    then some (record {
      limit_type = type_remote;
      start_time = parse_set parse r.start_time;
      end_time = parse_set parse r.end_time;
      limit_rate = bytes_of r.rate_limit;
      current_rate = bytes_of r.rate_limit;
    })
    else none

convert-kept :
    (parse : String → Option ℕ) (r : RateLimitWithTime) (b : Bool)
    → int_eq r.typ (pos 1) ≡ b
    → drop_unset (some (convert parse r)) ≡ remote_limit parse (some r)
unfolding convert
convert-kept parse r true e = rw (e, if◌then◌else◌) refl
convert-kept parse r false e = rw (e, if◌then◌else◌) refl

converted-kept :
    (parse : String → Option ℕ) (o : Option RateLimitWithTime)
    → drop_unset (converted parse o) ≡ remote_limit parse o
converted-kept parse none = refl
converted-kept parse (some r) = convert-kept parse r (int_eq r.typ (pos 1)) refl

chosen-kept :
    (parse : String → Option ℕ) (o : Option RateLimitWithTime)
    → drop_unset (chosen parse o) ≡ remote_limit parse o
chosen-kept parse none = refl
chosen-kept parse (some r) = elim (Bool-cases (int_eq r.typ (pos 1))) [
  | inl e ↦
      ap (λ b. drop_unset (if b then some (convert parse r) else none)) e
      ∙ convert-kept parse r true e
  | inr e ↦ rw (e, if◌then◌else◌) refl
]

-- A local limit that is chosen, with its rates checked; none where it is of the type for no limit.
abbrev pub local_limit : Option RateInfo → Option RateInfo
local_limit none = none
local_limit (some r) =
    if int_eq r.limit_type (pos 0)
    then none
    else some (record r {
      limit_rate = checked_rate r.limit_rate;
      current_rate = checked_rate r.current_rate;
    })

-- The limits of one direction: of the server's limits those that it chose, of the local ones the
-- global one in any case and the others where they are chosen.
abbrev pub chosen_limits : (String → Option ℕ) → SyncLimit → LocalConfig → LimitRate
chosen_limits parse s c =
    let g = or_no_limit c.global in
    record {
      global_remote = remote_limit parse s.all_day;
      global_local = some (record g {
        limit_rate = checked_rate g.limit_rate;
        current_rate = checked_rate g.current_rate;
      });
      busy_remote = remote_limit parse s.busy_time;
      busy_local = local_limit c.busy;
      free_remote = remote_limit parse s.free_time;
      free_local = local_limit c.free;
    }

local-kept : (o : Option RateInfo) → drop_unset (validate_rate_info o) ≡ local_limit o
unfolding validate_rate_info
local-kept none = refl
local-kept (some r) = refl

sent-chosen :
    (parse : String → Option ℕ) (s : SyncLimit) (c : LocalConfig)
    → sent (with_local c (limit_rate_of parse s)) ≡ chosen_limits parse s c
unfolding sent limit_rate_of with_local validate validate_rate_info
sent-chosen parse s c =
    rw
      (
        converted-kept parse s.all_day,
        chosen-kept parse s.busy_time,
        chosen-kept parse s.free_time,
        local-kept c.busy,
        local-kept c.free,
      )
      refl

-- Every local limit of a set is within the bounds.
abbrev pub is_bounded : LimitRate → Bool
is_bounded l = has_rates l.global_local && has_rates l.busy_local && has_rates l.free_local

local_limit-has_rates : (o : Option RateInfo) → has_rates (local_limit o) ≡ true
local_limit-has_rates none = refl
local_limit-has_rates (some r) = elim (Bool-cases (int_eq r.limit_type (pos 0))) [
  | inl e ↦ rw (e, if◌then◌else◌) refl
  | inr e ↦ rw (e, if◌then◌else◌) (checked-has_rates r)
]

pub chosen_limits-is_bounded :
    (parse : String → Option ℕ) (s : SyncLimit) (c : LocalConfig)
    → is_bounded (chosen_limits parse s c) ≡ true
chosen_limits-is_bounded parse s c =
    both (has_rates (chosen_limits parse s c).global_local && has_rates (local_limit c.busy)) _
      (both (has_rates (chosen_limits parse s c).global_local) _
        (checked-has_rates (or_no_limit c.global)) (local_limit-has_rates c.busy))
      (local_limit-has_rates c.free)

-- When the server has given limits for both directions, `UpdateDeliverySpeedLimit` sends for each
-- direction, of the server's limits, those that are chosen, for the day as for busy and free hours,
-- at the rate in bytes that an `int64` holds and with the times that can be read; of the local limits
-- it sends the global one in any case, at the default rate and of the type for no limit where none is
-- configured, and those for busy and free hours that are not of the type for no limit; and every
-- local rate that it sends is between the smallest and the largest one.
pub update_delivery_speed_limit-chosen_limits :
    (parse : String → Option ℕ) (up down : SyncLimit) (local_up local_down : LocalConfig)
    → (update_delivery_speed_limit parse (some up) (some down) local_up local_down
        ≡ some (chosen_limits parse up local_up, chosen_limits parse down local_down))
      × (is_bounded (chosen_limits parse up local_up) ≡ true)
      × (is_bounded (chosen_limits parse down local_down) ≡ true)
unfolding update_delivery_speed_limit
update_delivery_speed_limit-chosen_limits parse up down local_up local_down = (
  rw (sent-chosen parse up local_up, sent-chosen parse down local_down) refl,
  chosen_limits-is_bounded parse up local_up,
  chosen_limits-is_bounded parse down local_down,
)
