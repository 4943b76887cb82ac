-- ===== src/RateLimit/Bounds.antt =====
-- `Validate` brings every rate into its bounds (src/internal/ratelimit/ratelimit.go).
use lastore_daemon.Base.{
  Bool, true, false, not, ◌&&◌, ◌||◌, Option, none, some, ◌≡◌, ◌↔◌, refl, ap, ◌∙◌, sym, arith,
  if◌then◌else◌,
}
use lastore_daemon.Base.Int.{ℤ, ltb_ℤ}
use lastore_daemon.RateLimit.{
  RateInfo, LocalConfig, min_rate_limit, max_rate_limit, default_rate_limit, checked_rate,
  validate_rate_info, validate,
}

-- A rate of the bounds.
abbrev pub is_rate : ℤ → Bool
is_rate n = not (ltb_ℤ n min_rate_limit || ltb_ℤ max_rate_limit n)

abbrev pub has_rates : Option RateInfo → Bool
has_rates none = true
has_rates (some r) = is_rate r.limit_rate && is_rate r.current_rate

-- Every rate of a configuration is within its bounds.
abbrev pub is_checked : LocalConfig → Bool
is_checked c = has_rates c.global && has_rates c.busy && has_rates c.free

rate_cases :
    (n : ℤ) (b : Bool)
    → (ltb_ℤ n min_rate_limit || ltb_ℤ max_rate_limit n) ≡ b
    → is_rate (if b then default_rate_limit else n) ≡ true
rate_cases n true e = refl
rate_cases n false e = ap not e

checked_rate-bounds : (n : ℤ) → is_rate (checked_rate n) ≡ true
checked_rate-bounds n = rate_cases n (ltb_ℤ n min_rate_limit || ltb_ℤ max_rate_limit n) refl

not_out : (b : Bool) → not b ≡ true → b ≡ false
not_out true e = absurd (ground (arith, e))
not_out false e = refl

checked_rate-same : (n : ℤ) → is_rate n ≡ true → checked_rate n ≡ n
checked_rate-same n e =
    ap (λ b. if b then default_rate_limit else n)
      (not_out (ltb_ℤ n min_rate_limit || ltb_ℤ max_rate_limit n) e)

pub both : (a b : Bool) → a ≡ true → b ≡ true → a && b ≡ true
both a b e f = ground (arith, e, f)

parts : (a b : Bool) → a && b ≡ true → (a ≡ true) × (b ≡ true)
parts true b e = (refl, e)
parts false b e = absurd (ground (arith, e))

pub checked-has_rates :
    (r : RateInfo)
    → has_rates (
        some (record r {
          limit_rate = checked_rate r.limit_rate;
          current_rate = checked_rate r.current_rate;
        }))
      ≡ true
checked-has_rates r =
    both (is_rate (checked_rate r.limit_rate)) (is_rate (checked_rate r.current_rate))
      (checked_rate-bounds r.limit_rate) (checked_rate-bounds r.current_rate)

validate_rate_info-has_rates : (r : Option RateInfo) → has_rates (validate_rate_info r) ≡ true
unfolding validate_rate_info
validate_rate_info-has_rates none = refl
validate_rate_info-has_rates (some r) = checked-has_rates r

validate_rate_info-same : (r : Option RateInfo) → has_rates r ≡ true → validate_rate_info r ≡ r
unfolding validate_rate_info
validate_rate_info-same none e = refl
validate_rate_info-same (some r) e =
    let (l, c) = parts (is_rate r.limit_rate) (is_rate r.current_rate) e in
    ap (λ n. some (record r { limit_rate = n; current_rate = checked_rate r.current_rate }))
      (checked_rate-same r.limit_rate l)
    ∙ ap (λ n. some (record r { current_rate = n })) (checked_rate-same r.current_rate c)

validate-checked : (c : LocalConfig) → is_checked (validate c) ≡ true
unfolding validate
validate-checked c =
    both (has_rates (validate_rate_info c.global) && has_rates (validate_rate_info c.busy)) _
      (both (has_rates (validate_rate_info c.global)) _ (validate_rate_info-has_rates c.global)
        (validate_rate_info-has_rates c.busy))
      (validate_rate_info-has_rates c.free)

validate-same : (c : LocalConfig) → is_checked c ≡ true → validate c ≡ c
unfolding validate
validate-same c e =
    let (gb, f) = parts (has_rates c.global && has_rates c.busy) (has_rates c.free) e in
    let (g, b) = parts (has_rates c.global) (has_rates c.busy) gb in
    ap
      (λ x. record {
        global = x;
        busy = validate_rate_info c.busy;
        free = validate_rate_info c.free;
      })
      (validate_rate_info-same c.global g)
    ∙ ap (λ x. record { global = c.global; busy = x; free = validate_rate_info c.free })
        (validate_rate_info-same c.busy b)
    ∙ ap (λ x. record { global = c.global; busy = c.busy; free = x })
        (validate_rate_info-same c.free f)

-- After `Validate` every rate of a configuration is between the smallest and the largest one; it
-- changes a configuration exactly when some rate is not, and a second time it changes nothing.
pub validate-is_checked :
    (c : LocalConfig)
    → (is_checked (validate c) ≡ true)
      × ((validate c ≡ c) ↔ (is_checked c ≡ true))
      × (validate (validate c) ≡ validate c)
validate-is_checked c = (
  validate-checked c,
  ((λ e. sym (ap is_checked e) ∙ validate-checked c), validate-same c),
  validate-same (validate c) (validate-checked c),
)
