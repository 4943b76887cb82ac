-- ===== src/Mirrors/Examples.antt =====
-- Small runs of the choice of mirrors, and the theorems at them.
use mathlib.Core.List.{Nodup, Nodup-cons, Nodup-nil, Perm, not-mem-nil}
use Prim.Native.Nat.{min}
use lastore_daemon.Base.{
  ℕ, true, false, List, [], ◌∷◌, none, some, String, ◌≡◌, refl, arith, ◌++◌, length,
}
use lastore_daemon.Mirrors.{
  Quality, QualityMap, set_quality, update_quality, compare, detect_select, selection,
  select_less_access, less_access,
}
use lastore_daemon.Mirrors.Sorting.{IsOrdered}
use lastore_daemon.Mirrors.Answered.{rarer}
use lastore_daemon.Mirrors.Selection.{known_in, mem_any, less_access-IsOrdered}
use lastore_daemon.Mirrors.Choice.{is_none, is_unseen, detect_select-is_unseen}

abbrev no_adjust : String → ℕ
no_adjust x = 0

abbrev nothing : QualityMap
nothing x = none

abbrev quality : ℕ → ℕ → ℕ → ℕ → Quality
quality detects accesses failures delay = record {
  detect_count = detects;
  access_count = accesses;
  failed_count = failures;
  average_delay = delay;
}

abbrev seen : QualityMap
seen =
    set_quality "a" (quality 3 2 1 10)
      (set_quality "b" (quality 1 2 0 90) (set_quality "c" (quality 0 4 0 40) nothing))

picks : (selection no_adjust seen ("a" ∷ "b" ∷ "c" ∷ "d" ∷ [])).1 ≡ "c" ∷ "b" ∷ "d" ∷ "a" ∷ []
unfolding selection select_less_access compare
picks = refl

-- The average of the delays, over one access more.
reported :
    update_quality (record { mirror = "b"; delay = 30; failed = true }) seen "b"
    ≡ some (quality 1 3 1 70)
unfolding update_quality
reported = refl

-- `compare` is no order where a mirror was never accessed: "x" is before "y", "y" before "z", and
-- "z" before "x".
abbrev odd : QualityMap
odd =
    set_quality "x" (quality 0 2 1 1)
      (set_quality "y" (quality 0 0 0 5) (set_quality "z" (quality 0 1 0 10) nothing))

cycle :
    ((compare no_adjust odd "x" "y").1 ≡ true)
    × ((compare no_adjust odd "y" "z").1 ≡ true)
    × ((compare no_adjust odd "x" "z").1 ≡ false)
unfolding compare
cycle = (refl, refl, refl)

abbrev pair : List String
pair = "a" ∷ "b" ∷ []

pair-Nodup : Nodup pair
pair-Nodup = Nodup-cons.1 (
  (λ i. absurd (ground (arith, mem_any "a" ("b" ∷ []) i))),
  Nodup-cons.1 ((λ i. not-mem-nil i), Nodup-nil),
)

less_access-IsOrdered_example :
    (rest : List String) × Perm ((less_access seen pair).1 ++ rest) pair
    × IsOrdered (rarer (known_in seen)) ((less_access seen pair).1 ++ rest)
    × (length (less_access seen pair).1 ≡ min 5 (length pair))
less_access-IsOrdered_example = less_access-IsOrdered seen pair

detect_select-is_unseen_example :
    is_none (detect_select no_adjust seen ("d" ∷ [])) ≡ is_unseen seen ("d" ∷ [])
detect_select-is_unseen_example = detect_select-is_unseen no_adjust seen ("d" ∷ [])
