-- ===== src/Mirrors/Answered.antt =====
-- The two handlers answer by what the map says of each mirror, and leave that as it is.
use lastore_daemon.Base.{
  ℕ, ◌+◌, ◌*◌, Bool, true, false, none, String, str_eq, ◌≡◌, refl, if◌then◌else◌, ltb, leb,
  Bool-cases, inl, inr, ap, ◌∙◌, str_eq_iff, Option-cases, subst,
}
use lastore_daemon.Mirrors.{
  Quality, QualityMap, default_quality, get_quality, set_quality, select_less_access, compare,
}
use lastore_daemon.Mirrors.Threaded.{known_quality, Says, Answers}

-- The order of `select_less_access`, on what is known of the mirrors.
abbrev pub rarer : (String → Quality) → String → String → Bool
rarer q x y = leb (q x).detect_count (q y).detect_count

-- The test of `compare`.
abbrev judge : Quality → Quality → ℕ → ℕ → Bool
judge l r a b =
    if ltb (l.failed_count * r.access_count) (r.failed_count * l.access_count)
    then true
    else if ltb (r.failed_count * l.access_count) (l.failed_count * r.access_count)
    then false
    else leb (l.average_delay + a) (r.average_delay + b)

-- The order of `compare`, on what is known of the mirrors.
abbrev pub better : (String → ℕ) → (String → Quality) → String → String → Bool
better adjust q x y = judge (q x) (q y) (adjust x) (adjust y)

get_quality_known : (x : String) (m : QualityMap) → (get_quality x m).1 ≡ known_quality (m x)
unfolding get_quality
get_quality_known x m = elim (Option-cases (m x)) [
  | inl e ↦ rw (e, get_quality, known_quality) refl
  | inr (a, e) ↦ rw (e, get_quality, known_quality) refl
]

default_known :
    (x y : String) (m : QualityMap)
    → m x ≡ none
    → known_quality (set_quality x default_quality m y) ≡ known_quality (m y)
default_known x y m e = elim (Bool-cases (str_eq x y)) [
  | inl p ↦
      let e' : m y ≡ none = subst (λ z. m z ≡ none) ((str_eq_iff x y).0 p) e in
      rw (p, e', if◌then◌else◌, known_quality) refl
  | inr p ↦ rw (p, if◌then◌else◌) refl
]

get_quality-keeps :
    (x y : String) (m : QualityMap) → known_quality ((get_quality x m).0 y) ≡ known_quality (m y)
unfolding get_quality
get_quality-keeps x y m = elim (Option-cases (m x)) [
  | inl e ↦ rw (e, get_quality) (default_known x y m e)
  | inr (a, e) ↦ rw (e, get_quality) refl
]

get_quality-Says :
    (q : String → Quality) (x : String) (m : QualityMap) → Says q m → Says q (get_quality x m).0
get_quality-Says q x m s y = get_quality-keeps x y m ∙ s y

module _ (q : String → Quality) (m : QualityMap) (x y : String) (s : Says q m) where
  left_known : (get_quality x m).1 ≡ q x
  left_known = get_quality_known x m ∙ s x

  right_known : (get_quality y (get_quality x m).0).1 ≡ q y
  right_known = get_quality_known y (get_quality x m).0 ∙ get_quality-Says q x m s y

  both-Says : Says q (get_quality y (get_quality x m).0).0
  both-Says = get_quality-Says q y (get_quality x m).0 (get_quality-Says q x m s)

pub select_less_access-Answers : (q : String → Quality) → Answers q (rarer q) select_less_access
unfolding select_less_access
select_less_access-Answers q = record {
  answer = λ m x y s.
      ap (λ a. leb a.detect_count (get_quality y (get_quality x m).0).1.detect_count)
        (left_known q m x y s)
      ∙ ap (λ a. leb (q x).detect_count a.detect_count) (right_known q m x y s);
  keeps = λ m x y s. both-Says q m x y s;
}

pub compare-Answers :
    (adjust : String → ℕ) (q : String → Quality) → Answers q (better adjust q) (compare adjust)
unfolding compare
compare-Answers adjust q = record {
  answer = λ m x y s.
      ap (λ a. judge a (get_quality y (get_quality x m).0).1 (adjust x) (adjust y))
        (left_known q m x y s)
      ∙ ap (λ a. judge (q x) a (adjust x) (adjust y)) (right_known q m x y s);
  keeps = λ m x y s. both-Says q m x y s;
}
