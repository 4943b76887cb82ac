-- ===== src/Mirrors/Known.antt =====
-- Which mirrors have an entry in the map when `mergeSort` ends: all, of a list that is not a
-- single mirror.
use mathlib.Core.List.{Mem, mem-cons, mem-append, not-mem-nil}
use mathlib.Core.Logic.Or
use lastore_daemon.Base.{
  ℕ, zero, suc, ◌≤◌, ◌/◌, Bool, true, false, List, [], ◌∷◌, ◌++◌, Option, none, some, String,
  str_eq, ◌≡◌, refl, arith, if◌then◌else◌, ltb, length, take, drop, Bool-cases, inl, inr, ap, sym,
  ◌⊎◌, subst, Option-cases, str_eq_self, length-take, length-drop, length-append, take-append-drop,
}
use lastore_daemon.Mirrors.{
  Quality, QualityMap, default_quality, Handler, get_quality, set_quality, merge, merge_sort,
  select_less_access, compare,
}

abbrev pub is_known : Option Quality → Bool
is_known none = false
is_known (some q) = true

-- The mirrors that have an entry.
abbrev pub Knows : QualityMap → String → Type 0
Knows m x = is_known (m x) ≡ true

abbrev pub Grows : QualityMap → QualityMap → Type 0
Grows m m' = (x : String) → Knows m x → Knows m' x

-- A handler that gives both its mirrors an entry, and takes none away.
pub record Enters (h : Handler) : Type 0 where
  pub grows : (m : QualityMap) (x y : String) → Grows m (h m x y).0
  pub knows_left : (m : QualityMap) (x y : String) → Knows (h m x y).0 x
  pub knows_right : (m : QualityMap) (x y : String) → Knows (h m x y).0 y

pub set_quality-Knows :
    (x y : String) (q : Quality) (m : QualityMap) → Knows m y → Knows (set_quality x q m) y
set_quality-Knows x y q m k = elim (Bool-cases (str_eq x y)) [
  | inl p ↦ rw (p, if◌then◌else◌, is_known) refl
  | inr p ↦ rw (p, if◌then◌else◌) k
]

get_quality-Grows : (x : String) (m : QualityMap) → Grows m (get_quality x m).0
unfolding get_quality
get_quality-Grows x m y k = elim (Option-cases (m x)) [
  | inl e ↦ rw (e, get_quality) (set_quality-Knows x y default_quality m k)
  | inr (a, e) ↦ rw (e, get_quality) k
]

get_quality-Knows : (x : String) (m : QualityMap) → Knows (get_quality x m).0 x
unfolding get_quality
get_quality-Knows x m = elim (Option-cases (m x)) [
  | inl e ↦ rw (e, get_quality, str_eq_self x, if◌then◌else◌, is_known) refl
  | inr (a, e) ↦ rw (e, get_quality) (ap is_known e)
]

module _ (m : QualityMap) (x y : String) where
  both-Grows : Grows m (get_quality y (get_quality x m).0).0
  both-Grows z k = get_quality-Grows y (get_quality x m).0 z (get_quality-Grows x m z k)

  both_left : Knows (get_quality y (get_quality x m).0).0 x
  both_left = get_quality-Grows y (get_quality x m).0 x (get_quality-Knows x m)

  both_right : Knows (get_quality y (get_quality x m).0).0 y
  both_right = get_quality-Knows y (get_quality x m).0

pub select_less_access-Enters : Enters select_less_access
unfolding select_less_access
select_less_access-Enters = record {
  grows = both-Grows;
  knows_left = both_left;
  knows_right = both_right;
}

pub compare-Enters : (adjust : String → ℕ) → Enters (compare adjust)
unfolding compare
compare-Enters adjust = record {
  grows = both-Grows;
  knows_left = both_left;
  knows_right = both_right;
}

module _ (h : Handler) (enters : Enters h) where
  merge-Grows : (l r : List String) (m : QualityMap) → Grows m (merge h m l r).0
  unfolding merge
  merge-Grows [] r m z k = k
  merge-Grows (x ∷ l) [] m z k = k
  merge-Grows (x ∷ l) (y ∷ r) m z k = elim (Bool-cases (h m x y).1) [
    | inl p ↦ rw (p, merge) (merge-Grows l (y ∷ r) (h m x y).0 z (enters.grows m x y z k))
    | inr p ↦ rw (p, merge) (merge-Grows (x ∷ l) r (h m x y).0 z (enters.grows m x y z k))
  ]

  -- The heads of both lists have an entry after the first step.
  merge_first :
      (x y : String) (l r : List String) (m : QualityMap) (z : String)
      → Knows (h m x y).0 z
      → Knows (merge h m (x ∷ l) (y ∷ r)).0 z
  unfolding merge
  merge_first x y l r m z k = elim (Bool-cases (h m x y).1) [
    | inl p ↦ rw (p, merge) (merge-Grows l (y ∷ r) (h m x y).0 z k)
    | inr p ↦ rw (p, merge) (merge-Grows (x ∷ l) r (h m x y).0 z k)
  ]

  length-merge : (l r : List String) (m : QualityMap) → length (merge h m l r).1 ≡ length (l ++ r)
  unfolding merge
  length-merge [] r m = refl
  length-merge (x ∷ l) [] m = omega (arith, length-append l [])
  length-merge (x ∷ l) (y ∷ r) m = elim (Bool-cases (h m x y).1) [
    | inl p ↦ rw (p, merge) (ap suc (length-merge l (y ∷ r) (h m x y).0))
    | inr p ↦
        rw (p, merge)
          (omega
            (arith, length-merge (x ∷ l) r (h m x y).0, length-append l (y ∷ r), length-append l r))
  ]

  -- The list is that mirror.
  abbrev Alone : List String → String → Type 0
  Alone l z = Mem z l × (length l ≡ 1)

  Alone-head :
      (x z : String) (l : List String) (m : QualityMap) → Alone (x ∷ l) z → Knows m x → Knows m z
  Alone-head x z [] m (i, e) k =
      Or.elim (hlevel) (mem-cons.0 i) (λ j. subst (Knows m) (sym j) k) (λ j. absurd (not-mem-nil j))
  Alone-head x z (y ∷ l) m (i, e) k = absurd (omega (arith, e))

  -- Merging two lists that are not empty gives single mirrors an entry, and takes none away.
  merge-Knows :
      (l r : List String) (m : QualityMap) (z : String)
      → 1 ≤ length l
      → 1 ≤ length r
      → Knows m z ⊎ (Alone l z ⊎ Alone r z)
      → Knows (merge h m l r).0 z
  merge-Knows [] r m z p p' e = absurd (omega arith)
  merge-Knows (x ∷ l) [] m z p p' e = absurd (omega arith)
  merge-Knows (x ∷ l) (y ∷ r) m z p p' (inl k) = merge-Grows (x ∷ l) (y ∷ r) m z k
  merge-Knows (x ∷ l) (y ∷ r) m z p p' (inr (inl e)) =
      merge_first x y l r m z (Alone-head x z l (h m x y).0 e (enters.knows_left m x y))
  merge-Knows (x ∷ l) (y ∷ r) m z p p' (inr (inr e)) =
      merge_first x y l r m z (Alone-head y z r (h m x y).0 e (enters.knows_right m x y))

  pub length-merge_sort :
      (fuel : ℕ) (l : List String) (m : QualityMap) → length (merge_sort fuel h m l).1 ≡ length l
  unfolding merge_sort
  length-merge_sort zero l m = refl
  length-merge_sort (suc fuel) l m =
      let left = merge_sort fuel h m (take (length l / 2) l) in
      let right = merge_sort fuel h left.0 (drop (length l / 2) l) in
      elim (Bool-cases (ltb (length l) 2)) [
        | inl p ↦ rw (p, merge_sort) refl
        | inr p ↦
            rw (p, merge_sort)
              (omega (
                arith,
                length-merge left.1 right.1 right.0,
                length-append left.1 right.1,
                length-merge_sort fuel (take (length l / 2) l) m,
                length-merge_sort fuel (drop (length l / 2) l) left.0,
                length-take (length l / 2) l,
                length-drop (length l / 2) l,
              ))
      ]

  pub merge_sort-Grows :
      (fuel : ℕ) (l : List String) (m : QualityMap) → Grows m (merge_sort fuel h m l).0
  unfolding merge_sort
  merge_sort-Grows zero l m z k = k
  merge_sort-Grows (suc fuel) l m z k =
      let left = merge_sort fuel h m (take (length l / 2) l) in
      let right = merge_sort fuel h left.0 (drop (length l / 2) l) in
      elim (Bool-cases (ltb (length l) 2)) [
        | inl p ↦ rw (p, merge_sort) k
        | inr p ↦
            rw (p, merge_sort)
              (merge-Grows left.1 right.1 right.0 z (
                merge_sort-Grows fuel (drop (length l / 2) l) left.0 z
                  (merge_sort-Grows fuel (take (length l / 2) l) m z k)))
      ]

  long_sort :
      (fuel : ℕ) (m : QualityMap) (x y : String) (k : List String)
      → let l = x ∷ y ∷ k in
        let left = merge_sort fuel h m (take (length l / 2) l) in
        let right = merge_sort fuel h left.0 (drop (length l / 2) l) in
        merge_sort (suc fuel) h m l ≡ merge h right.0 left.1 right.1
  unfolding merge_sort
  long_sort fuel m x y k = rw (long, merge_sort) refl
    where
      long : ltb (length (x ∷ y ∷ k)) 2 ≡ false
      long = ground arith

  left_part :
      (m m' : QualityMap) (l r : List String) (z : String)
      → (Knows m z → Knows m' z)
      → Knows m z ⊎ Alone l z
      → Knows m' z ⊎ (Alone l z ⊎ Alone r z)
  left_part m m' l r z g (inl e) = inl (g e)
  left_part m m' l r z g (inr e) = inr (inl e)

  right_part :
      (m : QualityMap) (l r : List String) (z : String)
      → Knows m z ⊎ Alone r z
      → Knows m z ⊎ (Alone l z ⊎ Alone r z)
  right_part m l r z (inl e) = inl e
  right_part m l r z (inr e) = inr (inr e)

  -- Of a sorted list, each mirror has an entry or is the only one.
  sorted-Knows :
      (fuel : ℕ) (l : List String) (m : QualityMap) (z : String)
      → length l ≤ fuel
      → Mem z l
      → Knows (merge_sort fuel h m l).0 z ⊎ Alone (merge_sort fuel h m l).1 z
  unfolding merge_sort
  sorted-Knows fuel [] m z p i = absurd (not-mem-nil i)
  sorted-Knows zero (x ∷ l) m z p i = absurd (omega arith)
  sorted-Knows (suc fuel) (x ∷ []) m z p i = inr (i, refl)
  sorted-Knows (suc fuel) (x ∷ y ∷ k) m z p i =
      let l = x ∷ y ∷ k in
      let n = length l / 2 in
      let left = merge_sort fuel h m (take n l) in
      let right = merge_sort fuel h left.0 (drop n l) in
      let half = length-take n l in
      let rest = length-drop n l in
      let go =
        merge-Knows left.1 right.1 right.0 z
          (omega (arith, length-merge_sort fuel (take n l) m, half))
          (omega (arith, length-merge_sort fuel (drop n l) left.0, rest)) in
      inl (
        subst (λ out. Knows out.0 z) (sym (long_sort fuel m x y k))
          (Or.elim (hlevel) (mem-append.0 (subst (Mem z) (sym (take-append-drop n l)) i))
            (λ j. go (
              left_part left.0 right.0 left.1 right.1 z (merge_sort-Grows fuel (drop n l) left.0 z)
                (sorted-Knows fuel (take n l) m z (omega (arith, half)) j)))
            (λ j. go (
              right_part right.0 left.1 right.1 z
                (sorted-Knows fuel (drop n l) left.0 z (omega (arith, rest)) j)))))

  -- Of two mirrors or more, each has an entry.
  pub all-Knows :
      (x y : String) (k : List String) (m : QualityMap) (z : String)
      → Mem z (x ∷ y ∷ k)
      → Knows (merge_sort (length (x ∷ y ∷ k)) h m (x ∷ y ∷ k)).0 z
  all-Knows x y k m z i =
      let l = x ∷ y ∷ k in
      elim (sorted-Knows (length l) l m z (omega arith) i) [
        | inl e ↦ e
        | inr (j, e) ↦ absurd (omega (arith, e, length-merge_sort (length l) l m))
      ]
