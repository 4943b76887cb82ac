-- ===== src/Mirrors/Threaded.antt =====
-- `mergeSort` with the map that its handler carries is the plain version, when the handler's answers
-- do not depend on which defaults are in the map.
use lastore_daemon.Base.{
  ℕ, zero, suc, ◌/◌, Bool, true, false, List, [], ◌∷◌, Option, none, some, String, ◌≡◌, refl, ltb,
  length, take, drop, Bool-cases, inl, inr, ap, ◌∙◌, subst,
}
use lastore_daemon.Mirrors.{
  Quality, QualityMap, default_quality, Handler, put_first, merge, merge_sort,
}
use lastore_daemon.Mirrors.Sorting.{
  short_or, interleave, interleave_left, interleave_right, plain_sort,
}

-- What the map says of a mirror.
abbrev pub known_quality : Option Quality → Quality
known_quality none = default_quality
known_quality (some q) = q

-- A map that says what `q` says.
abbrev pub Says : (String → Quality) → QualityMap → Type 0
Says q m = (x : String) → known_quality (m x) ≡ q x

-- A handler whose answer is a function of what the map says, which it leaves as it is.
pub record Answers (q : String → Quality) (le : String → String → Bool) (h : Handler) : Type 0 where
  pub answer : (m : QualityMap) (x y : String) → Says q m → (h m x y).1 ≡ le x y
  pub keeps : (m : QualityMap) (x y : String) → Says q m → Says q (h m x y).0

-- With answers that are a function, the map that the sort carries is not read.
module _ (q : String → Quality) (le : String → String → Bool) (h : Handler)
    (a : Answers q le h) where
  merge_left :
      (m : QualityMap) (x y : String) (l r : List String)
      → (h m x y).1 ≡ true
      → merge h m (x ∷ l) (y ∷ r) ≡ put_first x (merge h (h m x y).0 l (y ∷ r))
  unfolding merge
  merge_left m x y l r p = rw (p, merge) refl

  merge_right :
      (m : QualityMap) (x y : String) (l r : List String)
      → (h m x y).1 ≡ false
      → merge h m (x ∷ l) (y ∷ r) ≡ put_first y (merge h (h m x y).0 (x ∷ l) r)
  unfolding merge
  merge_right m x y l r p = rw (p, merge) refl

  -- What the plain version gives, with a map that still says the same.
  abbrev pub Gives : List String → QualityMap × List String → Type 0
  Gives l out = Says q out.0 × (out.1 ≡ l)

  merge-Gives :
      (l r : List String) (m : QualityMap) → Says q m → Gives (interleave le l r) (merge h m l r)
  unfolding merge
  merge-Gives [] r m s = (s, refl)
  merge-Gives (x ∷ l) [] m s = (s, refl)
  merge-Gives (x ∷ l) (y ∷ r) m s =
      let m' = (h m x y).0 in
      elim (Bool-cases (le x y)) [
        | inl p ↦
            let (s', e) = merge-Gives l (y ∷ r) m' (a.keeps m x y s) in
            rw (merge_left m x y l r (a.answer m x y s ∙ p), interleave_left le x y l r p)
              (s', ap (λ k. x ∷ k) e)
        | inr p ↦
            let (s', e) = merge-Gives (x ∷ l) r m' (a.keeps m x y s) in
            rw (merge_right m x y l r (a.answer m x y s ∙ p), interleave_right le x y l r p)
              (s', ap (λ k. y ∷ k) e)
      ]

  short_or-Gives :
      (b : Bool) (l k : List String) (m : QualityMap) (out : QualityMap × List String)
      → Says q m
      → Gives k out
      → Gives (short_or b l k) (elim b [ true ↦ (m, l) | false ↦ out ])
  short_or-Gives true l k m out s g = (s, refl)
  short_or-Gives false l k m out s g = g

  merge_both-Gives :
      (b : Bool) (l k k' : List String) (m : QualityMap) (out out' : QualityMap × List String)
      → Says q m
      → out.1 ≡ k
      → Gives k' out'
      → Gives
          (short_or b l (interleave le k k'))
          (elim b [ true ↦ (m, l) | false ↦ merge h out'.0 out.1 out'.1 ])
  merge_both-Gives b l k k' m out out' s e (s', e') =
      short_or-Gives b l (interleave le k k') m (merge h out'.0 out.1 out'.1) s (
        subst (λ z. Gives (interleave le z k') (merge h out'.0 out.1 out'.1)) e
          (subst (λ z. Gives (interleave le out.1 z) (merge h out'.0 out.1 out'.1)) e'
            (merge-Gives out.1 out'.1 out'.0 s')))

  pub merge_sort-Gives :
      (fuel : ℕ) (l : List String) (m : QualityMap)
      → Says q m
      → Gives (plain_sort le fuel l) (merge_sort fuel h m l)
  unfolding merge_sort
  merge_sort-Gives zero l m s = (s, refl)
  merge_sort-Gives (suc fuel) l m s =
      let n = length l / 2 in
      let (s1, e1) = merge_sort-Gives fuel (take n l) m s in
      let m1 = (merge_sort fuel h m (take n l)).0 in
      let g2 = merge_sort-Gives fuel (drop n l) m1 s1 in
      merge_both-Gives (ltb (length l) 2) l (plain_sort le fuel (take n l))
        (plain_sort le fuel (drop n l)) m (merge_sort fuel h m (take n l))
        (merge_sort fuel h m1 (drop n l)) s e1 g2
