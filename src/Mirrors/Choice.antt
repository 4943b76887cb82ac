-- ===== src/Mirrors/Choice.antt =====
-- The choice of `detectSelectMirror`: which mirrors, and whether the count of it succeeds.
use mathlib.Core.List.{
  Mem, Perm, Nodup, Nodup-append, Disjoint-left, mem-append, mem-cons_of_mem, mem-cons_self,
}
use mathlib.Core.List.Perm
use mathlib.Core.List.Nodup
use mathlib.Core.Logic.Or
use lastore_daemon.Base.{
  ℕ, suc, ◌-◌, ◌≤◌, Bool, true, false, not, List, [], ◌∷◌, ◌++◌, Option, none, some, String, ◌≡◌,
  refl, arith, length, take, ap, sym, ◌∙◌, subst, length-take, length-append, mem-take, mem-keep,
  keep-Nodup, take-Nodup, Option-cases, inl, inr, str_eq_self,
}
use lastore_daemon.Mirrors.{
  QualityMap, sort_select, less_access, fill_up, selection, merge_sort, set_quality,
  select_less_access, count_detects, detect_select,
}
use lastore_daemon.Mirrors.Selection.{
  others, fill_up_lem, sort_select-Perm, others_not, less_access-IsOrdered,
}
use lastore_daemon.Mirrors.Known.{
  Knows, is_known, all-Knows, select_less_access-Enters, set_quality-Knows,
}

part-Nodup : (a b l : List String) → Perm (a ++ b) l → Nodup l → Nodup a
part-Nodup a b l p d = Nodup.of_append_left b (Perm.nodup (Perm.symm p) d)

part-Mem : (a b l : List String) → Perm (a ++ b) l → (x : String) → Mem x a → Mem x l
part-Mem a b l p x i = (Perm.mem_iff p).0 (mem-append.1 (Or.inl i))

module _ (adjust : String → ℕ) (m : QualityMap) (l : List String) where
  chosen_lem :
      let best = (sort_select adjust m l).1 in
      let rare = (less_access (sort_select adjust m l).0 l).1 in
      (selection adjust m l).1 ≡ best ++ take (5 - length best) (others best rare)
  unfolding selection
  chosen_lem =
      let best = (sort_select adjust m l).1 in
      let rare = (less_access (sort_select adjust m l).0 l).1 in
      let few = (sort_select-Perm adjust m l).2 in
      let room : suc (4 - length best) ≡ 5 - length best = omega (arith, few) in
      fill_up_lem (4 - length best) best best rare (omega (arith, few))
      ∙ ap (λ k. best ++ take k (others best rare)) room

  chosen_mem : (x : String) → Mem x (selection adjust m l).1 → Mem x l
  chosen_mem x i =
      let best = (sort_select adjust m l).1 in
      let rare = (less_access (sort_select adjust m l).0 l).1 in
      let (rest, p, _) = sort_select-Perm adjust m l in
      let (rest', p', _, _) = less_access-IsOrdered (sort_select adjust m l).0 l in
      Or.elim (hlevel) (mem-append.0 (subst (Mem x) chosen_lem i)) (part-Mem best rest l p x) (λ j.
        part-Mem rare rest' l p' x
          (mem-keep _ rare (mem-take (5 - length best) (others best rare) j)).0)

-- When no mirror is listed twice, `detectSelectMirror` chooses what `sortSelectMirror` gives,
-- then, in their order, the mirrors of `lessAccessSelectMirror` that are not among these, five in all at most; the choices
-- are in the list and differ.
pub selection-Nodup :
    (adjust : String → ℕ) (m : QualityMap) (l : List String)
    → Nodup l
    → let best = (sort_select adjust m l).1 in
      let rare = (less_access (sort_select adjust m l).0 l).1 in
      let chosen = (selection adjust m l).1 in
      (chosen ≡ best ++ take (5 - length best) (others best rare))
      × (length chosen ≤ 5)
      × Nodup chosen
      × ((x : String) → Mem x chosen → Mem x l)
selection-Nodup adjust m l d =
    let best = (sort_select adjust m l).1 in
    let rare = (less_access (sort_select adjust m l).0 l).1 in
    let (rest, p, few) = sort_select-Perm adjust m l in
    let (rest', p', _, _) = less_access-IsOrdered (sort_select adjust m l).0 l in
    let n = 5 - length best in
    let exact = chosen_lem adjust m l in
    (
      exact,
      omega (
        arith,
        ap length exact,
        length-append best (take n (others best rare)),
        few,
        length-take n (others best rare),
      ),
      subst Nodup (sym exact) (
          Nodup-append.1 (
            part-Nodup best rest l p d,
            take-Nodup n (others best rare) (keep-Nodup _ rare (part-Nodup rare rest' l p' d)),
            Disjoint-left.1 (λ x i j. others_not best rare x (mem-take n (others best rare) j) i),
          )),
      chosen_mem adjust m l,
    )

-- Counting succeeds where every choice has an entry.
count_detects-Knows :
    (l : List String) (m : QualityMap)
    → ((x : String) → Mem x l → Knows m x)
    → (m' : QualityMap) × (count_detects l m ≡ some m')
unfolding count_detects
count_detects-Knows [] m k = (m, refl)
count_detects-Knows (x ∷ l) m k = elim (Option-cases (m x)) [
  | inl e ↦ absurd (ground (arith, e, k x mem-cons_self))
  | inr (q, e) ↦
      let m' = set_quality x (record q { detect_count = suc q.detect_count }) m in
      let (out, f) =
        count_detects-Knows l m' (λ y i. set_quality-Knows x y _ m (k y (mem-cons_of_mem x i))) in
      (out, rw (e, count_detects) f)
]

abbrev pub is_none : Option (List String × QualityMap) → Bool
is_none none = true
is_none (some out) = false

-- A single mirror that has no entry.
abbrev pub is_unseen : QualityMap → List String → Bool
is_unseen m [] = false
is_unseen m (x ∷ []) = not (is_known (m x))
is_unseen m (x ∷ y ∷ l) = false

detect_select-count :
    (adjust : String → ℕ) (m : QualityMap) (l : List String)
    → ((x : String) → Mem x (selection adjust m l).1 → Knows (selection adjust m l).0 x)
    → is_none (detect_select adjust m l) ≡ false
unfolding detect_select
detect_select-count adjust m l k =
    let (out, e) = count_detects-Knows (selection adjust m l).1 (selection adjust m l).0 k in
    rw (e, detect_select, is_none) refl

fill_up-same : (x : String) → fill_up (x ∷ []) (x ∷ []) (x ∷ []) ≡ x ∷ []
unfolding fill_up
fill_up-same x = rw (str_eq_self x, fill_up) refl

selection-alone :
    (adjust : String → ℕ) (m : QualityMap) (x : String) → selection adjust m (x ∷ []) ≡ (m, x ∷ [])
unfolding selection less_access sort_select merge_sort
selection-alone adjust m x = ap (λ k. (m, k)) (fill_up-same x)

-- The answer of `detect_select` for a choice and its map.
abbrev counted : QualityMap × List String → Option (List String × QualityMap)
counted (m, chosen) = elim (count_detects chosen m) [ none ↦ none | some m' ↦ some (chosen, m') ]

counted-alone : (m : QualityMap) (x : String) → is_none (counted (m, x ∷ [])) ≡ not (is_known (m x))
unfolding count_detects
counted-alone m x = elim (Option-cases (m x)) [
  | inl e ↦ rw (e, count_detects, counted, is_none, is_known) refl
  | inr (q, e) ↦ rw (e, count_detects, counted, is_none, is_known) refl
]

-- `detectSelectMirror` panics for a single mirror for which the map has no entry, and for no other
-- list of mirrors.
pub detect_select-is_unseen :
    (adjust : String → ℕ) (m : QualityMap) (l : List String)
    → is_none (detect_select adjust m l) ≡ is_unseen m l
unfolding detect_select selection less_access sort_select fill_up merge_sort
detect_select-is_unseen adjust m [] = refl
detect_select-is_unseen adjust m (x ∷ []) =
    ap (λ k. is_none (counted k)) (selection-alone adjust m x) ∙ counted-alone m x
detect_select-is_unseen adjust m (x ∷ y ∷ l) = detect_select-count adjust m (x ∷ y ∷ l) (λ z i.
    all-Knows select_less_access select_less_access-Enters x y l _ z
      (chosen_mem adjust m (x ∷ y ∷ l) z i))
