-- ===== src/Mirrors/Selection.antt =====
-- What `detectSelectMirror` chooses of a list of mirrors, and when it has an entry for each choice.
use mathlib.Core.List.{Mem, Perm, append-nil, mem-cons, not-mem-nil, append_assoc}
use mathlib.Core.Logic.Or
use Prim.Native.Nat.{min}
use lastore_daemon.Base.{
  ℕ, zero, suc, ◌+◌, ◌≤◌, true, false, not, List, [], ◌∷◌, ◌++◌, String, str_eq, ◌≡◌, refl, arith,
  leb, length, take, drop, keep, any, Bool-cases, inl, inr, sym, ◌∙◌, subst, if◌then◌else◌,
  take-append-drop, length-take, length-append, perm-length, mem-keep, str_eq_iff,
}
use lastore_daemon.Mirrors.{
  Quality, QualityMap, select_less_access, compare, merge_sort, sort_select, less_access, fill_up,
}
use lastore_daemon.Mirrors.Sorting.{plain_sort, plain_sort-perm, plain_sort-IsOrdered, IsOrdered}
use lastore_daemon.Mirrors.Threaded.{known_quality, merge_sort-Gives}
use lastore_daemon.Mirrors.Answered.{rarer, better, select_less_access-Answers, compare-Answers}

-- What the map says now.
abbrev pub known_in : QualityMap → String → Quality
known_in m x = known_quality (m x)

leb_total : (a b : ℕ) → leb a b ≡ false → leb b a ≡ true
leb_total a b p = ground arith

leb_trans : (a b c : ℕ) → leb a b ≡ true → leb b c ≡ true → leb a c ≡ true
leb_trans a b c p p' = ground arith

-- `lessAccessSelectMirror` chooses up to five mirrors: they and the others are the list that it is
-- given, and no mirror after another in that order was detected less often.
pub less_access-IsOrdered :
    (m : QualityMap) (l : List String)
    → (rest : List String) × Perm ((less_access m l).1 ++ rest) l
      × IsOrdered (rarer (known_in m)) ((less_access m l).1 ++ rest)
      × (length (less_access m l).1 ≡ min 5 (length l))
unfolding less_access
less_access-IsOrdered m l =
    let q = known_in m in
    let le = rarer q in
    let sorted = (merge_sort (length l) select_less_access m l).1 in
    let plain : sorted ≡ plain_sort le (length l) l =
      (merge_sort-Gives q le select_less_access (select_less_access-Answers q) (length l) l m
        (λ x. refl)).1 in
    let p : Perm sorted l = subst (λ k. Perm k l) (sym plain) (plain_sort-perm le (length l) l) in
    (
      drop 5 sorted,
      subst (λ k. Perm k l) (sym (take-append-drop 5 sorted)) p,
      subst (IsOrdered le) (sym (take-append-drop 5 sorted)) (
          subst (IsOrdered le) (sym plain) (
            plain_sort-IsOrdered le (λ x y. leb_total (q x).detect_count (q y).detect_count)
              (λ x y z. leb_trans (q x).detect_count (q y).detect_count (q z).detect_count)
              (length l) l (omega arith))),
      omega (arith, length-take 5 sorted, perm-length p),
    )

abbrev pub others : List String → List String → List String
others best vs = keep (λ v. not (any (str_eq v) best)) vs

fill_stops :
    (best acc vs : List String) (v : String)
    → length acc ≡ 4
    → any (str_eq v) best ≡ false
    → fill_up best acc (v ∷ vs) ≡ acc ++ (v ∷ [])
unfolding fill_up
fill_stops best acc vs v p e = rw (e, full, fill_up) refl
  where
    full : leb 5 (length (acc ++ (v ∷ []))) ≡ true
    full = ground (arith, length-append acc (v ∷ []))

fill_goes_on :
    (best acc vs : List String) (v : String)
    → suc (suc (length acc)) ≤ 5
    → any (str_eq v) best ≡ false
    → fill_up best acc (v ∷ vs) ≡ fill_up best (acc ++ (v ∷ [])) vs
unfolding fill_up
fill_goes_on best acc vs v p e = rw (e, room, fill_up) refl
  where
    room : leb 5 (length (acc ++ (v ∷ []))) ≡ false
    room = ground (arith, length-append acc (v ∷ []))

-- The loop adds, in order, what is not among the best, until there are five.
pub fill_up_lem :
    (n : ℕ) (best acc vs : List String)
    → length acc + suc n ≡ 5
    → fill_up best acc vs ≡ acc ++ take (suc n) (others best vs)
unfolding fill_up
fill_up_lem n best acc [] p = sym (append-nil acc)
fill_up_lem zero best acc (v ∷ vs) p = elim (Bool-cases (any (str_eq v) best)) [
  | inl e ↦ rw (e, fill_up, if◌then◌else◌) (fill_up_lem zero best acc vs p)
  | inr e ↦ rw (e, if◌then◌else◌) (fill_stops best acc vs v (omega (arith, p)) e)
]
fill_up_lem (suc n) best acc (v ∷ vs) p = elim (Bool-cases (any (str_eq v) best)) [
  | inl e ↦ rw (e, fill_up, if◌then◌else◌) (fill_up_lem (suc n) best acc vs p)
  | inr e ↦
      rw (e, if◌then◌else◌)
        (fill_goes_on best acc vs v (omega (arith, p)) e
          ∙ fill_up_lem n best (acc ++ (v ∷ [])) vs (omega (arith, length-append acc (v ∷ []), p))
          ∙ append_assoc acc (v ∷ []) (take (suc n) (others best vs)))
]

pub sort_select-Perm :
    (adjust : String → ℕ) (m : QualityMap) (l : List String)
    → (rest : List String) × Perm ((sort_select adjust m l).1 ++ rest) l
      × (length (sort_select adjust m l).1 ≡ min 2 (length l))
unfolding sort_select
sort_select-Perm adjust m l =
    let q = known_in m in
    let le = better adjust q in
    let sorted = (merge_sort (length l) (compare adjust) m l).1 in
    let plain : sorted ≡ plain_sort le (length l) l =
      (merge_sort-Gives q le (compare adjust) (compare-Answers adjust q) (length l) l m
        (λ x. refl)).1 in
    let p : Perm sorted l = subst (λ k. Perm k l) (sym plain) (plain_sort-perm le (length l) l) in
    (
      drop 2 sorted,
      subst (λ k. Perm k l) (sym (take-append-drop 2 sorted)) p,
      omega (arith, length-take 2 sorted, perm-length p),
    )

pub mem_any : (v : String) (l : List String) → Mem v l → any (str_eq v) l ≡ true
mem_any v [] i = absurd (not-mem-nil i)
mem_any v (x ∷ l) i =
    Or.elim (hlevel) (mem-cons.0 i) (λ e. ground (arith, str_eq_iff v x, e))
      (λ j. ground (arith, mem_any v l j))

pub others_not : (best rare : List String) (v : String) → Mem v (others best rare) → ¬ Mem v best
others_not best rare v i j =
    let e = (mem-keep (λ v. not (any (str_eq v) best)) rare i).1 in
    let e' = mem_any v best j in absurd (ground (arith, e, e'))
