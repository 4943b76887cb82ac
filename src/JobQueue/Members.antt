-- ===== src/JobQueue/Members.antt =====
-- Adding, removing, raising and finding jobs of a queue.
use mathlib.Core.List.{Mem, Perm, mem-cons, not-mem-nil}
use mathlib.Core.Logic.Or
use mathlib.Core.Option
use mathlib.Core.List.Perm
use lastore_daemon.Base.{
  ℕ, zero, suc, ◌≡◌, refl, ap, ◌∙◌, subst, ◌⊎◌, inl, inr, arith, false, List, [], ◌∷◌, Option, none,
  some, String, str_eq, str_eq_iff, Bool-cases, get_elem?, get_or, set, remove_at-perm,
  get_elem?-mem, set-perm,
}
use lastore_daemon.System.{not_found, ok, err}
use lastore_daemon.JobQueue.{
  JobQueue, Store, less, find_in, find_index, remove_at, swap_head, find, remove, raise,
}
use lastore_daemon.JobQueue.Sort.{Sorter}

module _ {F : Type 0} (st : Store F) where
  -- No job of a list has the id.
  abbrev pub Absent : String → List ℕ → Type 0
  Absent id ps = (p : ℕ) → Mem p ps → str_eq (st p).id id ≡ false

  -- What a search finds: nothing, or the first job with the id, at its index.
  abbrev pub Found : String → List ℕ → Option ℕ → Type 0
  Found id ps none = (find_in st id ps ≡ none) × Absent id ps
  Found id ps (some i) =
      (p : ℕ) × (get_elem? ps i ≡ some p) × ((st p).id ≡ id) × (find_in st id ps ≡ some p)

  Found-cons :
      (id : String) (p : ℕ) (ps : List ℕ) (r : Option ℕ)
      → str_eq (st p).id id ≡ false
      → Found id ps r
      → Found id (p ∷ ps) (Option.map suc r)
  unfolding find_in
  Found-cons id p ps none e (missing, h) = (
    rw e missing,
    λ q m. Or.elim (hlevel) (mem-cons.0 m) (λ here. ap (λ x. str_eq (st x).id id) here ∙ e) (h q),
  )
  Found-cons id p ps (some i) e (q, at, same, found) = (q, at, same, rw e found)

  find_index-Found : (id : String) (ps : List ℕ) → Found id ps (find_index st id ps)
  unfolding find_index find_in
  find_index-Found id [] = (refl, λ p m. absurd (not-mem-nil m))
  find_index-Found id (p ∷ ps) = elim (Bool-cases (str_eq (st p).id id)) [
    | inl e ↦ rw e (p, refl, (str_eq_iff _ _).0 e, rw e)
    | inr e ↦ rw e (Found-cons id p ps (find_index st id ps) e (find_index-Found id ps))
  ]

get_or_of_get_elem? :
    (i : ℕ) (ps : List ℕ) (d : ℕ) {p : ℕ} → get_elem? ps i ≡ some p → get_or ps i d ≡ p
get_or_of_get_elem? i [] d e = absurd (cc)
get_or_of_get_elem? zero (x ∷ ps) d e = ground arith
get_or_of_get_elem? (suc i) (x ∷ ps) d e = get_or_of_get_elem? i ps d e

swap_head-perm :
    (i : ℕ) (ps : List ℕ) {p : ℕ}
    → get_elem? ps i ≡ some p
    → (rest : List ℕ) × (swap_head i ps ≡ p ∷ rest) × Perm ps (p ∷ rest)
unfolding swap_head
swap_head-perm i [] e = absurd (cc)
swap_head-perm zero (x ∷ ps) e = (ps, ground arith, Perm.cons' (ground arith) Perm.rfl)
swap_head-perm (suc i) (x ∷ ps) e =
    (set ps i x, ap (λ y. y ∷ set ps i x) (get_or_of_get_elem? i ps x e), set-perm i ps x e)

module _ {F : Type 0} (st : Store F) (q : JobQueue) (id : String) where
  index_cases :
      (find_index st id q.jobs ≡ none) × (find_in st id q.jobs ≡ none) × Absent st id q.jobs
      ⊎ ((i : ℕ) × (p : ℕ) × (find_index st id q.jobs ≡ some i)
          × (get_elem? q.jobs i ≡ some p)
          × ((st p).id ≡ id)
          × (find_in st id q.jobs ≡ some p))
  index_cases = by_index (find_index st id q.jobs) refl
    where
      by_index :
          (r : Option ℕ)
          → find_index st id q.jobs ≡ r
          → (find_index st id q.jobs ≡ none) × (find_in st id q.jobs ≡ none) × Absent st id q.jobs
            ⊎ ((i : ℕ) × (p : ℕ) × (find_index st id q.jobs ≡ some i)
                × (get_elem? q.jobs i ≡ some p)
                × ((st p).id ≡ id)
                × (find_in st id q.jobs ≡ some p))
      by_index none e =
          let (missing, absent) = subst (Found st id q.jobs) e (find_index-Found st id q.jobs) in
          inl (e, missing, absent)
      by_index (some i) e =
          let (p, at, same, found) = subst (Found st id q.jobs) e (find_index-Found st id q.jobs) in
          inr (i, p, e, at, same, found)

  -- `Find` gives a job of the queue with the id, or there is none in the queue.
  pub find_lem :
      ((find st q id ≡ none) × Absent st id q.jobs)
      ⊎ ((p : ℕ) × (find st q id ≡ some p) × Mem p q.jobs × ((st p).id ≡ id))
  unfolding find
  find_lem = elim index_cases [
    | inl (e, missing, absent) ↦ inl (missing, absent)
    | inr (i, p, e, at, same, found) ↦ inr (p, found, get_elem?-mem i q.jobs at, same)
  ]

  -- `Raise` puts the job that `Find` gives at the head, and loses none; with no such job it is the
  -- error `NotFoundError`.
  pub raise_lem :
      (find st q id ≡ none) × (raise st q id ≡ err (not_found id))
      ⊎ ((p : ℕ) × (ps : List ℕ) × (find st q id ≡ some p)
          × (raise st q id ≡ ok (record q { jobs = p ∷ ps }))
          × Perm q.jobs (p ∷ ps))
  unfolding find raise
  raise_lem = elim index_cases [
    | inl (e, missing, absent) ↦ inl (missing, rw (e, raise))
    | inr (i, p, e, at, same, found) ↦
        let (rest, swapped, perm) = swap_head-perm i q.jobs at in
        inr (p, rest, found, rw (e, raise) (ap (λ ps. ok (record q { jobs = ps })) swapped), perm)
  ]

  -- `Remove` takes the job that `Find` gives out of the queue, and no other; with no such job it is
  -- the error `NotFoundError`.
  pub remove_lem :
      (sorter : Sorter)
      → (find st q id ≡ none) × (remove sorter st q id ≡ err (not_found id))
        ⊎ ((p : ℕ) × (ps : List ℕ) × (find st q id ≡ some p)
            × (remove sorter st q id ≡ ok (p, record q { jobs = ps }))
            × Perm q.jobs (p ∷ ps))
  unfolding find remove
  remove_lem sorter = elim index_cases [
    | inl (e, missing, absent) ↦ inl (missing, rw (e, remove))
    | inr (i, p, e, at, same, found) ↦ inr (
      p,
      sorter.sort (less st) (remove_at i q.jobs),
      found,
      rw (e, remove)
          (ap (λ x. ok (x, record q { jobs = sorter.sort (less st) (remove_at i q.jobs) }))
            (get_or_of_get_elem? i q.jobs 0 at)),
      Perm.trans (remove_at-perm i q.jobs at) (Perm.cons p (Perm.symm (sorter.sort-perm _ _))),
    )
  ]
