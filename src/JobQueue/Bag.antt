-- ===== src/JobQueue/Bag.antt =====
-- A queue of jobs (src/lastore-daemon/job_queue.go) without its order: a bag of jobs, and what `Add`,
-- `Remove` and `Raise` may do to it.
use mathlib.Core.List.{Perm, Permᴰ}
use mathlib.Core.List.Perm
use mathlib.Core.Logic.{∥∥₁_elim}
use mathlib.Core.Bool.{Bool-set}
use mathlib.Core.Quot
use mathlib.Core.Quot.{Quot, Quot-set}
use lastore_daemon.Base.{
  ℕ, ◌≡◌, refl, ap, ◌∙◌, sym, subst, inl, inr, arith, Bool, true, false, ◌||◌, List, [], ◌∷◌,
  String, str_eq, str_eq_iff, any, none, some, Bool-cases,
}
use lastore_daemon.JobQueue.{JobQueue, Store, clashes, clashes_any, find_in, find}
use lastore_daemon.JobQueue.Sort.{Sorter}
use lastore_daemon.JobQueue.Members.{raise_lem, remove_lem}
use lastore_daemon.JobQueue.Distinct.{Request, adds, removes, raises, serve, add_lem}

-- Lists up to their order.
abbrev pub Bag : Type 0
Bag = Quot (Perm {A = ℕ})

abbrev pub contents : JobQueue → Bag
contents q = Quot.mk q.jobs

pub insert : ℕ → Bag → Bag
insert j = Quot.lift Quot-set (λ ps. Quot.mk (j ∷ ps)) (λ ps qs h. Quot.sound (Perm.cons j h))

swapped : (a b a' b' c : Bool) → a ≡ b' → b ≡ a' → (a || (b || c)) ≡ (a' || (b' || c))
swapped a b a' b' c e f = ground (arith, e, f)

any-permᴰ : (test : ℕ → Bool) {ps qs : List ℕ} → Permᴰ ps qs → any test ps ≡ any test qs
any-permᴰ test Permᴰ.nil = refl
any-permᴰ test (Permᴰ.cons e p) = ground (arith, ap test e, any-permᴰ test p)
any-permᴰ test (Permᴰ.swap {a} {b} {l = l} e f) =
    swapped (test a) (test b) _ _ (any test l) (ap test e) (ap test f)
any-permᴰ test (Permᴰ.trans p q) = any-permᴰ test p ∙ any-permᴰ test q

pub any-perm : (test : ℕ → Bool) (ps qs : List ℕ) → Perm ps qs → any test ps ≡ any test qs
any-perm test ps qs p = ∥∥₁_elim p (Bool-set _ _) (any-permᴰ test)

-- Some job of the bag passes the test.
pub bag_any : (ℕ → Bool) → Bag → Bool
bag_any test = Quot.lift Bool-set (any test) (any-perm test)

module _ {F : Type 0} (st : Store F) (name : String) where
  -- What a request may do: a job enters unless one clashes with it; a job with the id leaves, or there
  -- is none; raising changes nothing.
  pub data Step : Bag → Request → Bag → Type 0 where
    enters :
        (b : Bag) (j : ℕ) → bag_any (clashes st name j) b ≡ false → Step b (adds j) (insert j b)
    is_there : (b : Bag) (j : ℕ) → bag_any (clashes st name j) b ≡ true → Step b (adds j) b
    leaves :
        (b b' : Bag) (p : ℕ) (id : String)
        → b ≡ insert p b'
        → (st p).id ≡ id
        → Step b (removes id) b'
    is_missing :
        (b : Bag) (id : String)
        → bag_any (λ p. str_eq (st p).id id) b ≡ false
        → Step b (removes id) b
    moves : (b : Bag) (id : String) → Step b (raises id) b

  pub data Steps : Bag → List Request → Bag → Type 0 where
    done : (b : Bag) → Steps b [] b
    step :
        {b b' b'' : Bag} {r : Request} {rs : List Request}
        → Step b r b'
        → Steps b' rs b''
        → Steps b (r ∷ rs) b''

clashes_any_lem :
    {F : Type 0} (st : Store F) (name : String) (j : ℕ) (ps : List ℕ)
    → clashes_any st name j ps ≡ any (clashes st name j) ps
unfolding clashes_any
clashes_any_lem st name j [] = refl
clashes_any_lem st name j (p ∷ ps) =
    ap (λ b. clashes st name j p || b) (clashes_any_lem st name j ps)

find_in-missing :
    {F : Type 0} (st : Store F) (id : String) (ps : List ℕ)
    → find_in st id ps ≡ none
    → any (λ p. str_eq (st p).id id) ps ≡ false
unfolding find_in
find_in-missing st id [] e = refl
find_in-missing st id (p ∷ ps) e = elim (Bool-cases (str_eq (st p).id id)) [
  | inl same ↦ absurd (ground (arith, e, same))
  | inr other ↦ ground (arith, other, find_in-missing st id ps (sym (rw other refl) ∙ e))
]

find_in-id :
    {F : Type 0} (st : Store F) (id : String) (ps : List ℕ) (p : ℕ)
    → find_in st id ps ≡ some p
    → (st p).id ≡ id
unfolding find_in
find_in-id st id [] p e = absurd (cc)
find_in-id st id (x ∷ ps) p e = elim (Bool-cases (str_eq (st x).id id)) [
  | inl same ↦
      let f : some x ≡ some p = sym (rw same refl) ∙ e in
      let g : x ≡ p = ground (arith, f) in
      subst (λ y. (st y).id ≡ id) g ((str_eq_iff (st x).id id).0 same)
  | inr other ↦ find_in-id st id ps p (sym (rw other refl) ∙ e)
]

module _ {F : Type 0} (sorter : Sorter) (st : Store F) where
  -- One request, by the guards of the bag.
  serve-Step :
      (q : JobQueue) (r : Request)
      → Step st q.name (contents q) r (contents (serve sorter st q r))
        × ((serve sorter st q r).name ≡ q.name)
  unfolding insert bag_any find
  serve-Step q (adds j) = elim (add_lem sorter st q j) [
    | inl (same, e) ↦
        rw e (Step.is_there (contents q) j (sym (clashes_any_lem st q.name j q.jobs) ∙ same), refl)
    | inr (new, ps, e, perm) ↦ rw e (
      subst (Step st q.name (contents q) (adds j)) (Quot.sound perm)
          (Step.enters (contents q) j (sym (clashes_any_lem st q.name j q.jobs) ∙ new)),
      refl,
    )
  ]
  serve-Step q (removes id) = elim (remove_lem st q id sorter) [
    | inl (missing, e) ↦
        rw e (Step.is_missing (contents q) id (find_in-missing st id q.jobs missing), refl)
    | inr (p, ps, found, e, perm) ↦ rw e (
      Step.leaves (contents q) (Quot.mk ps) p id (Quot.sound perm)
          (find_in-id st id q.jobs p found),
      refl,
    )
  ]
  serve-Step q (raises id) = elim (raise_lem st q id) [
    | inl (missing, e) ↦ rw e (Step.moves (contents q) id, refl)
    | inr (p, ps, found, e, perm) ↦ rw e (
      subst (Step st q.name (contents q) (raises id)) (Quot.sound perm)
          (Step.moves (contents q) id),
      refl,
    )
  ]

  abbrev pub serve_all : JobQueue → List Request → JobQueue
  serve_all q [] = q
  serve_all q (r ∷ rs) = serve_all (serve sorter st q r) rs

  -- While the jobs themselves stay as they are, any requests, served one after the other, take the
  -- queue, seen as a bag, through steps of the specification, however the sort orders equal jobs: what
  -- `Add` is given enters exactly when no job of the bag clashes with it, `Remove` takes one job with the
  -- id out or there is none, and `Raise` changes nothing.
  pub serve_all-Steps :
      (q : JobQueue) (rs : List Request)
      → Steps st q.name (contents q) rs (contents (serve_all q rs))
  serve_all-Steps q [] = Steps.done (contents q)
  serve_all-Steps q (r ∷ rs) =
      let (first, same) = serve-Step q r in
      Steps.step first (
        subst
          (λ n. Steps st n (contents (serve sorter st q r)) rs (contents (serve_all q (r ∷ rs))))
          same (serve_all-Steps (serve sorter st q r) rs))
