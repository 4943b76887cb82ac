-- ===== src/JobQueue/Distinct.antt =====
-- A queue never holds the same job twice, in the sense of `Add`.
use mathlib.Core.List.{
  Mem, Perm, Pairwise, Pairwise-cons, mem-cons, not-mem-nil, perm_append_singleton,
}
use mathlib.Core.Logic.Or
use mathlib.Core.List.Perm
use lastore_daemon.Base.{
  ℕ, ◌≡◌, ap, ◌∙◌, ◌⊎◌, inl, inr, arith, ◌||◌, Bool, true, false, List, [], ◌∷◌, ◌++◌, String,
  str_eq_comm, Bool-cases,
}
use lastore_daemon.System.{exists_job, Result, ok, err}
use lastore_daemon.JobQueue.{JobQueue, Store, less, clashes, clashes_any, add, remove, raise, join}
use lastore_daemon.JobQueue.Sort.{Sorter}
use lastore_daemon.JobQueue.Members.{raise_lem, remove_lem}

-- No two jobs of a queue are the same one to `Add`.
abbrev pub IsDistinct : {F : Type 0} → Store F → String → List ℕ → Type 0
IsDistinct st name ps = Pairwise (λ a b. clashes st name a b ≡ false) ps

-- What others ask of a queue.
pub data Request : Type 0 where
  adds : ℕ → Request
  removes raises : String → Request

module _ {F : Type 0} (sorter : Sorter) (st : Store F) where
  abbrev after : JobQueue → Result JobQueue → JobQueue
  after q (ok q') = q'
  after q (err e) = q

  abbrev without : JobQueue → Result (ℕ × JobQueue) → JobQueue
  without q (ok (p, q')) = q'
  without q (err e) = q

  -- An operation that fails leaves the queue as it was.
  abbrev pub serve : JobQueue → Request → JobQueue
  serve q (adds j) = after q (add sorter st q j)
  serve q (removes id) = without q (remove sorter st q id)
  serve q (raises id) = after q (raise st q id)

  clashes_comm : (name : String) (a b : ℕ) → clashes st name a b ≡ clashes st name b a
  unfolding clashes
  clashes_comm name a b = rw (
    str_eq_comm (st a).job_type (st b).job_type,
    str_eq_comm (join (st a).packages) (join (st b).packages),
    str_eq_comm (st a).id (st b).id,
  )

  clashes_any-all :
      (name : String) (j : ℕ) (ps : List ℕ)
      → clashes_any st name j ps ≡ false
      → (p : ℕ) → Mem p ps
      → clashes st name j p ≡ false
  unfolding clashes_any
  clashes_any-all name j [] e p m = absurd (not-mem-nil m)
  clashes_any-all name j (x ∷ ps) e p m =
      Or.elim (hlevel) (mem-cons.0 m)
        (λ here. ap (clashes st name j) here ∙ (parts (clashes st name j x) e).0)
        (clashes_any-all name j ps (parts (clashes st name j x) e).1 p)
    where
      parts : (b : Bool) {c : Bool} → (b || c) ≡ false → (b ≡ false) × (c ≡ false)
      parts b h = ground arith

  IsDistinct-perm :
      (name : String) {ps qs : List ℕ} → Perm ps qs → IsDistinct st name ps → IsDistinct st name qs
  IsDistinct-perm name = Perm.pairwise (λ a b. hlevel) (λ a b e. clashes_comm name b a ∙ e)

  pub add_lem :
      (q : JobQueue) (j : ℕ)
      → (clashes_any st q.name j q.jobs ≡ true) × (add sorter st q j ≡ err exists_job)
        ⊎ (clashes_any st q.name j q.jobs ≡ false)
          × (ps : List ℕ) × (add sorter st q j ≡ ok (record q { jobs = ps }))
          × Perm (j ∷ q.jobs) ps
  unfolding add
  add_lem q j = elim (Bool-cases (clashes_any st q.name j q.jobs)) [
    | inl e ↦ inl (e, rw e)
    | inr e ↦ inr (
      e,
      sorter.sort (less st) (q.jobs ++ (j ∷ [])),
      rw e,
      Perm.symm (Perm.trans (sorter.sort-perm _ _) (perm_append_singleton j q.jobs)),
    )
  ]

  -- Whatever is added, removed or raised, and whether that succeeds or not, a queue with no two jobs
  -- that `Add` takes for the same one is again such a queue.
  pub serve-IsDistinct :
      (q : JobQueue) (r : Request)
      → IsDistinct st q.name q.jobs
      → IsDistinct st (serve q r).name (serve q r).jobs
  serve-IsDistinct q (adds j) d = elim (add_lem q j) [
    | inl (same, e) ↦ rw e d
    | inr (new, ps, e, perm) ↦
        rw e
          (IsDistinct-perm q.name perm (Pairwise-cons.1 (clashes_any-all q.name j q.jobs new, d)))
  ]
  serve-IsDistinct q (removes id) d = elim (remove_lem st q id sorter) [
    | inl (missing, e) ↦ rw e d
    | inr (p, ps, found, e, perm) ↦ rw e (Pairwise-cons.0 (IsDistinct-perm q.name perm d)).1
  ]
  serve-IsDistinct q (raises id) d = elim (raise_lem st q id) [
    | inl (missing, e) ↦ rw e d
    | inr (p, ps, found, e, perm) ↦ rw e (IsDistinct-perm q.name perm d)
  ]
