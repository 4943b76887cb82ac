-- ===== src/Inhibitor/Holders.antt =====
-- The count of the holders, and the one lock that they share.
use lastore_daemon.Base.{
  ℕ, zero, suc, Bool, not, List, [], ◌∷◌, Option, none, some, ◌≡◌, if◌then◌else◌, ◌==◌,
}
use lastore_daemon.Job.Transition.{is_some}
use lastore_daemon.Inhibitor.{Shared, update_on_changing}

-- How many of the holders have the lock.
abbrev pub holding : List (Option ℕ) → ℕ
holding [] = 0
holding (none ∷ hs) = holding hs
holding (some fd ∷ hs) = suc (holding hs)

-- The holder at a place is told that a change starts or ends.
abbrev pub tell : Option ℕ → Bool → ℕ → Shared × List (Option ℕ) → Shared × List (Option ℕ)
tell answer on i (s, []) = (s, [])
tell answer on zero (s, h ∷ hs) = let r = update_on_changing answer on (s, h) in (r.0, r.1 ∷ hs)
tell answer on (suc i) (s, h ∷ hs) = let r = tell answer on i (s, hs) in (r.0, h ∷ r.1)

-- The count is that of the holders, and one lock is open exactly if somebody holds it.
abbrev pub Counts : ℕ → Shared → Type 0
Counts n s = (s.ref ≡ n) × (s.num_open ≡ (if n == 0 then 0 else 1)) × (is_some s.fd ≡ not (n == 0))

abbrev pub tell_all :
    List (ℕ × Bool × Option ℕ) → Shared × List (Option ℕ) → Shared × List (Option ℕ)
tell_all [] r = r
tell_all ((i, on, answer) ∷ calls) r = tell_all calls (tell answer on i r)
