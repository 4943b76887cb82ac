-- ===== src/Inhibitor.antt =====
-- The lock against a shutdown, which the holders share (src/lastore-daemon/inhibitor.go).
pub mod Holders
pub mod Examples
use lastore_daemon.Base.{
  ℕ, suc, ◌-◌, Bool, true, false, not, ◌&&◌, List, [], ◌∷◌, Option, none, some, ◌==◌, if◌then◌else◌,
}
use lastore_daemon.Job.Transition.{is_some}

-- `sharedInhibitRef` and `sharedInhibitFd`, and the number of locks that are open at the login
-- manager. A file descriptor is none where the source has -1.
pub record Shared : Type 0 where
  pub ref : ℕ
  pub fd : Option ℕ
  pub num_open : ℕ

-- `sharedInhibitAcquire`; `answer` is the descriptor that `inhibitorFn` returns, or none for its
-- error.
unfoldable pub acquire : Option ℕ → Shared → Shared × Option ℕ
acquire answer s =
    if s.ref == 0
    then elim answer [
      | none ↦ (s, none)
      | some fd ↦ (record { ref = suc s.ref; fd = some fd; num_open = suc s.num_open }, some fd)
    ]
    else (record s { ref = suc s.ref }, s.fd)

-- `sharedInhibitRelease`; closing the descriptor may report an error, which is only logged.
unfoldable pub release : Shared → Shared
release s =
    if s.ref == 0
    then s
    else if not (s.ref - 1 == 0)
    then record s { ref = s.ref - 1 }
    else elim s.fd [
      | none ↦ record s { ref = s.ref - 1 }
      | some fd ↦ record { ref = s.ref - 1; fd = none; num_open = s.num_open - 1 }
    ]

-- `updateSystemOnChanging` of a holder with its `inhibitFd`.
unfoldable pub update_on_changing : Option ℕ → Bool → Shared × Option ℕ → Shared × Option ℕ
unfolding acquire release
update_on_changing answer on (s, none) = if on then acquire answer s else (s, none)
update_on_changing answer on (s, some fd) = if on then (s, some fd) else (release s, none)
