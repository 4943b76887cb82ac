-- ===== src/Inhibitor/Examples.antt =====
-- Two holders of the lock against a shutdown, one after the other.
use lastore_daemon.Base.{ℕ, Bool, true, false, List, [], ◌∷◌, Option, none, some, ◌≡◌, refl}
use lastore_daemon.Inhibitor.{Shared, update_on_changing}
use lastore_daemon.Inhibitor.Holders.{tell_all}

abbrev unheld : Shared
unheld = record { ref = 0; fd = none; num_open = 0 }

abbrev holders : List (Option ℕ)
holders = none ∷ none ∷ []

abbrev calls : List (ℕ × Bool × Option ℕ)
calls = (0, true, none) ∷ (0, true, some 7) ∷ (1, true, none) ∷ (0, false, none) ∷ []

-- The second holder keeps the lock that the first one has opened.
one_left : (tell_all calls (unheld, holders)).1 ≡ none ∷ some 7 ∷ []
unfolding update_on_changing
one_left = refl
