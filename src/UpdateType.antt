-- ===== src/UpdateType.antt =====
-- The kinds of updates as bits of a number, and the sets of them (src/internal/system/update_type.go).
use Prim.Native.Nat.{bit_and}
use lastore_daemon.Base.{ℕ, ◌-◌, Bool, not, List, [], ◌∷◌, String, ◌==◌, if◌then◌else◌}
use lastore_daemon.System.{
  system_upgrade_job, appstore_upgrade_job, security_upgrade_job, unknown_upgrade_job,
  other_upgrade_job, append_upgrade_job,
}

abbrev pub system_update : ℕ
system_update = 1

abbrev pub app_store_update : ℕ
app_store_update = 2

abbrev pub security_update : ℕ
security_update = 4

abbrev pub unknown_update : ℕ
unknown_update = 8

abbrev pub only_security_update : ℕ
only_security_update = 16

abbrev pub other_system_update : ℕ
other_system_update = 32

abbrev pub append_update : ℕ
append_update = 128

abbrev pub all_install_update : ℕ
all_install_update = 13

abbrev pub all_check_update : ℕ
all_check_update = 175

-- `JobType`
unfoldable pub job_type_of : ℕ → String
job_type_of m =
    if m == system_update
    then system_upgrade_job
    else if m == app_store_update
    then appstore_upgrade_job
    else if m == security_update
    then security_upgrade_job
    else if m == only_security_update
    then security_upgrade_job
    else if m == unknown_update
    then unknown_upgrade_job
    else if m == other_system_update
    then other_upgrade_job
    else if m == append_update
    then append_upgrade_job
    else ""

unfoldable pub all_update_type : List ℕ
all_update_type =
    system_update ∷ app_store_update ∷ security_update ∷ unknown_update ∷ other_system_update
    ∷ append_update ∷ []

unfoldable pub all_install_update_type : List ℕ
all_install_update_type = system_update ∷ security_update ∷ unknown_update ∷ []

-- `mode & typ != 0`
abbrev pub has : ℕ → ℕ → Bool
has mode typ = not (bit_and mode typ == 0)

-- `mode &^ typ`, that is `mode & ^typ`
abbrev pub clear_bits : ℕ → ℕ → ℕ
clear_bits mode typ = mode - bit_and mode typ

keep_bits : ℕ → List ℕ → List ℕ
keep_bits mode [] = []
keep_bits mode (typ ∷ ts) =
    if bit_and typ mode == typ then typ ∷ keep_bits mode ts else keep_bits mode ts

-- `UpdateTypeBitToArray`
unfoldable pub bit_to_array : ℕ → List ℕ
unfolding keep_bits all_update_type
bit_to_array mode = keep_bits mode all_update_type
