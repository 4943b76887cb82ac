-- ===== src/UpdateStatus/Modes.antt =====
-- The sets of kinds of update that the manager keeps and hands out.
use Prim.Native.Nat.{bit_and, bit_or}
use lastore_daemon.Base.{
  ℕ, Bool, true, false, not, ◌&&◌, ◌||◌, List, [], ◌∷◌, Option, none, some, ◌==◌, ◌≡◌, refl, arith,
  if◌then◌else◌, ◌∙◌, ap, suc,
}
use lastore_daemon.UpdateType.{has, job_type_of, all_install_update_type, only_security_update}
use lastore_daemon.UpdateStatus.{ModeStatus, mode_status_eq, upgrade_err, StatusManager, lookup}
use lastore_daemon.UpdateStatus.Operations.{
  filter_loop, filter_mode, is_installable, dist_loop, get_can_dist_mode, prepare_loop,
  get_can_prepare_mode, is_downloadable,
}

-- The set with the bits 1, 4 and 8 by their tests.
abbrev bits_of : Bool → Bool → Bool → ℕ
bits_of a b c = bit_or (bit_or (if a then 1 else 0) (if b then 4 else 0)) (if c then 8 else 0)

filter_mode_lem :
    (upd check : ℕ)
    → has check only_security_update ≡ false
    → filter_mode upd check ≡ (
      bits_of (has upd 1) (has upd 4 || has upd only_security_update) (has upd 8),
      bits_of (has upd 1 && has check 1) (has upd 4 && has check 4) (has upd 8 && has check 8),
    )
unfolding filter_mode filter_loop all_install_update_type
filter_mode_lem upd check e = ground arith

filter_bits :
    (a b c d e f g : Bool)
    → filter_mode (bits_of a (b || g) c) (bits_of (a && d) (b && e) (c && f))
      ≡ (bits_of a (b || g) c, bits_of (a && d) (b && e) (c && f))
unfolding filter_mode filter_loop all_install_update_type
filter_bits a b c d e f g = ground arith

subset_bits :
    (a b c d e f g : Bool)
    → bit_and (bits_of (a && d) (b && e) (c && f)) (bits_of a (b || g) c)
      ≡ bits_of (a && d) (b && e) (c && f)
subset_bits a b c d e f g = ground arith

-- `filterMode` is idempotent, and the check mode that it returns is a subset of the update mode
-- that it returns, when the check mode does not hold the legacy bit `OnlySecurityUpdate`.
pub filter_mode-filter_mode :
    (upd check : ℕ)
    → has check only_security_update ≡ false
    → (filter_mode (filter_mode upd check).0 (filter_mode upd check).1 ≡ filter_mode upd check)
      × (bit_and (filter_mode upd check).1 (filter_mode upd check).0 ≡ (filter_mode upd check).1)
filter_mode-filter_mode upd check e = rw (filter_mode_lem upd check e) (
  filter_bits (has upd 1) (has upd 4) (has upd 8) (has check 1) (has check 4) (has check 8)
      (has upd only_security_update),
  subset_bits (has upd 1) (has upd 4) (has upd 8) (has check 1) (has check 4) (has check 8)
      (has upd only_security_update),
)

abbrev status_is : (ModeStatus → Bool) → Option ModeStatus → Bool
status_is test none = false
status_is test (some s) = test s

-- The kind is asked for, is checked, and its status is known and passes a test.
abbrev pub selected : ℕ → StatusManager → (ModeStatus → Bool) → ℕ → Bool
selected origin m test typ =
    (has origin typ && has m.check_mode typ)
    && status_is test (lookup (job_type_of typ) m.status_obj)

-- The set of the selected kinds.
abbrev pub selection : ℕ → StatusManager → (ModeStatus → Bool) → ℕ
selection origin m test =
    bits_of (selected origin m test 1) (selected origin m test 4) (selected origin m test 8)

abbrev pub any_selected : ℕ → StatusManager → (ModeStatus → Bool) → Bool
any_selected origin m test =
    selected origin m test 1 || selected origin m test 4 || selected origin m test 8

-- The bits of the selected kinds, put in one after another.
abbrev gathered : (ℕ → Bool) → List ℕ → ℕ → ℕ
gathered test [] acc = acc
gathered test (typ ∷ ts) acc = gathered test ts (if test typ then bit_or acc typ else acc)

prepare_gathers :
    (origin : ℕ) (m : StatusManager) (ts : List ℕ) (acc : ℕ)
    → prepare_loop origin m ts acc ≡ gathered (selected origin m is_downloadable) ts acc
unfolding prepare_loop
prepare_gathers origin m [] acc = refl
prepare_gathers origin m (typ ∷ ts) acc =
    prepare_gathers origin m ts _
    ∙ ap (gathered (selected origin m is_downloadable) ts)
        (step (lookup (job_type_of typ) m.status_obj) (has origin typ && has m.check_mode typ))
  where
    step :
        (st : Option ModeStatus) (g : Bool)
        → elim st [
          | none ↦ acc
          | some status ↦ if g && is_downloadable status then bit_or acc typ else acc
        ]
          ≡ (if g && status_is is_downloadable st then bit_or acc typ else acc)
    step none true = refl
    step none false = refl
    step (some status) g = refl

gathered_bits :
    (test : ℕ → Bool) → gathered test all_install_update_type 0 ≡ bits_of (test 1) (test 4) (test 8)
unfolding all_install_update_type
gathered_bits test = go (test 1) (test 4) (test 8)
  where
    go :
        (a b c : Bool)
        → (let x : ℕ = if a then bit_or 0 1 else 0 in
            let y : ℕ = if b then bit_or x 4 else x in if c then bit_or y 8 else y)
          ≡ bits_of a b c
    go a b c = ground arith

-- `GetCanPrepareDistUpgradeMode` returns the set of the kinds that are asked for, are checked, and
-- may be downloaded.
pub get_can_prepare_mode_lem :
    (origin : ℕ) (m : StatusManager)
    → get_can_prepare_mode origin m ≡ selection origin m is_downloadable
unfolding get_can_prepare_mode prepare_loop all_install_update_type
get_can_prepare_mode_lem origin m =
    prepare_gathers origin m all_install_update_type 0
    ∙ gathered_bits (selected origin m is_downloadable)

abbrev counted : (ℕ → Bool) → List ℕ → ℕ → ℕ
counted test [] n = n
counted test (typ ∷ ts) n = counted test ts (if test typ then suc n else n)

abbrev is_upgrade_err : ModeStatus → Bool
is_upgrade_err s = mode_status_eq s upgrade_err

-- The counts of the loop after a kind that passes both guards, or not, and either test.
abbrev added : (typ : ℕ) → ℕ × ℕ × ℕ → (guard installable failed : Bool) → ℕ × ℕ × ℕ
added typ (can, failed, n) g i e = (
  if g && i then bit_or can typ else can,
  if g && e then bit_or failed typ else failed,
  if g && i then suc n else n,
)

added_if :
    (typ can failed n : ℕ) (g i e : Bool)
    → (if◌then◌else◌ {A = ℕ × ℕ × ℕ} g
        (
          if i then bit_or can typ else can,
          if e then bit_or failed typ else failed,
          if i then suc n else n,
        )
        (can, failed, n))
      ≡ added typ (can, failed, n) g i e
added_if typ can failed n true i e = refl
added_if typ can failed n false i e = refl

dist_step :
    (typ can failed n : ℕ) (st : Option ModeStatus) (g : Bool)
    → elim st as (λ _. ℕ × ℕ × ℕ) [
      | none ↦ (can, failed, n)
      | some status ↦
          if g
          then (
            if is_installable status then bit_or can typ else can,
            if mode_status_eq status upgrade_err then bit_or failed typ else failed,
            if is_installable status then suc n else n,
          )
          else (can, failed, n)
    ]
      ≡ added typ (can, failed, n) g (status_is is_installable st) (status_is is_upgrade_err st)
dist_step typ can failed n none true = refl
dist_step typ can failed n none false = refl
dist_step typ can failed n (some status) g =
    added_if typ can failed n g (is_installable status) (is_upgrade_err status)

dist_gathers :
    (origin : ℕ) (m : StatusManager) (ts : List ℕ) (can failed n : ℕ)
    → dist_loop origin m ts (can, failed, n) ≡ (
      gathered (selected origin m is_installable) ts can,
      gathered (selected origin m is_upgrade_err) ts failed,
      counted (selected origin m is_installable) ts n,
    )
unfolding dist_loop
dist_gathers origin m [] can failed n = refl
dist_gathers origin m (typ ∷ ts) can failed n =
    dist_gathers origin m ts _ _ _
    ∙ ap
        (λ (x : ℕ × ℕ × ℕ). (
          gathered (selected origin m is_installable) ts x.0,
          gathered (selected origin m is_upgrade_err) ts x.1,
          counted (selected origin m is_installable) ts x.2,
        ))
        (dist_step typ can failed n (lookup (job_type_of typ) m.status_obj)
          (has origin typ && has m.check_mode typ))

if_not : (b : Bool) (x y : ℕ) → (if not b then x else y) ≡ (if b then y else x)
if_not true x y = refl
if_not false x y = refl

abbrev counted_bits : Bool → Bool → Bool → ℕ
counted_bits a b c =
    let x : ℕ = if a then 1 else 0 in let y : ℕ = if b then suc x else x in if c then suc y else y

counted_any :
    (test : ℕ → Bool)
    → (counted test all_install_update_type 0 == 0) ≡ not (test 1 || test 4 || test 8)
unfolding all_install_update_type
counted_any test = go (test 1) (test 4) (test 8)
  where
    go : (a b c : Bool) → (counted_bits a b c == 0) ≡ not (a || b || c)
    go a b c = ground arith

-- `GetCanDistUpgradeMode` returns the set of the kinds that are asked for, are checked and may be
-- installed; when there is none, the set of those whose upgrade failed.
pub get_can_dist_mode_lem :
    (origin : ℕ) (m : StatusManager)
    → get_can_dist_mode origin m ≡ (
        if any_selected origin m is_installable
        then selection origin m is_installable
        else selection origin m (λ s. mode_status_eq s upgrade_err))
unfolding get_can_dist_mode dist_loop all_install_update_type
get_can_dist_mode_lem origin m = rw (dist_gathers origin m all_install_update_type 0 0 0) (
    rw
      (
        gathered_bits (selected origin m is_installable),
        gathered_bits (selected origin m is_upgrade_err),
        counted_any (selected origin m is_installable),
      )
      (if_not (any_selected origin m is_installable) _ _))
