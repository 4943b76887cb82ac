-- ===== src/AptClean.antt =====
-- The program that deletes the package files that are not needed, or says which it would delete
-- (src/lastore-apt-clean/main.go). A text is its bytes.
pub mod Preview
pub mod Examples
use lastore_daemon.Base.{
  ℕ, zero, suc, ◌+◌, ◌-◌, ◌%◌, ◌^◌, Bool, true, false, not, ◌&&◌, ◌||◌, List, [], ◌∷◌, ◌++◌, Option,
  none, some, ltb, leb, ◌==◌, if◌then◌else◌, length, drop,
}
use lastore_daemon.Stanza.{Text, text_eq, split_lines, scan_lines}

-- `DeletePolicy`
pub data DeletePolicy : Type 0 where
  delete_expired delete_immediately keeps : DeletePolicy

-- `debInfo`
pub record DebInfo : Type 0 where
  pub pkg : Text
  pub version : Text
  pub arch : Text

-- `statusVersion`
pub record StatusVersion : Type 0 where
  pub status : Text
  pub version : Text

-- An entry of the directory; `age` is `time.Since` of its change, in nanoseconds.
pub record FileInfo : Type 0 where
  pub name : Text
  pub size : ℕ
  pub is_dir : Bool
  pub age : ℕ

pub record Options : Type 0 where
  pub force_delete : Bool
  pub print_json : Bool

-- `pkgArch`
abbrev pub pkg_arch : DebInfo → Text
pkg_arch d = d.pkg ++ (58 ∷ d.arch)

-- `getControlField`
unfoldable pub get_control_field : Text → Text → Option Text
get_control_field line [] = some line
get_control_field [] (k ∷ key) = none
get_control_field (c ∷ line) (k ∷ key) =
    let rest = get_control_field line key in if c == k then rest else none

-- "Package: ", "Version: " and "Architecture: "
abbrev pub package_key : Text
package_key = 80 ∷ 97 ∷ 99 ∷ 107 ∷ 97 ∷ 103 ∷ 101 ∷ 58 ∷ 32 ∷ []

abbrev pub version_key : Text
version_key = 86 ∷ 101 ∷ 114 ∷ 115 ∷ 105 ∷ 111 ∷ 110 ∷ 58 ∷ 32 ∷ []

abbrev pub arch_key : Text
arch_key = 65 ∷ 114 ∷ 99 ∷ 104 ∷ 105 ∷ 116 ∷ 101 ∷ 99 ∷ 116 ∷ 117 ∷ 114 ∷ 101 ∷ 58 ∷ 32 ∷ []

abbrev pub info_of : Option Text → Option Text → Option Text → Option DebInfo
info_of (some p) (some v) (some a) = some (record { pkg = p; version = v; arch = a })
info_of _ _ _ = none

abbrev pub info_of_lines : Text × List Text → Option DebInfo
info_of_lines (l0, []) = none
info_of_lines (l0, l1 ∷ []) = none
info_of_lines (l0, l1 ∷ l2 ∷ rest) =
    info_of (get_control_field l0 package_key) (get_control_field l1 version_key)
      (get_control_field l2 arch_key)

-- `getDebInfo` of the output of `dpkg-deb`; none is an error.
unfoldable pub get_deb_info : Option Text → Option DebInfo
unfolding get_control_field
get_deb_info none = none
get_deb_info (some output) = info_of_lines (split_lines output)

-- A space of `bytes.Fields`.
abbrev pub is_blank : ℕ → Bool
is_blank c = c == 32 || (leb 9 c && leb c 13)

abbrev pub add_field : Text → List Text → List Text
add_field [] fs = fs
add_field (c ∷ f) fs = (c ∷ f) ∷ fs

-- `bytes.Fields`, with the field that is being read.
unfoldable pub fields : Text → Text → List Text
fields f [] = add_field f []
fields f (c ∷ t) = elim (is_blank c) [
  | true ↦ add_field f (fields [] t)
  | false ↦ fields (f ++ (c ∷ [])) t
]

abbrev pub put_status :
    Text → StatusVersion → (Text → Option StatusVersion) → Text → Option StatusVersion
put_status k s cache x = if text_eq k x then some s else cache x

abbrev pub add_status : List Text → (Text → Option StatusVersion) → Text → Option StatusVersion
add_status (p ∷ s ∷ v ∷ []) cache = put_status p (record { status = s; version = v }) cache
add_status _ cache = cache

-- The loop of `loadPkgStatusVersion`.
unfoldable pub load_lines : List Text → (Text → Option StatusVersion) → Text → Option StatusVersion
unfolding fields
load_lines [] cache = cache
load_lines (l ∷ ls) cache = load_lines ls (add_status (fields [] l) cache)

-- `loadPkgStatusVersion` of the output of `dpkg-query`.
unfoldable pub load_status : Text → Text → Option StatusVersion
unfolding load_lines scan_lines
load_status output = load_lines (scan_lines [] output) (λ k. none)

-- `newer` is `compareVersionsGt`.
module _ (newer : Text → Text → Bool) where
  abbrev pub policy_of : DebInfo → StatusVersion → Text → DeletePolicy
  policy_of d s [] = delete_expired
  policy_of d s (c ∷ status) =
      if c == 105
      then (if newer d.version s.version then delete_expired else delete_immediately)
      else if c == 114 || c == 112 || c == 104
      then delete_immediately
      else delete_expired

  -- `shouldDelete`, whose second result is not used.
  unfoldable pub should_delete : DebInfo → (Text → Option StatusVersion) → DeletePolicy
  should_delete d cache = elim (cache (pkg_arch d)) [
    | none ↦ delete_expired
    | some s ↦ policy_of d s s.status
  ]

-- `maxElapsed`: six days.
abbrev pub max_elapsed : ℕ
max_elapsed = 518400000000000

-- The first half of `actWithPolicy`: `needDelete`.
unfoldable pub need_delete : Options → DeletePolicy → FileInfo → Bool
need_delete o delete_immediately f = true
need_delete o delete_expired f = if o.force_delete then true else ltb max_elapsed f.age
need_delete o keeps f = if o.force_delete then true else false

-- `archivesInfo` of a directory, and the names of the files that `deleteDeb` was called for.
pub record ArchivesInfo : Type 0 where
  pub files : List (Text × ℕ)
  pub total_size : ℕ
  pub removed : List Text

-- `addFileInfo`, with a total of 64 bits.
unfoldable pub add_file_info : FileInfo → ArchivesInfo → ArchivesInfo
add_file_info f o = record o {
  files = o.files ++ ((f.name, f.size) ∷ []);
  total_size = (o.total_size + f.size) % 2 ^ 64;
}

-- `actWithPolicy`
unfoldable pub act_with_policy : Options → DeletePolicy → FileInfo → ArchivesInfo → ArchivesInfo
unfolding need_delete add_file_info
act_with_policy o policy f out =
    if need_delete o policy f
    then (if o.print_json
        then add_file_info f out
        else record out { removed = out.removed ++ (f.name ∷ []) })
    else out

-- `filepath.Ext(name) == ".deb"`
abbrev pub is_deb : Text → Bool
is_deb name = text_eq (drop (length name - 4) name) (46 ∷ 100 ∷ 101 ∷ 98 ∷ [])

-- What `dpkg-deb` prints of a file (none is its failure), `compareVersionsGt`, and the packages that
-- are installed.
pub record DpkgAnswers : Type 0 where
  pub show : Text → Option Text
  pub newer : Text → Text → Bool
  pub cache : Text → Option StatusVersion

module _ (dpkg : DpkgAnswers) (o : Options) where
  -- The policy for a file.
  unfoldable pub file_policy : FileInfo → DeletePolicy
  unfolding get_deb_info should_delete
  file_policy f = elim (get_deb_info (dpkg.show f.name)) [
    | none ↦ delete_immediately
    | some d ↦ should_delete dpkg.newer d dpkg.cache
  ]

  -- The body of the loop over the entries of a directory.
  unfoldable pub clean_file : FileInfo → ArchivesInfo → ArchivesInfo
  unfolding file_policy act_with_policy
  clean_file f out =
      if f.is_dir
      then out
      else if not (is_deb f.name)
      then out
      else act_with_policy o (file_policy f) f out

  unfoldable pub clean_dir : List FileInfo → ArchivesInfo → ArchivesInfo
  unfolding clean_file
  clean_dir [] out = out
  clean_dir (f ∷ fs) out = clean_dir fs (clean_file f out)
