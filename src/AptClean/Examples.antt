-- ===== src/AptClean/Examples.antt =====
-- A directory with a package file, and the theorem at it.
use lastore_daemon.Base.{true, false, List, [], ◌∷◌, ◌++◌, some, ◌≡◌, refl}
use lastore_daemon.Stanza.{Text}
use lastore_daemon.AptClean.{
  FileInfo, Options, DpkgAnswers, package_key, version_key, arch_key, get_deb_info, load_status,
  clean_dir,
}
use lastore_daemon.AptClean.Preview.{nothing}

-- "Package: a", "Version: 1" and "Architecture: x"
abbrev shown : Text
shown = package_key ++ (97 ∷ 10 ∷ version_key) ++ (49 ∷ 10 ∷ arch_key) ++ (120 ∷ 10 ∷ [])

read_info :
    get_deb_info (some shown) ≡ some (record { pkg = 97 ∷ []; version = 49 ∷ []; arch = 120 ∷ [] })
unfolding get_deb_info
read_info = refl

-- "a:x ii 1"
read_status :
    load_status (97 ∷ 58 ∷ 120 ∷ 32 ∷ 105 ∷ 105 ∷ 32 ∷ 32 ∷ 49 ∷ 10 ∷ []) (97 ∷ 58 ∷ 120 ∷ [])
    ≡ some (record { status = 105 ∷ 105 ∷ []; version = 49 ∷ [] })
unfolding load_status
read_status = refl

abbrev system : DpkgAnswers
system = record {
  show = λ name. some shown;
  newer = λ a b. false;
  cache = λ k. some (record { status = 105 ∷ 105 ∷ []; version = 49 ∷ [] });
}

abbrev options : Options
options = record { force_delete = false; print_json = false }

-- "b.deb", a directory "c.deb" and "d"
abbrev files : List FileInfo
files =
    record { name = 98 ∷ 46 ∷ 100 ∷ 101 ∷ 98 ∷ []; size = 40; is_dir = false; age = 5 }
    ∷ record { name = 99 ∷ 46 ∷ 100 ∷ 101 ∷ 98 ∷ []; size = 1; is_dir = true; age = 5 }
    ∷ record { name = 100 ∷ []; size = 7; is_dir = false; age = 5 }
    ∷ []

removes_one :
    (clean_dir system options files nothing).removed ≡ (98 ∷ 46 ∷ 100 ∷ 101 ∷ 98 ∷ []) ∷ []
unfolding clean_dir
removes_one = refl
