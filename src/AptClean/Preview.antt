-- ===== src/AptClean/Preview.antt =====
-- What the program prints is what it would delete (src/lastore-apt-clean/main.go).
use lastore_daemon.Base.{
  ℕ, ◌+◌, ◌%◌, ◌^◌, ◌≤◌, Bool, true, false, not, ◌&&◌, List, [], ◌∷◌, ◌++◌, map, keep, ◌≡◌,
}
use lastore_daemon.Stanza.{Text}
use lastore_daemon.AptClean.{
  FileInfo, Options, ArchivesInfo, DpkgAnswers, need_delete, is_deb, file_policy, clean_dir,
}

abbrev pub nothing : ArchivesInfo
nothing = record { files = []; total_size = 0; removed = [] }

-- The file is no longer needed.
abbrev pub is_useless : DpkgAnswers → Options → FileInfo → Bool
is_useless dpkg o f = not f.is_dir && is_deb f.name && need_delete o (file_policy dpkg o f) f

abbrev pub printing : Options → Options
printing o = record o { print_json = true }

abbrev pub deleting : Options → Options
deleting o = record o { print_json = false }

abbrev pub sum : List ℕ → ℕ
sum [] = 0
sum (n ∷ ns) = n + sum ns

module _ (dpkg : DpkgAnswers) (o : Options) where
  abbrev pub useless : List FileInfo → List FileInfo
  useless fs = keep (is_useless dpkg o) fs

  abbrev entry : FileInfo → Text × ℕ
  entry f = (f.name, f.size)

  abbrev sizes : List FileInfo → List ℕ
  sizes fs = map (λ f. f.size) fs

  -- The report with some files more.
  abbrev reported : List (Text × ℕ) → ℕ → List Text → List FileInfo → ArchivesInfo
  reported files total removed fs = record {
    files = files ++ map entry fs;
    total_size = (total + sum (sizes fs)) % 2 ^ 64;
    removed = removed;
  }

  abbrev Prints : List FileInfo → Type 0
  Prints fs =
      (files : List (Text × ℕ)) (total : ℕ) (removed : List Text)
      → total ≤ 18446744073709551615
      → clean_dir dpkg (printing o) fs
          (record { files = files; total_size = total; removed = removed })
        ≡ reported files total removed (useless fs)

  abbrev names : List FileInfo → List Text
  names fs = map (λ f. f.name) fs

  abbrev Deletes : List FileInfo → Type 0
  Deletes fs =
      (out : ArchivesInfo)
      → clean_dir dpkg (deleting o) fs out
        ≡ record out { removed = out.removed ++ names (useless fs) }

abbrev pub listed : List (Text × ℕ) → List Text
listed l = map (λ (e : Text × ℕ). e.0) l

abbrev pub listed_sizes : List (Text × ℕ) → List ℕ
listed_sizes l = map (λ (e : Text × ℕ). e.1) l
