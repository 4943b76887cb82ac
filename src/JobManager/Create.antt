-- ===== src/JobManager/Create.antt =====
-- How a job, or a chain of jobs, is made (`CreateJob` of src/lastore-daemon/job_manager.go).
use lastore_daemon.Base.{
  ℕ, suc, Bool, not, ◌||◌, List, [], ◌∷◌, ◌++◌, Option, none, some, String, ◌==◌, if◌then◌else◌,
}
use lastore_daemon.Base.Float.{Float}
use lastore_daemon.System
use lastore_daemon.System.{message, Result, ok, err}
use lastore_daemon.UpdateType.{has, job_type_of, all_install_update_type}
use lastore_daemon.Job.{Job, new_job, init_progress_range}
use lastore_daemon.JobQueue.{system_change_queue}
use lastore_daemon.JobManager.{Manager, download_queue, put_job}
use lastore_daemon.JobManager.Dispatch.{Strings}
use lastore_daemon.JobManager.Search.{gen_job_id}

-- The map `jobArgc`, with an entry that is missing or of another type as none. The maps in it are
-- functions with Go's zero values.
pub record JobArgs (F : Type 0) : Type 0 where
  pub update_mode : Option ℕ
  pub download_size : Option (String → F)
  pub package_map : Option (String → List String)
  pub support_ignore : Option Bool

-- `strconv.Itoa`, the time at which a job is made, whether a path is a directory, and the variable
-- `SystemUpdateSource`.
pub record Machine : Type 0 where
  pub itoa : ℕ → String
  pub clock : ℕ → ℕ
  pub is_dir : String → Bool
  pub system_source : String

-- `GetCategorySourceMap` for the kinds that are installed.
unfoldable pub category_source : String → ℕ → String
category_source system_source typ =
    if typ == 1
    then system_source
    else if typ == 4
    then "/var/lib/lastore/SecuritySource.d"
    else if typ == 8
    then "/var/lib/lastore/unknownSource.d"
    else ""

-- What a call asks for.
pub record Order : Type 0 where
  pub name : String
  pub packages : List String
  pub environ : Strings

-- The jobs of a chain so far, and the sum of their sizes.
pub record Chain (F : Type 0) : Type 0 where
  pub manager : Manager F
  pub first : Option ℕ
  pub last : Option ℕ
  pub held : F

abbrev pub edit_job : {F : Type 0} → ℕ → (Job F → Job F) → Manager F → Manager F
edit_job p f m = record m { store = put_job p (f (m.store p)) m.store }

abbrev link : {F : Type 0} → Option ℕ → ℕ → Manager F → Manager F
link none p m = m
link {F} (some l) p m = edit_job l (λ (j : Job F). record j { next = some p }) m

module _ (fl : Float) (machine : Machine) (order : Order) where
  open fl use {Carrier, lit, add, div, eq}

  -- `NewJob` of a type, with the id for another type.
  unfoldable pub make_job :
      (id : String) (t queue : String) (packages : List String)
      → Manager Carrier
      → Manager Carrier × ℕ
  make_job id t queue packages m =
      let p = m.num_jobs in
      (
        record m {
          store =
              put_job p (new_job fl id order.name packages t queue order.environ (machine.clock p))
                m.store;
          num_jobs = suc p;
        },
        p,
      )

  -- `_InitProgressRange`; none is its panic.
  unfoldable pub set_range : Carrier → Carrier → ℕ → Manager Carrier → Option (Manager Carrier)
  set_range begin end p m = elim (init_progress_range fl begin end (m.store p)) [
    | none ↦ none
    | some j ↦ some (record m { store = put_job p j m.store })
  ]

  abbrev pub made : ℕ → Option (Manager Carrier) → Option (Manager Carrier × Result ℕ)
  made p none = none
  made p (some m) = some (m, ok p)

  -- A job of a type, for a queue, with an id for `id_type`.
  abbrev pub one_job :
      (id_type t queue : String) (packages : List String) → Manager Carrier → Manager Carrier × ℕ
  one_job id_type t queue packages m =
      let (m', id) = gen_job_id machine.itoa id_type m in make_job id t queue packages m'

  abbrev pub plain :
      (id_type t queue : String) (packages : List String)
      → Manager Carrier
      → Option (Manager Carrier × Result ℕ)
  plain id_type t queue packages m =
      let (m', p) = one_job id_type t queue packages m in some (m', ok p)

  abbrev pub ranged :
      (id_type t queue : String) (packages : List String)
      → Carrier
      → Carrier
      → Manager Carrier
      → Option (Manager Carrier × Result ℕ)
  ranged id_type t queue packages begin end m =
      let (m', p) = one_job id_type t queue packages m in made p (set_range begin end p m')

  abbrev pub source_option : ℕ → Strings
  source_option typ =
      let src = category_source machine.system_source typ in
      if machine.is_dir src
      then ("Dir::Etc::SourceList", "/dev/null") ∷ ("Dir::Etc::SourceParts", src) ∷ []
      else ("Dir::Etc::SourceList", src) ∷ ("Dir::Etc::SourceParts", "/dev/null") ∷ []

  unfoldable pub total_size : ℕ → (String → Carrier) → List ℕ → Carrier → Carrier
  total_size mode size [] acc = acc
  total_size mode size (typ ∷ ts) acc =
      total_size mode size ts (if has mode typ then add acc (size (job_type_of typ)) else acc)

  -- One part of the chain of downloads.
  unfoldable pub add_part :
      (size : String → Carrier) (packages : String → List String)
      → Carrier
      → ℕ
      → Chain Carrier
      → Option (Chain Carrier)
  unfolding make_job set_range
  add_part size packages total typ c =
      let t = job_type_of typ in
      let (m, p) =
        one_job System.prepare_dist_upgrade_job System.prepare_dist_upgrade_job download_queue
          (packages t) c.manager in
      let m' : Manager Carrier = link c.last p (
        edit_job p
          (λ (j : Job Carrier). record j {
            option = source_option typ ++ (("Acquire::delivery::LogLevel", "1") ∷ []);
            update_typ = typ;
          })
          m) in
      let sum = add c.held (size t) in
      elim (set_range (div c.held total) (div sum total) p m') [
        | none ↦ none
        | some m'' ↦ some (record {
          manager = m'';
          first = elim c.first [ none ↦ some p | some f ↦ some f ];
          last = some p;
          held = sum;
        })
      ]

  unfoldable pub add_parts :
      ℕ
      → (size : String → Carrier) (packages : String → List String) → Carrier
      → List ℕ
      → Chain Carrier
      → Option (Chain Carrier)
  unfolding add_part
  add_parts mode size packages total [] c = some c
  add_parts mode size packages total (typ ∷ ts) c =
      if not (has mode typ) || eq (size (job_type_of typ)) (lit 0 0)
      then add_parts mode size packages total ts c
      else elim (add_part size packages total typ c) [
        | none ↦ none
        | some c' ↦ add_parts mode size packages total ts c'
      ]

  -- The case `PrepareDistUpgradeJobType`
  unfoldable pub create_prepare :
      JobArgs Carrier → Manager Carrier → Option (Manager Carrier × Result ℕ)
  unfolding add_parts total_size
  create_prepare args m = elim args.update_mode [
    | none ↦ some (m, err (message "invalid arg"))
    | some mode ↦ elim args.download_size [
      | none ↦ some (m, err (message "invalid arg"))
      | some size ↦ elim args.package_map [
        | none ↦ some (m, err (message "invalid arg"))
        | some packages ↦
            elim (add_parts mode size packages
              (total_size mode size all_install_update_type (lit 0 0)) all_install_update_type
              (record { manager = m; first = none; last = none; held = lit 0 0 })) [
                | none ↦ none
                | some c ↦ some (
                  c.manager,
                  elim c.first [
                    | none ↦ err (message "no downloadable packages found")
                    | some p ↦ ok p
                  ],
                )
              ]
      ]
    ]
  ]

  -- The case `InstallJobType`: a download, and then the installation, with one id.
  unfoldable pub create_install : Manager Carrier → Option (Manager Carrier × Result ℕ)
  unfolding make_job set_range
  create_install m0 =
      let (m1, p) =
        one_job System.install_job System.download_job download_queue order.packages m0 in
      elim (set_range (lit 0 0) (lit 5 1) p m1) [
        | none ↦ none
        | some m2 ↦
            let (m3, n) =
              one_job System.install_job System.install_job system_change_queue order.packages m2 in
            elim (set_range (lit 5 1) (lit 1 0) n m3) [
              | none ↦ none
              | some m4 ↦
                  let id = (m4.store n).id in
                  some
                    (edit_job p (λ (j : Job Carrier). record j { id = id; next = some n }) m4, ok p)
            ]
      ]
