-- ===== src/Apt/Messages.antt =====
-- What the reports and the errors of apt-get mean (src/internal/system/apt/apt.go, proxy.go).
use Prim.Native.String.{slice, len}
use Prim.Native.Char.{Char, code}
use text.Mathlib.Text.{find?}
use lastore_daemon.Base.{
  suc, Bool, true, false, ◌&&◌, ◌||◌, Option, none, some, String, str_eq, leb, ◌==◌, if◌then◌else◌,
}
use lastore_daemon.Base.Float.{Float}
use lastore_daemon.System.{
  Status, ready, running, failed, succeed, paused, end, other, JobError, ProgressInfo,
  dist_upgrade_job,
}
use lastore_daemon.Command.{contains, made_error, minus_one}
use lastore_daemon.Apt.{text_from}

dpkg_failed : String → Bool
dpkg_failed stderr =
    contains stderr "Sub-process /usr/bin/dpkg returned an error code"
    || contains stderr "Sub-process /usr/bin/dpkg received a segmentation fault."
    || contains stderr "Sub-process /usr/bin/dpkg exited unexpectedly"

-- The first case of `parseJobError`.
fetch_error : String → JobError
fetch_error stderr =
    if contains stderr "rename failed, Operation not permitted"
    then made_error "operationNotPermitted" stderr
    else if contains stderr "No space left on device"
    then made_error "insufficientSpace" stderr
    else made_error "fetchFailed" stderr

-- The cases of `parseJobError` from the one of free space on.
late_error : String → JobError
late_error stderr =
    if contains stderr "You don't have enough free space"
      || contains stderr "No space left on device"
    then made_error "insufficientSpace" stderr
    else if contains stderr "There were unauthenticated packages"
    then made_error "unauthenticatedPackages" stderr
    else if contains stderr "I/O error"
    then made_error "ioError" stderr
    else if contains stderr "don't have permission to access"
    then made_error "operationNotPermitted" stderr
    else if contains stderr "dpkg: error processing" && contains stderr "--unpack"
    then made_error "damagePackage" stderr
    else if contains stderr "Hash Sum mismatch"
    then made_error "damagePackage" stderr
    else if contains stderr "Corrupted file"
    then made_error "damagePackage" stderr
    else if contains stderr "The list of sources could not be read"
    then made_error "invalidSourceList" stderr
    else made_error "ErrorUnknown" stderr

-- `parseJobError`, whose result is never nil.
unfoldable pub job_error_of : String → String → JobError
unfolding dpkg_failed fetch_error late_error
job_error_of stderr stdout =
    if contains stderr "Failed to fetch"
    then fetch_error stderr
    else if dpkg_failed stderr
    then made_error "dpkgError" (text_from "\ndpkg:" 1 stdout)
    else if contains stderr "Unable to locate package"
    then made_error "pkgNotFound" stderr
    else if contains stderr "Unable to correct problems, you have held broken packages"
    then made_error "unmetDependencies"
        (text_from "The following packages have unmet dependencies:" 0 stdout)
    else if contains stderr "has no installation candidate"
    then made_error "noInstallationCandidate" stderr
    else late_error stderr

unfoldable pub parse_job_error : String → String → Option JobError
unfolding job_error_of
parse_job_error stderr stdout = some (job_error_of stderr stdout)

-- `unicode.IsSpace`
abbrev is_space : Char → Bool
is_space c =
    let n = code c in
    (leb 9 n && leb n 13)
    || n == 32
    || n == 133
    || n == 160
    || n == 5760
    || (leb 8192 n && leb n 8202)
    || n == 8232
    || n == 8233
    || n == 8239
    || n == 8287
    || n == 12288

unfoldable trim_end : String → String
trim_end String.[] = String.[]
trim_end (String.◌∷◌ c s) =
    let rest = trim_end s in
    elim rest [
      | String.[] ↦ if is_space c then String.[] else String.◌∷◌ c String.[]
      | String.◌∷◌ d t ↦ String.◌∷◌ c (String.◌∷◌ d t)
    ]

-- `strings.TrimSpace`
unfoldable pub trim : String → String
unfolding trim_end
trim String.[] = String.[]
trim (String.◌∷◌ c s) = let rest = trim s in if is_space c then rest else trim_end (String.◌∷◌ c s)

-- `system.Status` of a text.
abbrev pub status_of : String → Status
status_of text =
    if str_eq text "ready"
    then ready
    else if str_eq text "running"
    then running
    else if str_eq text "failed"
    then failed
    else if str_eq text "succeed"
    then succeed
    else if str_eq text "paused"
    then paused
    else if str_eq text "end"
    then end
    else other text

-- A text before and after a colon.
abbrev split_colon : String → Option (String × String)
split_colon text = elim (find? text ":") [
  | none ↦ none
  | some i ↦ some (slice text 0 i, slice text (suc i) (len text))
]

-- `strings.SplitN(line, ":", 4)`, none unless it has four parts.
unfoldable pub four_parts : String → Option (String × String × String × String)
four_parts line = elim (split_colon line) [
  | none ↦ none
  | some (a, rest) ↦ elim (split_colon rest) [
    | none ↦ none
    | some (b, rest') ↦ elim (split_colon rest') [ none ↦ none | some (c, d) ↦ some (a, b, c, d) ]
  ]
]

module _ (fl : Float) where
  open fl use {Carrier, lit, div}

  abbrev pub progress_info : String → Carrier → String → Status → Bool → ProgressInfo Carrier
  progress_info id progress description status cancelable = record {
    job_id = id;
    progress = progress;
    reset_progress = false;
    description = description;
    status = status;
    cancelable = cancelable;
    error = none;
    fatal_error = false;
    original_log = "";
    only_log = false;
  }

  -- `parseProgressInfo`, with `strconv.ParseFloat` as `parse_float`; none is an error.
  unfoldable pub parse_progress_info :
      (String → Option Carrier) → String → String → Option (ProgressInfo Carrier)
  unfolding four_parts
  parse_progress_info parse_float id line = elim (four_parts line) [
    | none ↦ none
    | some (kind, status, number, text) ↦ elim (parse_float number) [
      | none ↦ none
      | some progress ↦
          if str_eq kind "dummy"
          then some (progress_info id progress (trim text) (status_of status) true)
          else if str_eq kind "dlstatus"
          then some (progress_info id (div progress (lit 100 0)) (trim text) running true)
          else if str_eq kind "pmstatus"
          then some (progress_info id (div progress (lit 100 0)) (trim text) running false)
          else if str_eq kind "pmerror"
          then some (
              progress_info id (minus_one fl) (trim text)
                (if str_eq id dist_upgrade_job then other "" else failed) true)
          else none
    ]
  ]
