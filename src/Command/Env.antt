-- ===== src/Command/Env.antt =====
-- The environment that a command is given (src/internal/system/command.go).
use Prim.Native.Char.{code}
use Prim.Native.String.{◌++◌ as text_append}
use lastore_daemon.Base.{
  Bool, List, [], ◌∷◌, map, Option, none, some, String, str_eq, ◌==◌, if◌then◌else◌, any,
}
use lastore_daemon.Base.Assoc.{Assoc, insert}
use lastore_daemon.Command.{Command}

-- `allowedChildEnvKeys`
abbrev pub allowed_child_env_keys : List String
allowed_child_env_keys =
    "http_proxy" ∷ "https_proxy" ∷ "ftp_proxy" ∷ "all_proxy" ∷ "no_proxy" ∷ "HTTP_PROXY"
    ∷ "HTTPS_PROXY" ∷ "FTP_PROXY" ∷ "NO_PROXY" ∷ "ALL_PROXY" ∷ "DISPLAY" ∷ "XAUTHORITY"
    ∷ "DEEPIN_LASTORE_LANG" ∷ "PACKAGEKIT_CALLER_UID" ∷ "IMMUTABLE_DISABLE_REMOUNT"
    ∷ "DEEPIN_IMMUTABLE_UPGRADE_APT_OPTION" ∷ []

unfoldable pub is_allowed : String → Bool
is_allowed key = any (str_eq key) allowed_child_env_keys

-- `strings.SplitN(env, "=", 2)`, none where there is no `=`.
unfoldable pub split_pair : String → Option (String × String)
split_pair String.[] = none
split_pair (String.◌∷◌ c s) =
    let rest = split_pair s in
    if code c == 61
    then some (String.[], s)
    else elim rest [ none ↦ none | some (k, v) ↦ some (String.◌∷◌ c k, v) ]

abbrev pub put_pair : Assoc String → Option (String × String) → Assoc String
put_pair m none = m
put_pair m (some (k, v)) = insert k v m

-- The loop over `os.Environ()`.
unfoldable pub read_environ : List String → Assoc String → Assoc String
unfolding split_pair
read_environ [] m = m
read_environ (e ∷ es) m = read_environ es (put_pair m (split_pair e))

-- The loop over the map of variables to set, whose entries are visited from the last one on.
unfoldable pub override : Assoc String → Assoc String → Assoc String
unfolding is_allowed
override [] m = m
override ((k, v) ∷ l) m = let m' = override l m in if is_allowed k then insert k v m' else m'

abbrev pub env_text : String × String → String
env_text (k, v) = text_append k (text_append "=" v)

-- `SetEnv`, with what `os.Environ` gives.
unfoldable pub set_env : {F : Type 0} → List String → Option (Assoc String) → Command F → Command F
unfolding read_environ override
set_env environ none c = c
set_env environ (some vars) c = record c {
  env = some (map env_text (override vars (read_environ environ [])));
}
