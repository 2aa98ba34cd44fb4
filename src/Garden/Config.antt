-- ===== src/Garden/Config.antt =====
-- The path of the admin socket: src/commands/garden/config.rs.
use sower.Prelude.{
  Bool, true, false, List, [], ◌∷◌, ◌++◌, Option, none, some, Text, bytes, text_eq, Result, ok, err,
  context, ◌>>=◌, if◌then◌else◌, or_else,
}
use sower.Activate.Services.{join}

pub record FileConfig : Type 0 where
  pub admin_socket : Option Text

abbrev is_root : Option Text → Bool
is_root none = false
is_root (some user) = text_eq user (bytes "root")

abbrev joined : Option Text → Text → Option Text
joined none name = none
joined (some base) name = some (join base name)

abbrev path_list : Option Text → List Text
path_list none = []
path_list (some path) = path ∷ []

unfoldable pub default_path_for : Option Text → (Text → Option Text) → Option Text
default_path_for user env =
    if is_root user
    then some (bytes "/etc/sower/client.json")
    else joined
        (joined
          (or_else (env (bytes "XDG_CONFIG_HOME")) (joined (env (bytes "HOME")) (bytes ".config")))
          (bytes "sower"))
        (bytes "client.json")

abbrev run_socket : Text
run_socket = bytes "/run/sower-garden/admin.sock"

unfoldable pub default_admin_socket_for : Option Text → Option Text → Text
default_admin_socket_for user none = run_socket
default_admin_socket_for user (some dir) =
    if is_root user then run_socket else join (join dir (bytes "sower-garden")) (bytes "admin.sock")

-- What a file names goes before what the files before it named.
abbrev pub merge : FileConfig → FileConfig → FileConfig
merge merged file = elim file.admin_socket [ none ↦ merged | some socket ↦ file ]

-- The environment variables and files are parameters, and so is serde_json.
module _ (env : Text → Option Text) (exists : Text → Bool) (read_to_string : Text → Result Text)
    (from_str : Text → Result FileConfig) where
  unfoldable pub read_one : Text → Result FileConfig
  read_one path = context (read_to_string path) (bytes "read config file: " ++ path) >>= λ raw.
      context (from_str raw) (bytes "parse config file: " ++ path)

  unfoldable pub load_from : FileConfig → List Text → Result FileConfig
  load_from merged [] = ok merged
  load_from merged (path ∷ paths) = elim (exists path) [
    | false ↦ load_from merged paths
    | true ↦ elim (read_one path) [ err e ↦ err e | ok file ↦ load_from (merge merged file) paths ]
  ]

  abbrev pub paths_of : List Text → List Text
  paths_of [] = path_list (default_path_for (env (bytes "USER")) env)
  paths_of (path ∷ paths) = path ∷ paths

  unfoldable pub load_config : List Text → Result FileConfig
  load_config explicit = load_from (record { admin_socket = none }) (paths_of explicit)

  abbrev pub socket_or_default : FileConfig → Text
  socket_or_default config = elim config.admin_socket [
    | some path ↦ path
    | none ↦ default_admin_socket_for (env (bytes "USER")) (env (bytes "XDG_RUNTIME_DIR"))
  ]

  unfoldable pub resolve_socket : Option Text → List Text → Result Text
  resolve_socket (some path) files = ok path
  resolve_socket none files = load_config files >>= λ config. ok (socket_or_default config)
