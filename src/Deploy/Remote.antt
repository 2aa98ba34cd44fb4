-- ===== src/Deploy/Remote.antt =====
-- The command that ssh runs on the target: `remote_command` and `download_base` of
-- src/commands/deploy/sudo.rs.
use sower.Prelude.{
  ◌≡◌, refl, Bool, not, ◌||◌, [], ◌∷◌, ◌++◌, Option, none, some, Result, ok, err, bail, or_fail,
  true, display, ◌&&◌, ◌==◌, ◌>>=◌, Text, bytes, concat, any, text_eq, is_control, is_some,
  is_empty, if◌then◌else◌,
}
use sower.Deploy.Quote.{Mode, shell_quote, read_word, shell_quote_lem, shell_quote_end}

unfoldable pub remote_script : Text
unfolding bytes
remote_script = concat (
    bytes "\n"
    ∷ bytes "set -o errexit -o nounset -o pipefail\n"
    ∷ bytes "request=$1\n"
    ∷ bytes "download_base=$2\n"
    ∷ bytes "download_error=$3\n"
    ∷ bytes "if binary=$(command -v sower); then\n"
    ∷ bytes "    case \"$binary\" in\n"
    ∷ bytes "        /*) ;;\n"
    ∷ bytes "        *) binary=\"$PWD/$binary\" ;;\n"
    ∷ bytes "    esac\n"
    ∷ bytes "else\n"
    ∷ bytes "    if [ -n \"$download_error\" ]; then\n"
    ∷ bytes "        printf '%s\\n' \"$download_error\" >&2\n"
    ∷ bytes "        exit 1\n"
    ∷ bytes "    fi\n"
    ∷ bytes "    case \"$(uname --kernel-name)\" in\n"
    ∷ bytes "        Linux) os=linux ;;\n"
    ∷ bytes
        "        *) printf '%s\\n' 'Unsupported target operating system for sower download' >&2; exit 1 ;;\n"
    ∷ bytes "    esac\n"
    ∷ bytes "    case \"$(uname --machine)\" in\n"
    ∷ bytes "        x86_64) arch=x86_64 ;;\n"
    ∷ bytes "        aarch64|arm64) arch=aarch64 ;;\n"
    ∷ bytes
        "        *) printf '%s\\n' 'Unsupported target architecture for sower download' >&2; exit 1 ;;\n"
    ∷ bytes "    esac\n"
    ∷ bytes "    tmp_dir=$(mktemp --directory)\n"
    ∷ bytes "    trap 'rm --recursive --force -- \"$tmp_dir\"' EXIT\n"
    ∷ bytes "    binary=\"$tmp_dir/sower\"\n"
    ∷ bytes "    curl --fail --location --show-error --proto '=https' --proto-redir '=https' \\\n"
    ∷ bytes "        --output \"$binary\" -- \"${download_base}${arch}-${os}\"\n"
    ∷ bytes "    chmod u+x -- \"$binary\"\n"
    ∷ bytes "fi\n"
    ∷ bytes "printf '%s\\n' \"$request\" |\n"
    ∷ bytes "    sudo --user=root -- /usr/bin/env \\\n"
    ∷ bytes
        "        PATH=/run/current-system/sw/bin:/nix/var/nix/profiles/default/bin:/usr/sbin:/usr/bin:/sbin:/bin \\\n"
    ∷ bytes "        \"$binary\" activator |\n"
    ∷ bytes "    while IFS= read -r line; do\n"
    ∷ bytes "        printf '\\036sower-activator\\037%s\\n' \"$line\"\n"
    ∷ bytes "    done\n"
    ∷ [])

-- What `reqwest::Url` gives of a URL.
pub record Url : Type 0 where
  pub scheme : Text
  pub host : Option Text
  pub username : Text
  pub password : Option Text
  pub query : Option Text
  pub fragment : Option Text
  pub text : Text

-- `trim_end_matches('/')`.
abbrev only_slashes : Text → Bool
only_slashes [] = true
only_slashes (c ∷ s) = c == b'/' && only_slashes s

unfoldable pub trim_slashes : Text → Text
trim_slashes [] = []
trim_slashes (c ∷ s) = let rest = trim_slashes s in if only_slashes (c ∷ s) then [] else c ∷ rest

abbrev bad_url : Url → Bool
bad_url url =
    not (text_eq url.scheme (bytes "https"))
    || (not (is_some url.host)
        || (not (is_empty url.username)
            || (is_some url.password || (is_some url.query || is_some url.fragment))))

abbrev base_of : Url → Result Text
base_of url =
    if bad_url url
    then bail
        (bytes "binary fallback requires an HTTPS endpoint without credentials, query, or fragment")
    else ok (trim_slashes url.text ++ bytes "/client/bin/")

module _ (parse_url : Text → Option Url) where
  unfoldable pub download_base : Option Text → Result Text
  download_base none =
      bail
        (bytes "sower is absent on the target; configure an HTTPS --endpoint for binary fallback")
  download_base (some endpoint) =
      if any is_control endpoint
      then bail (bytes "binary fallback requires a valid HTTPS endpoint")
      else (or_fail (parse_url endpoint) (bytes "binary fallback requires a valid HTTPS endpoint")
          >>= base_of)

  -- The base of the download and the error that is raised without one: one of them is empty.
  abbrev pub fallback : Result Text → Text × Text
  fallback (ok base) = (base, [])
  fallback (err e) = ([], display e)

  abbrev pub prefix : Text
  prefix = bytes "/usr/bin/env bash --noprofile --norc -c "

  unfoldable pub remote_command : Text → Option Text → Text
  remote_command request endpoint =
      let (base, error) = fallback (download_base endpoint) in
      prefix
      ++ (shell_quote remote_script
          ++ (bytes " sower-sudo "
              ++ (shell_quote request ++ (32 ∷ (shell_quote base ++ (32 ∷ shell_quote error))))))

-- A command line whose words a shell reads one by one: the script with its three arguments.
pub record IsReadAs (script request base error line : Text) : Type 0 where
  pub after_script : Text
  pub after_request : Text
  pub after_base : Text
  pub script_word : read_word Mode.outside line ≡ some (script, bytes "sower-sudo " ++ after_script)
  pub request_word : read_word Mode.outside after_script ≡ some (request, after_request)
  pub base_word : read_word Mode.outside after_request ≡ some (base, after_base)
  pub error_word : read_word Mode.outside after_base ≡ some (error, [])

-- Whatever the request and the endpoint are, the remote shell reads the command behind its fixed beginning as the script, its name, the request, the base of the download and the error, each as it is, and nothing more.
pub remote_command_lem :
    (parse_url : Text → Option Url) (request : Text) (endpoint : Option Text)
    → let (base, error) = fallback parse_url (download_base parse_url endpoint) in
      (line : Text) × (remote_command parse_url request endpoint ≡ prefix parse_url ++ line)
      × IsReadAs remote_script request base error line
unfolding remote_command bytes
remote_command_lem parse_url request endpoint =
    let (base, error) = fallback parse_url (download_base parse_url endpoint) in
    (
      _,
      refl,
      record {
        after_script = _;
        after_request = _;
        after_base = _;
        script_word = shell_quote_lem remote_script _;
        request_word = shell_quote_lem request _;
        base_word = shell_quote_lem base _;
        error_word = shell_quote_end error;
      },
    )
