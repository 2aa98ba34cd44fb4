-- ===== src/Tests/Deploys.antt =====
-- Targets and quoting at concrete inputs.
use sower.Prelude.{
  ◌≡◌, ◌⊎◌, ◌++◌, refl, ◌∷◌, some, Text, Result, ok, bail, bytes, strip_prefix, starts_with,
  split_once, is_whitespace, is_control, is_alphanumeric, parse_uint,
}
use sower.Deploy.Target.{
  Target, parse, parse_authority, parse_user, parse_host, parse_name, is_forbidden, is_user_byte,
  is_host_byte, is_port, parse_safe, IsHostName, UserIsSafe, PortIsSafe,
}
use sower.Deploy.Quote.{Mode, shell_quote, read_word, shell_quote_lem}

abbrev no_ipv6 : Text → Result (Unit {0})
no_ipv6 text = bail (bytes "invalid IPv6 address syntax")

abbrev target : Target
target = record {
  host = bytes "web-1.example";
  user = some (bytes "root");
  port = some (bytes "2222");
}

parsed : parse no_ipv6 (bytes "ssh://root@web-1.example:2222") ≡ ok target
unfolding parse parse_authority parse_user parse_host parse_name is_forbidden is_user_byte
    is_host_byte is_port strip_prefix starts_with split_once bytes is_whitespace is_control
    is_alphanumeric parse_uint
parsed = refl

parse_safe_example :
    ((no_ipv6 target.host ≡ ok tt) ⊎ IsHostName target.host)
    × UserIsSafe target.user
    × PortIsSafe target.port
parse_safe_example = parse_safe no_ipv6 (bytes "ssh://root@web-1.example:2222") parsed

shell_quote_lem_example :
    read_word Mode.outside (shell_quote (bytes "it's; rm") ++ (32 ∷ bytes "next"))
    ≡ some (bytes "it's; rm", bytes "next")
shell_quote_lem_example = shell_quote_lem (bytes "it's; rm") (bytes "next")
