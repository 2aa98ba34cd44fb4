-- ===== src/Deploy/Target.antt =====
-- `Target::parse` and the arguments of `ssh`: src/commands/deploy/sudo.rs.
use sower.Prelude.{
  ℕ, ◌≡◌, Bool, true, false, not, ◌&&◌, ◌||◌, List, [], ◌∷◌, ◌++◌, Option, none, some,
  if◌then◌else◌, ◌==◌, Text, bytes, strip_prefix, starts_with, split_once, is_digit,
  is_alphanumeric, is_whitespace, is_control, parse_uint, u16_max, all, any, is_empty, Result, ok,
  bail, context, or_fail, ◌>>=◌, ◌>>◌, Result-cases, Option-cases, inl, inr, ◌⊎◌, arith, or_else,
}

pub record Target : Type 0 where
  pub host : Text
  pub user : Option Text
  pub port : Option Text

-- What an authority may not contain.
unfoldable pub is_forbidden : ℕ → Bool
is_forbidden c =
    is_whitespace c || (is_control c || (c == b'/' || (c == b'?' || (c == b'#' || c == b'%'))))

unfoldable pub is_user_byte : ℕ → Bool
is_user_byte c = is_alphanumeric c || (c == b'.' || (c == b'_' || (c == b'-' || c == b'+')))

unfoldable pub is_host_byte : ℕ → Bool
is_host_byte c = is_alphanumeric c || (c == b'.' || (c == b'_' || c == b'-'))

unfoldable pub parse_authority : Text → Result Text
parse_authority target = do
  authority ←
      or_fail
        (or_else (strip_prefix (bytes "ssh://") target) (strip_prefix (bytes "ssh-ng://") target))
        (bytes "--sudo requires an ssh:// or ssh-ng:// copy target")
  if is_empty authority || any is_forbidden authority
      then bail (
          bytes
            "SSH copy target must contain only an authority, without a path, query, fragment, or escapes")
      else ok authority

unfoldable pub parse_user : Text → Result (Option Text × Text)
parse_user authority = elim (split_once b'@' authority) [
  | none ↦ ok (none, authority)
  | some (user, address) ↦
      if is_empty user || not (all is_user_byte user)
      then bail (bytes "invalid SSH target username")
      else ok (some user, address)
]

abbrev parse_suffix : Text → Result (Option Text)
parse_suffix suffix = if is_empty suffix then ok none else elim (strip_prefix (bytes ":") suffix) [
  | none ↦ bail (bytes "invalid SSH target after IPv6 address")
  | some port ↦ ok (some port)
]

abbrev split_port : Text → Text × Option Text
split_port address = elim (split_once b':' address) [
  | none ↦ (address, none)
  | some (host, port) ↦ (host, some port)
]

unfoldable pub parse_name : Text → Result (Text × Option Text)
parse_name address =
    let (host, port) = split_port address in
    if is_empty host || (starts_with host (bytes "-") || not (all is_host_byte host))
    then bail (bytes "invalid SSH target hostname (IPv6 addresses require brackets)")
    else ok (host, port)

-- A `u16` other than 0, in digits alone.
unfoldable pub is_port : Text → Bool
is_port port =
    not (is_empty port)
    && (all is_digit port
        && elim (parse_uint u16_max port) [ none ↦ false | some n ↦ not (n == 0) ])

abbrev port_ok : Option Text → Bool
port_ok none = true
port_ok (some port) = is_port port

-- `parse_ipv6` is `str::parse::<Ipv6Addr>`.
module _ (parse_ipv6 : Text → Result (Unit {0})) where
  unfoldable pub parse_bracketed : Text → Result (Text × Option Text)
  parse_bracketed address = do
    (host, suffix) ← or_fail (split_once b']' address) (bytes "unterminated IPv6 SSH target")
    context (parse_ipv6 host) (bytes "invalid IPv6 SSH target")
    port ← parse_suffix suffix
    ok (host, port)

  unfoldable pub parse_host : Text → Result (Text × Option Text)
  parse_host address = elim (strip_prefix (bytes "[") address) [
    | some rest ↦ parse_bracketed rest
    | none ↦ parse_name address
  ]

  unfoldable pub parse : Text → Result Target
  parse target = do
    authority ← parse_authority target
    (user, address) ← parse_user authority
    (host, port) ← parse_host address
    if port_ok port
        then ok (record { host = host; user = user; port = port })
        else bail (bytes "SSH target port must be between 1 and 65535")

abbrev user_args : Option Text → List Text
user_args none = []
user_args (some user) = bytes "-l" ∷ user ∷ []

abbrev port_args : Option Text → List Text
port_args none = []
port_args (some port) = bytes "-p" ∷ port ∷ []

-- The arguments that `run` gives to `ssh`.
unfoldable pub ssh_args : Target → Text → List Text
ssh_args target remote =
    (bytes "-tt" ∷ user_args target.user)
    ++ (port_args target.port ++ (bytes "--" ∷ target.host ∷ remote ∷ []))

-- A name that is no option: it is not empty, does not begin with a dash, and has only letters,
-- digits and `._-`.
pub record IsHostName (host : Text) : Type 0 where
  pub some_byte : is_empty host ≡ false
  pub no_dash : starts_with host (bytes "-") ≡ false
  pub host_bytes : all is_host_byte host ≡ true

pub record IsUserName (user : Text) : Type 0 where
  pub some_byte : is_empty user ≡ false
  pub user_bytes : all is_user_byte user ≡ true

abbrev pub UserIsSafe : Option Text → Type 0
UserIsSafe none = Unit
UserIsSafe (some user) = IsUserName user

abbrev pub PortIsSafe : Option Text → Type 0
PortIsSafe none = Unit
PortIsSafe (some port) = is_port port ≡ true

user_safe :
    (authority : Text) (user : Option Text) (address : Text)
    → parse_user authority ≡ ok (user, address)
    → UserIsSafe user
unfolding parse_user
user_safe authority none address h = tt
user_safe authority (some u) address h = record {
  some_byte = ground arith;
  user_bytes = ground arith;
}

port_safe : (port : Option Text) → port_ok port ≡ true → PortIsSafe port
port_safe none h = tt
port_safe (some port) h = h

module _ (parse_ipv6 : Text → Result (Unit {0})) where
  host_safe :
      (address host : Text) (port : Option Text)
      → parse_host parse_ipv6 address ≡ ok (host, port)
      → (parse_ipv6 host ≡ ok tt) ⊎ IsHostName host
  unfolding parse_host parse_bracketed parse_name
  host_safe address host port h = elim (Option-cases (strip_prefix (bytes "[") address)) [
    | inl e ↦
        inr (record { some_byte = ground arith; no_dash = ground arith; host_bytes = ground arith })
    | inr (rest, e) ↦ inl (ground arith)
  ]

  -- A target that `Target::parse` accepts has an IPv6 address or a plain name that begins with no dash as its host, a plain user name if it has one, and a port from 1 to 65535 in digits if it has one.
  pub parse_safe :
      (target : Text) {t : Target}
      → parse parse_ipv6 target ≡ ok t
      → ((parse_ipv6 t.host ≡ ok tt) ⊎ IsHostName t.host) × UserIsSafe t.user × PortIsSafe t.port
  unfolding parse
  parse_safe target {t} h = elim (Result-cases (parse_authority target)) [
    | inr (e, f) ↦ absurd (ground arith)
    | inl (authority, f) ↦ elim (Result-cases (parse_user authority)) [
      | inr (e, g) ↦ absurd (ground arith)
      | inl ((user, address), g) ↦ elim (Result-cases (parse_host parse_ipv6 address)) [
        | inr (e, k) ↦ absurd (ground arith)
        | inl ((host, port), k) ↦
            let made : (t ≡ record { host = host; user = user; port = port })
                × (port_ok port ≡ true) =
              ground arith in
            rw made.0 (
              host_safe address host port k,
              user_safe authority user address g,
              port_safe port made.1,
            )
      ]
    ]
  ]
