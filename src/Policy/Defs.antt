-- ===== src/Policy/Defs.antt =====
-- `PolicyFile`, `Policy` and their functions, of src/commands/activator/network_policy.rs.
-- A `PathBuf` is its bytes.
use sower.Prelude.{
  ℕ, ◌+◌, ◌-◌, ◌*◌, ◌%◌, ◌^◌, Bool, not, ◌&&◌, ◌||◌, List, [], ◌∷◌, ◌++◌, ltb, leb, ◌==◌, Result,
  ok, err, ensure, context, ◌>>=◌, ◌>>◌, Text, bytes, text_eq, ends_with, starts_with, split,
  is_alphanumeric, length, all, any, is_empty,
}
use sower.Policy.Address.{u32_size}
use sower.Policy.Subnet.{Subnet, from_str, contains}

abbrev pub special : List Text
special =
    bytes "0.0.0.0/8"
    ∷ bytes "10.0.0.0/8"
    ∷ bytes "100.64.0.0/10"
    ∷ bytes "127.0.0.0/8"
    ∷ bytes "169.254.0.0/16"
    ∷ bytes "172.16.0.0/12"
    ∷ bytes "192.0.0.0/24"
    ∷ bytes "192.0.2.0/24"
    ∷ bytes "192.31.196.0/24"
    ∷ bytes "192.52.193.0/24"
    ∷ bytes "192.175.48.0/24"
    ∷ bytes "192.88.99.0/24"
    ∷ bytes "192.168.0.0/16"
    ∷ bytes "198.18.0.0/15"
    ∷ bytes "198.51.100.0/24"
    ∷ bytes "203.0.113.0/24"
    ∷ bytes "224.0.0.0/4"
    ∷ bytes "240.0.0.0/4"
    ∷ []

pub record PolicyFile : Type 0 where
  pub address_pool : Text
  pub dns_resolver : ℕ
  pub protected_destinations : List Text
  pub state_directory : Text
  pub garden_units : List Text

abbrev pub default_state_directory : Text
default_state_directory = bytes "/run/sower-network"

abbrev pub default_garden_units : List Text
default_garden_units = bytes "sower-garden.service" ∷ []

-- One byte of `b"_.@:-\\x"`, or a letter or digit.
unfoldable pub is_unit_byte : ℕ → Bool
unfolding is_alphanumeric
is_unit_byte c =
    is_alphanumeric c
    || (c == b'_'
        || (c == b'.' || (c == b'@' || (c == b':' || (c == b'-' || (c == 92 || c == b'x'))))))

unfoldable pub valid_unit : Text → Bool
unfolding ends_with is_unit_byte
valid_unit unit =
    ends_with unit (bytes ".service")
    && (leb (length unit) 255 && (ltb 8 (length unit) && all is_unit_byte unit))

pub record Policy : Type 0 where
  pub pool : Subnet
  pub dns : ℕ
  pub protected : List Subnet
  pub state_directory : Text
  pub garden_units : List Text

-- `.map(parse).collect::<Result<Vec<_>>>()`.
unfoldable pub parse_all : List Text → Result (List Subnet)
unfolding from_str
parse_all [] = ok []
parse_all (cidr ∷ cidrs) =
    let rest = parse_all cidrs in do subnet ← from_str cidr; subnets ← rest; ok (subnet ∷ subnets)

-- The loop over `protected_destinations`.
unfoldable pub parse_protected : List Subnet → List Text → Result (List Subnet)
unfolding from_str
parse_protected protected [] = ok protected
parse_protected protected (cidr ∷ cidrs) = do
  subnet ← context (from_str cidr) (bytes "invalid protected destination")
  parse_protected (protected ++ (subnet ∷ [])) cidrs

abbrev pub private_cidrs : List Text
private_cidrs = bytes "10.0.0.0/8" ∷ bytes "172.16.0.0/12" ∷ bytes "192.168.0.0/16" ∷ []

-- The closure of `private.iter().any(..)`; a constant that does not parse would panic.
abbrev pub pool_within : Subnet → Result Subnet → Bool
pool_within pool (ok subnet) = contains subnet pool.network && leb subnet.prefix pool.prefix
pool_within pool (err e) = Bool.false

unfoldable pub in_private_network : Subnet → Bool
unfolding from_str contains
in_private_network pool = any (λ cidr. pool_within pool (from_str cidr)) private_cidrs

-- `Path::is_absolute`, and a `Component::ParentDir` among the components.
unfoldable pub is_absolute : Text → Bool
unfolding starts_with
is_absolute path = starts_with path (bytes "/")

unfoldable pub has_parent_dir : Text → Bool
unfolding split text_eq
has_parent_dir path = any (λ part. text_eq part (bytes "..")) (split b'/' path)

unfoldable pub validate : PolicyFile → Result Policy
validate file = do
  ensure (not (is_empty file.garden_units) && all valid_unit file.garden_units)
      (bytes "garden_units must contain configured system service names")
  pool ← from_str file.address_pool
  ensure (leb 16 pool.prefix && leb pool.prefix 30)
      (bytes "address pool must have prefix /16 through /30")
  ensure (in_private_network pool) (bytes "address pool must be contained in an RFC1918 network")
  specials ← parse_all special
  protected ← parse_protected specials file.protected_destinations
  ensure (not (any (λ subnet. contains subnet file.dns_resolver) protected))
      (bytes "DNS resolver must be public and outside protected destinations")
  ensure (is_absolute file.state_directory) (bytes "state directory must be absolute")
  ensure (not (has_parent_dir file.state_directory))
      (bytes "state directory must not contain parent traversal")
  ok (record {
    pool = pool;
    dns = file.dns_resolver;
    protected = protected;
    state_directory = file.state_directory;
    garden_units = file.garden_units;
  })

unfoldable pub slots : Policy → ℕ
slots policy = 2 ^ (30 - policy.pool.prefix)

-- The gateway and the guest address of a slot; the sums are those of `u32`.
unfoldable pub addresses : Policy → ℕ → Result (ℕ × ℕ)
unfolding slots
addresses policy slot = do
  ensure (ltb slot (slots policy)) (bytes "allocation outside address pool")
  let base = (policy.pool.network + slot * 4) % u32_size
  ok ((base + 1) % u32_size, (base + 2) % u32_size)
