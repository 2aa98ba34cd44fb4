-- ===== src/Policy/Subnet.antt =====
-- `Subnet` of src/commands/activator/network_policy.rs.
pub mod Span
use sower.Prelude.{
  ℕ, ◌+◌, ◌-◌, ◌*◌, ◌/◌, ◌^◌, ◌<◌, ◌≤◌, ◌≡◌, Bool, ◌++◌, ◌∷◌, Option, arith, leb, ◌==◌, Result, ok,
  ensure, or_fail, ◌>>=◌, ◌>>◌, Text, bytes, split_once, parse_uint, u8_max, octet,
}
use sower.Policy.Address.{parse_ipv4, display_ipv4}

pub record Subnet : Type 0 where
  pub network : ℕ
  pub prefix : ℕ

-- `address & mask` with `mask = u32::MAX.checked_shl(32 - prefix).unwrap_or(0)`: the low
-- `32 - prefix` bits are cleared, all 32 of them at prefix 0.
unfoldable pub masked : ℕ → ℕ → ℕ
masked address prefix = address / 2 ^ (32 - prefix) * 2 ^ (32 - prefix)

unfoldable pub from_str : Text → Result Subnet
unfolding masked parse_ipv4 split_once parse_uint
from_str value = do
  (address, digits) ← or_fail (split_once b'/' value) (bytes "expected IPv4 CIDR")
  prefix ← or_fail (parse_uint u8_max digits) (bytes "invalid IPv4 prefix")
  ensure (leb prefix 32) (bytes "invalid IPv4 prefix")
  network ← or_fail (parse_ipv4 address) (bytes "invalid IPv4 address")
  ensure (masked network prefix == network) (bytes "CIDR must use its network address")
  ok (record { network = network; prefix = prefix })

unfoldable pub contains : Subnet → ℕ → Bool
unfolding masked
contains s address = masked address s.prefix == s.network

unfoldable pub canonical : Subnet → Text
unfolding display_ipv4 octet
canonical s = display_ipv4 s.network ++ (b'/' ∷ octet s.prefix)
