-- ===== src/Network/Lease.antt =====
-- `Phase`, `Lease` and the checks on them: src/commands/activator/network.rs, and `valid_mac` of
-- network_host.rs beside it.
use sower.Prelude.{
  ℕ, ◌+◌, ◌%◌, Bool, true, false, not, ◌&&◌, ◌++◌, Option, none, some, ltb, leb, ◌==◌, ℤ, int_eq,
  is_positive, Result, ensure, ◌>>◌, Text, bytes, text_eq, starts_with, split, is_hexdigit,
  is_upper, hex4, length, all, is_empty,
}
use sower.Policy.{valid_unit}
use sower.Policy.Address.{is_private}

pub data Phase : Type 0 where
  reserved allocated active revoked quarantined : Phase

abbrev pub phase_eq : Phase → Phase → Bool
phase_eq Phase.reserved Phase.reserved = true
phase_eq Phase.allocated Phase.allocated = true
phase_eq Phase.active Phase.active = true
phase_eq Phase.revoked Phase.revoked = true
phase_eq Phase.quarantined Phase.quarantined = true
phase_eq _ _ = false

pub record Lease : Type 0 where
  pub lease : Text
  pub slot : ℕ
  pub tap : Text
  pub mac : Text
  pub host_mac : Option Text
  pub address : ℕ
  pub gateway : ℕ
  pub instance_name : Text
  pub owner_uid : ℕ
  pub owner_pid : ℤ
  pub owner_starttime : ℕ
  pub execution_id : Text
  pub phase : Phase

-- A lower-case hexadecimal digit.
unfoldable pub is_lower_hex : ℕ → Bool
unfolding is_hexdigit is_upper
is_lower_hex c = is_hexdigit c && not (is_upper c)

unfoldable pub valid_token : Text → Bool
unfolding is_lower_hex
valid_token token = length token == 32 && all is_lower_hex token

abbrev valid_mac_byte : Text → Bool
valid_mac_byte byte = length byte == 2 && all is_lower_hex byte

unfoldable pub valid_mac : Text → Bool
unfolding is_lower_hex split
valid_mac mac =
    length mac == 17 && (length (split b':' mac) == 6 && all valid_mac_byte (split b':' mac))

abbrev valid_host_mac : Option Text → Bool
valid_host_mac none = true
valid_host_mac (some mac) = valid_mac mac

unfoldable pub validate_execution : Text → Result (Unit {0})
validate_execution execution =
    ensure (not (is_empty execution) && leb (length execution) 256)
      (bytes "execution_id must contain 1 through 256 bytes")

unfoldable pub tap_prefix : Text
unfolding bytes
tap_prefix = bytes "swnt"

unfoldable pub tap_name : ℕ → Text
unfolding tap_prefix hex4
tap_name slot = tap_prefix ++ hex4 slot

-- `Lease::validate`. Adding 1 to a gateway with low bits 01 does not overflow.
unfoldable pub validate : Lease → Result (Unit {0})
validate self = do
  ensure (valid_token self.lease) (bytes "invalid journal lease token")
  ensure (ltb self.slot 16384 && text_eq self.tap (tap_name self.slot))
      (bytes "invalid journal TAP name")
  ensure (valid_mac self.mac && starts_with self.mac (bytes "02:"))
      (bytes "invalid journal guest MAC")
  ensure (valid_host_mac self.host_mac) (bytes "invalid journal host MAC")
  ensure (self.gateway % 4 == 1 && self.address == self.gateway + 1)
      (bytes "invalid journal /30 addresses")
  ensure (is_private self.address && is_private self.gateway)
      (bytes "journal addresses must be RFC1918")
  ensure (valid_unit self.instance_name) (bytes "invalid journal instance")
  ensure (is_positive self.owner_pid && ltb 0 self.owner_starttime)
      (bytes "invalid journal peer identity")
  validate_execution self.execution_id

pub record PeerCredentials : Type 0 where
  pub pid : ℤ
  pub uid : ℕ
  pub gid : ℕ

pub record Owner : Type 0 where
  pub instance_name : Text
  pub peer : PeerCredentials
  pub starttime : ℕ

-- `Lease::require_owner`.
unfoldable pub is_owner : Lease → Owner → Bool
unfolding text_eq
is_owner self owner =
    text_eq self.instance_name owner.instance_name
    && (self.owner_uid == owner.peer.uid
        && (int_eq self.owner_pid owner.peer.pid && self.owner_starttime == owner.starttime))

unfoldable pub require_owner : Lease → Owner → Result (Unit {0})
unfolding is_owner
require_owner self owner = ensure (is_owner self owner) (bytes "lease belongs to another owner")
