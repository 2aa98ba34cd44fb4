-- ===== src/Tests/Policies.antt =====
-- A policy file that passes validation, and the addresses of its pool.
use sower.Prelude.{◌*◌, ℕ, ◌≡◌, ◌<◌, ◌≤◌, ◌+◌, ◌%◌, refl, true, ok, bytes, arith}
use sower.Policy.{
  validate, addresses, slots, valid_unit, parse_all, parse_protected, is_absolute, has_parent_dir,
  in_private_network,
}
use sower.Policy.Subnet.{Subnet, from_str, contains}
use sower.Policy.Subnet.Span.{IsSubnet, from_str-IsSubnet, contains-span, span}
use sower.Policy.Validated.{IsPolicy, validate-IsPolicy}
use sower.Policy.Slots.{addresses_disjoint, addresses_sound, addresses_total}
use sower.Policy.Address.{is_private}
use sower.Tests.Fixtures.{policy_file, policy}

validates : validate policy_file ≡ ok policy
unfolding validate valid_unit from_str in_private_network parse_all parse_protected is_absolute
    has_parent_dir bytes
validates = refl

pub policy-IsPolicy : IsPolicy policy
policy-IsPolicy = validate-IsPolicy policy_file validates

validate-IsPolicy_example : IsPolicy policy
validate-IsPolicy_example = validate-IsPolicy policy_file validates

slot_3 : addresses policy 3 ≡ ok (0x0afe000d, 0x0afe000e)
unfolding addresses
slot_3 = refl

addresses_disjoint_example : ◌≡◌ {A = ℕ} 3 3
addresses_disjoint_example =
    addresses_disjoint policy policy-IsPolicy 3 3 0x0afe000d 0x0afe000e 0x0afe000d 0x0afe000e slot_3
      slot_3 refl

addresses_sound_example :
    (0x0afe000d % 4 ≡ 1)
    × (0x0afe000e ≡ 0x0afe000d + 1)
    × (0x0afe0000 ≤ 0x0afe000d)
    × (0x0afe000e < 0x0afe0000 + span policy.pool)
    × (is_private 0x0afe000d ≡ true)
    × (is_private 0x0afe000e ≡ true)
addresses_sound_example = addresses_sound policy policy-IsPolicy 3 0x0afe000d 0x0afe000e slot_3

few_slots : 3 < slots policy
unfolding slots
few_slots = omega arith

addresses_total_example : addresses policy 3 ≡ ok (0x0afe0000 + 3 * 4 + 1, 0x0afe0000 + 3 * 4 + 2)
addresses_total_example = addresses_total policy policy-IsPolicy 3 few_slots

abbrev quad : Subnet
quad = record { network = 0x09090900; prefix = 24 }

in_quad : contains quad 0x09090909 ≡ true
unfolding contains
in_quad = refl

contains-span_example : (0x09090900 ≤ 0x09090909) × (0x09090909 < 0x09090900 + span quad)
contains-span_example = contains-span quad 0x09090909 in_quad

parsed : from_str (bytes "9.9.9.0/24") ≡ ok quad
unfolding from_str bytes
parsed = refl

from_str-IsSubnet_example : IsSubnet quad
from_str-IsSubnet_example = from_str-IsSubnet (bytes "9.9.9.0/24") parsed
