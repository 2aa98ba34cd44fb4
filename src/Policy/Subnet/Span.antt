-- ===== src/Policy/Subnet/Span.antt =====
-- The range of addresses that a subnet stands for.
use native.Mathlib.Nat.{pow-suc, mul-le-mul_right, lt_of_mul-lt-mul_right}
use sower.Prelude.{
  ℕ, zero, suc, ◌+◌, ◌-◌, ◌*◌, ◌/◌, ◌^◌, ◌<◌, ◌≤◌, ◌≡◌, true, arith, ok, Text, parse_uint, u8_max,
  Option-cases, inl, inr, split_once,
}
use sower.Policy.Address.{parse_ipv4, parse_ipv4-lt}
use sower.Policy.Subnet.{Subnet, from_str, contains, masked}

pub pow_pos : (k : ℕ) → 0 < 2 ^ k
pow_pos zero = omega arith
pow_pos (suc k) = omega (arith, pow_pos k, pow-suc 2 k)

pub pow_split : (j k n : ℕ) → j + k ≡ n → 2 ^ j * 2 ^ k ≡ 2 ^ n
pow_split zero k n e = let e' : k ≡ n = omega arith in rw e' (omega arith)
pow_split (suc j) k zero e = absurd (omega arith)
pow_split (suc j) k (suc n) e =
    grind (arith, pow-suc 2 j, pow-suc 2 n, pow_split j k n (omega arith))

floor_span : (a K n : ℕ) → 0 < K → a / K * K ≡ n → (n ≤ a) × (a < n + K)
floor_span a K n h e = grind arith

unfoldable pub span : Subnet → ℕ
span s = 2 ^ (32 - s.prefix)

-- An address that a subnet contains lies between its network address and the end of its span of 2 ^ (32 - prefix) addresses.
pub contains-span :
    (s : Subnet) (a : ℕ) → contains s a ≡ true → (s.network ≤ a) × (a < s.network + span s)
unfolding contains masked span
contains-span s a h = floor_span a _ _ (pow_pos (32 - s.prefix)) (ground arith)

-- What `Subnet::from_str` accepts: a prefix of at most 32 bits and a 32-bit network address with
-- no bit set past the prefix.
pub record IsSubnet (s : Subnet) : Type 0 where
  pub prefix_le : s.prefix ≤ 32
  pub network_le : s.network < 4294967296
  pub aligned : masked s.network s.prefix ≡ s.network

pub from_str-IsSubnet : (value : Text) {s : Subnet} → from_str value ≡ ok s → IsSubnet s
unfolding from_str
from_str-IsSubnet value {s} h = elim (Option-cases (split_once b'/' value)) [
  | inl e ↦ ground arith
  | inr ((address, digits), e) ↦ elim (Option-cases (parse_uint u8_max digits)) [
    | inl f ↦ ground arith
    | inr (p, f) ↦ elim (Option-cases (parse_ipv4 address)) [
      | inl g ↦ ground arith
      | inr (n, g) ↦ ground (arith, parse_ipv4-lt address {n = n} g)
    ]
  ]
]

-- A multiple of `K` below another multiple of `K` is at least `K` below it.
multiple_gap : (x y K : ℕ) → x * K < y * K → x * K + K ≤ y * K
multiple_gap x y K h =
    omega (arith, mul-le-mul_right K (lt_of_mul-lt-mul_right K {m = x} {n = y} h))

-- An aligned subnet below a bound that its span divides ends below that bound.
pub aligned_end : (n K q c M : ℕ) → n / K * K ≡ n → K * q ≡ M → n < c * M → n + K ≤ c * M
aligned_end n K q c M a e lt =
    omega (arith, multiple_gap (n / K) (c * q) K (omega (arith, regroup)), regroup)
  where
    regroup : c * q * K ≡ c * M
    regroup = grind arith
