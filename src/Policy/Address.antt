-- ===== src/Policy/Address.antt =====
-- `Ipv4Addr` of the standard library, a 32-bit number here: reading, printing, and the private
-- networks.
use sower.Prelude.{
  ℕ, ◌+◌, ◌*◌, ◌/◌, ◌%◌, ◌<◌, ◌≤◌, ◌≡◌, Bool, ◌||◌, List, [], ◌∷◌, ◌++◌, Option, none, some, arith,
  ltb, ◌==◌, if◌then◌else◌, length, Text, split, parse_digits, parse_digits-le, octet, Option-cases,
  ◌⊎◌, inl, inr, ltb,
}
use sower.Prelude.OptionMonad.{◌>>=◌}

abbrev pub u32_size : ℕ
u32_size = 4294967296

-- One decimal number of `Ipv4Addr::parse`: one to three digits, no leading zero, at most 255.
unfoldable pub parse_octet : Text → Option ℕ
unfolding parse_digits
parse_octet [] = none
parse_octet (c ∷ []) = parse_digits 255 0 (c ∷ [])
parse_octet (c ∷ d ∷ s) =
    if c == b'0' || ltb 1 (length s) then none else parse_digits 255 0 (c ∷ d ∷ s)

join_octets : ℕ → ℕ → ℕ → ℕ → ℕ
join_octets a b c d = a * 16777216 + b * 65536 + c * 256 + d

parse_parts : List Text → Option ℕ
unfolding join_octets parse_octet
parse_parts (p ∷ q ∷ r ∷ s ∷ []) = do
  a ← parse_octet p
  b ← parse_octet q
  c ← parse_octet r
  d ← parse_octet s
  some (join_octets a b c d)
parse_parts _ = none

-- `str::parse::<Ipv4Addr>` followed by `u32::from`.
unfoldable pub parse_ipv4 : Text → Option ℕ
unfolding parse_parts split
parse_ipv4 s = parse_parts (split b'.' s)

-- `Display` of `Ipv4Addr::from(n)`.
unfoldable pub display_ipv4 : ℕ → Text
unfolding octet
display_ipv4 n =
    octet (n / 16777216)
    ++ (b'.'
        ∷ (octet (n / 65536 % 256) ++ (b'.' ∷ (octet (n / 256 % 256) ++ (b'.' ∷ octet (n % 256))))))

-- `Ipv4Addr::is_private`: 10/8, 172.16/12 and 192.168/16.
unfoldable pub is_private : ℕ → Bool
is_private n = n / 16777216 == 10 || (n / 1048576 == 2753 || n / 65536 == 49320)

-- A number that `parse_octet` reads is a byte.
octet_cases : (s : Text) → (parse_octet s ≡ none) ⊎ ((n : ℕ) × (parse_octet s ≡ some n) × (n ≤ 255))
unfolding parse_octet
octet_cases s = elim (Option-cases (parse_octet s)) [
  | inl e ↦ inl e
  | inr (n, e) ↦ inr (n, e, bound s e)
]
  where
    bound : (s : Text) {n : ℕ} → parse_octet s ≡ some n → n ≤ 255
    bound [] {n} h = ground arith
    bound (c ∷ []) {n} h = parse_digits-le 255 0 (c ∷ []) {n = n} (omega arith) h
    bound (c ∷ d ∷ s) {n} h = ground (arith, parse_digits-le 255 0 (c ∷ d ∷ s) {n = n})

parse_parts-lt : (ps : List Text) {n : ℕ} → parse_parts ps ≡ some n → n < u32_size
unfolding parse_parts
parse_parts-lt (p ∷ q ∷ r ∷ s ∷ []) {n} h =
    ground (arith, octet_cases p, octet_cases q, octet_cases r, octet_cases s)
parse_parts-lt [] {n} h = ground arith
parse_parts-lt _ {n} h = ground arith

-- An address that parses is a 32-bit number.
pub parse_ipv4-lt : (s : Text) {n : ℕ} → parse_ipv4 s ≡ some n → n < u32_size
unfolding parse_ipv4
parse_ipv4-lt s {n} h = parse_parts-lt (split b'.' s) {n = n} h
