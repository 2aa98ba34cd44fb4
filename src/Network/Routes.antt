-- ===== src/Network/Routes.antt =====
-- The check of routes of src/commands/activator/network_host.rs: what it lets pass is disjoint from
-- the four addresses of the lease.
use sower.Prelude.{
  ℕ, ◌+◌, ◌-◌, ◌*◌, ◌/◌, ◌%◌, ◌^◌, ◌≡◌, ◌<◌, ◌≤◌, ◌==◌, true, false, List, [], ◌∷◌, Option, none,
  some, ok, Text, bytes, text_eq, arith, ◌⊎◌, inl, inr, Result-cases, Option-cases, Bool-cases, ltb,
  text_eq_iff, leb, any, has_byte, ap, ◌∙◌,
}
use sower.Policy.Address.{parse_ipv4, parse_ipv4-lt}
use sower.Policy.Subnet.{Subnet, contains, masked}
use sower.Policy.Subnet.Span.{IsSubnet, from_str-IsSubnet, contains-span, span}
use sower.Network.Script.{option_is, route_subnet, route_is_free, check_route, check_routes}

quotient : (a q K : ℕ) → q * K ≤ a → a < q * K + K → a / K ≡ q
quotient a q K le lt = grind arith

-- In a canonical subnet, the addresses of its span are the ones that it contains.
span-contains :
    (s : Subnet) (a : ℕ) → IsSubnet s → s.network ≤ a → a < s.network + span s → contains s a ≡ true
unfolding contains masked span
span-contains s a v le lt =
    let e : a / 2 ^ (32 - s.prefix) ≡ s.network / 2 ^ (32 - s.prefix) =
      quotient a (s.network / 2 ^ (32 - s.prefix)) (2 ^ (32 - s.prefix)) (omega (arith, v.aligned))
        (omega (arith, v.aligned)) in
    let f : masked a s.prefix ≡ s.network = ap (λ (n : ℕ). n * 2 ^ (32 - s.prefix)) e ∙ v.aligned in
    ground arith

free_outside :
    (network : ℕ) (s : Subnet) (a : ℕ)
    → IsSubnet s
    → route_is_free network s ≡ true
    → (s.prefix == 0) ≡ false
    → contains s a ≡ true
    → (a < network) ⊎ (network + 4 ≤ a)
unfolding route_is_free
free_outside network s a v free nonzero h =
    let (lo, hi) = contains-span s a h in
    elim (Bool-cases (leb s.network network)) [
      | inl t ↦ elim (Bool-cases (ltb network (s.network + span s))) [
        | inl u ↦ absurd (ground (arith, span-contains s network v (ground arith) (ground arith)))
        | inr u ↦ inl (ground arith)
      ]
      | inr t ↦ inr (ground arith)
    ]

-- Every subnet that a route's destination spells is canonical.
route_subnet-IsSubnet :
    (destination : Text) {s : Subnet} → route_subnet destination ≡ ok s → IsSubnet s
unfolding route_subnet masked
route_subnet-IsSubnet destination {s} h = elim (Bool-cases (has_byte b'/' destination)) [
  | inl t ↦ from_str-IsSubnet destination {s = s} (ground arith)
  | inr t ↦ elim (Option-cases (parse_ipv4 destination)) [
    | inl e ↦ absurd (ground arith)
    | inr (a, e) ↦
        let made : s ≡ record { network = a; prefix = 32 } = ground arith in
        rw made (record {
          prefix_le = omega arith;
          network_le = parse_ipv4-lt destination {n = a} e;
          aligned = omega arith;
        })
  ]
]

route_checked :
    (gateway : ℕ) (routes : List (Option Text)) (destination : Text)
    → check_routes gateway routes ≡ ok tt
    → any (λ r. option_is r destination) routes ≡ true
    → check_route (gateway - gateway % 4) destination ≡ ok tt
unfolding check_routes
route_checked gateway [] destination h m = ground arith
route_checked gateway (none ∷ routes) destination h m = ground arith
route_checked gateway (some d ∷ routes) destination h m =
    elim (Result-cases (check_route (gateway - gateway % 4) d)) [
      | inr (e, f) ↦ absurd (ground arith)
      | inl (u, f) ↦ elim (Bool-cases (text_eq d destination)) [
        | inl t ↦ rw (← ((text_eq_iff d destination).0 t)) f
        | inr t ↦ route_checked gateway routes destination (ground arith) (ground arith)
      ]
    ]

-- Routes that pass the check stay clear of the lease: when `check_routes` succeeds, no address of a route, be it a subnet or a host, is among the four addresses of the block around the gateway; the default route and routes of prefix 0 are excepted.
pub check_routes_lem :
    (gateway : ℕ) (routes : List (Option Text)) (destination : Text) (s : Subnet) (a : ℕ)
    → check_routes gateway routes ≡ ok tt
    → any (λ r. option_is r destination) routes ≡ true
    → text_eq destination (bytes "default") ≡ false
    → route_subnet destination ≡ ok s
    → (s.prefix == 0) ≡ false
    → contains s a ≡ true
    → (a < gateway - gateway % 4) ⊎ (gateway - gateway % 4 + 4 ≤ a)
unfolding check_route
check_routes_lem gateway routes destination s a h m d r nonzero c =
    let checked = route_checked gateway routes destination h m in
    free_outside (gateway - gateway % 4) s a (route_subnet-IsSubnet destination {s = s} r)
      (ground arith) nonzero c
