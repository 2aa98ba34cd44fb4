-- ===== src/Policy/Validated.antt =====
-- What `Policy::validate` guarantees of the policy that it returns.
use sower.Prelude.{
  ◌≤◌, ◌≡◌, refl, true, false, List, [], ◌∷◌, ◌++◌, arith, ok, Text, bytes, all, any, inl, inr,
  is_empty, append_assoc, append-nil, Result-cases, subst, sym, ◌∙◌,
}
use sower.Policy.Subnet.{Subnet, from_str, contains}
use sower.Policy.Subnet.Span.{IsSubnet, from_str-IsSubnet}
use sower.Policy.Defs.{
  Policy, PolicyFile, validate, valid_unit, parse_all, parse_protected, special, in_private_network,
  is_absolute, has_parent_dir,
}

-- The subnets that `special` spells.
abbrev pub special_subnets : List Subnet
special_subnets =
    record { network = 0x00000000; prefix = 8 }
    ∷ record { network = 0x0a000000; prefix = 8 }
    ∷ record { network = 0x64400000; prefix = 10 }
    ∷ record { network = 0x7f000000; prefix = 8 }
    ∷ record { network = 0xa9fe0000; prefix = 16 }
    ∷ record { network = 0xac100000; prefix = 12 }
    ∷ record { network = 0xc0000000; prefix = 24 }
    ∷ record { network = 0xc0000200; prefix = 24 }
    ∷ record { network = 0xc01fc400; prefix = 24 }
    ∷ record { network = 0xc034c100; prefix = 24 }
    ∷ record { network = 0xc0af3000; prefix = 24 }
    ∷ record { network = 0xc0586300; prefix = 24 }
    ∷ record { network = 0xc0a80000; prefix = 16 }
    ∷ record { network = 0xc6120000; prefix = 15 }
    ∷ record { network = 0xc6336400; prefix = 24 }
    ∷ record { network = 0xcb007100; prefix = 24 }
    ∷ record { network = 0xe0000000; prefix = 4 }
    ∷ record { network = 0xf0000000; prefix = 4 }
    ∷ []

special_parse : parse_all special ≡ ok special_subnets
unfolding parse_all bytes
special_parse = refl

-- What holds of a policy that passed validation.
pub record IsPolicy (p : Policy) : Type 0 where
  pub has_unit : is_empty p.garden_units ≡ false
  pub units : all valid_unit p.garden_units ≡ true
  pub pool : IsSubnet p.pool
  pub prefix_ge : 16 ≤ p.pool.prefix
  pub prefix_le : p.pool.prefix ≤ 30
  pub private_pool : in_private_network p.pool ≡ true
  -- the operator's list extends the special-purpose list
  pub extends_special : (extra : List Subnet) × (p.protected ≡ special_subnets ++ extra)
  pub dns_public : any (λ subnet. contains subnet p.dns) p.protected ≡ false
  pub absolute : is_absolute p.state_directory ≡ true
  pub no_parent_dir : has_parent_dir p.state_directory ≡ false

parse_protected-extends :
    (protected : List Subnet) (cidrs : List Text) {r : List Subnet}
    → parse_protected protected cidrs ≡ ok r
    → (extra : List Subnet) × (r ≡ protected ++ extra)
unfolding parse_protected
parse_protected-extends protected [] h = ([], ground (arith, append-nil protected))
parse_protected-extends protected (cidr ∷ cidrs) {r} h = elim (Result-cases (from_str cidr)) [
  | inl (s, e) ↦
      let (extra, f) = parse_protected-extends (protected ++ (s ∷ [])) cidrs {r = r} (rw e at h) in
      (s ∷ extra, f ∙ append_assoc protected (s ∷ []) extra)
  | inr (x, e) ↦ absurd (ground arith)
]

-- The policy that `validate` builds from a file, a pool and a list of protected subnets.
abbrev built : PolicyFile → Subnet → List Subnet → Policy
built file pool protected = record {
  pool = pool;
  dns = file.dns_resolver;
  protected = protected;
  state_directory = file.state_directory;
  garden_units = file.garden_units;
}

built-IsPolicy :
    (file : PolicyFile) (pool : Subnet) (protected : List Subnet) {p : Policy}
    → from_str file.address_pool ≡ ok pool
    → parse_protected special_subnets file.protected_destinations ≡ ok protected
    → validate file ≡ ok p
    → (p ≡ built file pool protected) × IsPolicy (built file pool protected)
unfolding validate
built-IsPolicy file pool protected e f h = ground (
  arith,
  special_parse,
  from_str-IsSubnet file.address_pool {s = pool} e,
  parse_protected-extends special_subnets file.protected_destinations {r = protected} f,
)

-- A policy that `Policy::validate` returns has configured units with valid names, a canonical private pool with a prefix of 16 to 30, the special-purpose networks among the protected ones, a resolver outside all of them, and an absolute state directory without parent traversal.
pub validate-IsPolicy : (file : PolicyFile) {p : Policy} → validate file ≡ ok p → IsPolicy p
validate-IsPolicy file {p} h = elim (Result-cases (from_str file.address_pool)) [
  | inl (pool, e) ↦
      elim (Result-cases (parse_protected special_subnets file.protected_destinations)) [
        | inl (protected, f) ↦
            let (eq, v) = built-IsPolicy file pool protected e f h in subst IsPolicy (sym eq) v
        | inr (x, f) ↦ absurd (unfold validate in ground (arith, special_parse))
      ]
  | inr (x, e) ↦ absurd (unfold validate in ground arith)
]
