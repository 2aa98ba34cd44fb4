-- ===== src/Policy/Slots.antt =====
-- The point-to-point subnets of `Policy::addresses`: bounded, private and disjoint.

use sower.Prelude.{
  ℕ, ◌+◌, ◌-◌, ◌*◌, ◌/◌, ◌%◌, ◌^◌, ◌<◌, ◌≤◌, ◌≡◌, refl, true, arith, ok, bytes, ◌⊎◌, inl, inr, ◌∙◌,
  ap,
}
use sower.Policy.Address.{is_private}
use sower.Policy.Subnet.{Subnet, masked}
use sower.Policy.Subnet.Span.{aligned_end, span, pow_split}
use sower.Policy.Defs.{Policy, in_private_network, slots, addresses}
use sower.Policy.Validated.{IsPolicy}

-- The three private networks, as `in_private_network` tests them.
in_private_network_lem :
    (pool : Subnet)
    → in_private_network pool ≡ true
    → ((pool.network / 16777216 ≡ 10) × (8 ≤ pool.prefix))
      ⊎ (((pool.network / 1048576 ≡ 2753) × (12 ≤ pool.prefix))
          ⊎ ((pool.network / 65536 ≡ 49320) × (16 ≤ pool.prefix)))
unfolding in_private_network bytes
in_private_network_lem pool h = ground arith

multiple_of_4 : (q K n s : ℕ) → q * K ≡ n → K ≡ 4 * s → n % 4 ≡ 0
multiple_of_4 q K n s e f = omega (arith, ap (λ (t : ℕ). q * t) f)

module _ (p : Policy) (v : IsPolicy p) where
  aligned_pool : p.pool.network / span p.pool * span p.pool ≡ p.pool.network
  unfolding masked span
  aligned_pool = v.pool.aligned

  -- The pool ends inside the private network that it starts in.
  pool_end :
      (c M k : ℕ)
      → 2 ^ k ≡ M
      → 32 - p.pool.prefix ≤ k
      → p.pool.network < c * M
      → p.pool.network + span p.pool ≤ c * M
  unfolding span masked
  pool_end c M k e le lt =
      aligned_end p.pool.network (2 ^ (32 - p.pool.prefix)) (2 ^ (k - (32 - p.pool.prefix))) c M
        v.pool.aligned (pow_split (32 - p.pool.prefix) _ k (omega arith) ∙ e) lt

  -- Every address of the pool is private.
  pub pool_private :
      (a : ℕ) → p.pool.network ≤ a → a < p.pool.network + span p.pool → is_private a ≡ true
  unfolding is_private
  pool_private a lo hi = elim (in_private_network_lem p.pool v.private_pool) [
    | inl (e, f) ↦ ground (arith, pool_end 11 16777216 24 refl (omega arith) (omega arith))
    | inr (inl (e, f)) ↦ ground (arith, pool_end 2754 1048576 20 refl (omega arith) (omega arith))
    | inr (inr (e, f)) ↦ ground (arith, pool_end 49321 65536 16 refl (omega arith) (omega arith))
  ]

  span-slots : span p.pool ≡ 4 * slots p
  unfolding span slots
  span-slots =
      omega (arith, pow_split 2 (30 - p.pool.prefix) (32 - p.pool.prefix) (omega (arith, v)))

  pool_below_size : p.pool.network + span p.pool ≤ 4294967296
  pool_below_size = pool_end 1 4294967296 32 refl (omega arith) (omega (arith, v.pool.network_le))

  network_mod : p.pool.network % 4 ≡ 0
  network_mod = multiple_of_4 _ _ _ _ aligned_pool span-slots

  addresses_value :
      (slot g a : ℕ)
      → addresses p slot ≡ ok (g, a)
      → (slot < slots p)
        × (g ≡ p.pool.network + slot * 4 + 1)
        × (a ≡ p.pool.network + slot * 4 + 2)
        × (p.pool.network + slot * 4 + 3 < p.pool.network + span p.pool)
  unfolding addresses
  addresses_value slot g a h = ground (arith, span-slots, pool_below_size)

  -- A slot's gateway and guest address are addresses 1 and 2 of a block of four inside the pool;
  -- both are private, and no sum of `addresses` wraps around.
  pub addresses_sound :
      (slot g a : ℕ)
      → addresses p slot ≡ ok (g, a)
      → (g % 4 ≡ 1)
        × (a ≡ g + 1)
        × (p.pool.network ≤ g)
        × (a < p.pool.network + span p.pool)
        × (is_private g ≡ true)
        × (is_private a ≡ true)
  addresses_sound slot g a h =
      let (lt, eg, ea, end) = addresses_value slot g a h in
      (
        omega (arith, network_mod),
        omega arith,
        omega arith,
        omega arith,
        pool_private g (omega arith) (omega arith),
        pool_private a (omega arith) (omega arith),
      )

  -- Two slots that share a block of four addresses are one slot.
  pub addresses_disjoint :
      (i j g a g' a' : ℕ)
      → addresses p i ≡ ok (g, a)
      → addresses p j ≡ ok (g', a')
      → g / 4 ≡ g' / 4
      → i ≡ j
  addresses_disjoint i j g a g' a' h k e =
      omega (arith, addresses_value i g a h, addresses_value j g' a' k, network_mod)

  -- A slot below the number of slots is never refused.
  pub addresses_total :
      (slot : ℕ)
      → slot < slots p
      → addresses p slot ≡ ok (p.pool.network + slot * 4 + 1, p.pool.network + slot * 4 + 2)
  unfolding addresses
  addresses_total slot h = ground (arith, span-slots, pool_below_size)
