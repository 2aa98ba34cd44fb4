-- ===== src/Network/Disjoint.antt =====
-- The point-to-point subnets of the leases that `reserve` of src/commands/activator/network.rs gives.
use sower.Prelude.{◌≡◌, ℕ, ◌/◌, false, List, [], ◌∷◌, ◌++◌, ok, Text, any, arith, ◌==◌, subst}
use sower.Policy.{addresses}
use sower.Policy.Validated.{IsPolicy}
use sower.Policy.Slots.{addresses_disjoint}
use sower.Network.Lease.{Lease, Owner}
use sower.Network.Os.{Env, World}
use sower.Network.Store.{Store, slot_list, reserve}
use sower.Network.Reserve.{leases_of, reserve-IsFresh}

-- A slot that no lease occupies is not that of a lease among them.
other_slot :
    (before after : List Lease) (l : Lease) (n : ℕ)
    → any (λ y. y == n) (slot_list (before ++ (l ∷ after))) ≡ false
    → (l.slot == n) ≡ false
other_slot [] after l n h = ground arith
other_slot (b ∷ before) after l n h = other_slot before after l n (ground arith)

-- In a validated policy, the lease that a successful `reserve` returns lies in no block of four addresses in which a lease lies that the journal held before for a configured unit, provided that this lease has the addresses of its slot.
pub reserve_disjoint :
    (env : Env) (s : Store) (owner : Owner) (execution : Text) (w : World) (l other : Lease)
    (before after : List Lease)
    → IsPolicy s.policy
    → (reserve env s owner execution w).0 ≡ ok l
    → leases_of s w ≡ before ++ (other ∷ after)
    → addresses s.policy other.slot ≡ ok (other.gateway, other.address)
    → ¬ (l.gateway / 4 ≡ other.gateway / 4)
reserve_disjoint env s owner execution w l other before after v h among own same =
    let fresh = (reserve-IsFresh env s owner execution w l h).0 in
    let slots : l.slot ≡ other.slot =
      addresses_disjoint s.policy v l.slot other.slot l.gateway l.address other.gateway
        other.address fresh.addressed own same in
    let apart : (other.slot == l.slot) ≡ false =
      other_slot before after other l.slot
        (subst (λ ls. any (λ y. y == l.slot) (slot_list ls) ≡ false) among fresh.free) in
    absurd (ground arith)
