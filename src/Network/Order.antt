-- ===== src/Network/Order.antt =====
-- `operate` keeps the order of the phases: a lease that is in use is revoked before it is released.
use sower.Prelude.{
  ◌≡◌, refl, Bool, true, false, Option, none, some, Result, ok, Text, find, arith, is_ok, inl, inr,
  Result-cases,
}
use sower.Network.Lease.{Lease, Owner, Phase, require_owner}
use sower.Network.Os.{Env, Record, World, ◌>>=◌}
use sower.Network.Logic.{PassivelyUnasked}
use sower.Network.Passive.{global_lock-Keeps, load-Keeps, execution_lock-Keeps}
use sower.Network.Ownership.{programs, load_value, load_present}
use sower.Network.Store.{Store, is_file, global_lock, execution_lock, load}
use sower.Network.Operations.{operate, operate_owned, operate_locked}

-- Neither the journal nor the list of programs that were run has changed.
abbrev pub IsKept : World → World → Type 0
IsKept before after =
    (after.journal ≡ before.journal) × (programs after.trace ≡ programs before.trace)

IsKept-passive : (before : World) → PassivelyUnasked (IsKept before)
unfolding programs
IsKept-passive before op w p k = ground arith

-- A phase in which a lease may not be released.
abbrev pub is_in_use : Phase → Bool
is_in_use Phase.allocated = true
is_in_use Phase.active = true
is_in_use _ = false

abbrev IsRejected : World → Result (Unit {0}) × World → Type 0
IsRejected w after = (is_ok after.0 ≡ false) × IsKept w after.1

module _ (env : Env) (store : Store) (owner : Owner) (token : Text) where
  locked_rejects :
      (l : Lease) (w v : World)
      → is_in_use l.phase ≡ true
      → IsKept w v
      → IsRejected w (operate_locked env store owner true (some l) v)
  unfolding operate_locked ◌>>=◌
  locked_rejects l w v p k = elim (Result-cases (require_owner l owner)) [
    | inr (e, f) ↦ rw f (refl, k)
    | inl (u, f) ↦ ground arith
  ]

  same_record :
      (w v : World) (r : Record) {l : Lease}
      → find (is_file store.directory token) w.journal ≡ some r
      → IsKept w v
      → (load env store token v).0 ≡ ok (some l)
      → l ≡ r.content
  same_record w v r {l} f k h = load_value env store token v r l (rw k.0 f) h

  -- The second load, under the execution lock, finds the same record.
  again_rejects :
      (w v : World) (r : Record) (next : Option Lease)
      → find (is_file store.directory token) w.journal ≡ some r
      → is_in_use r.content.phase ≡ true
      → IsKept w v
      → (load env store token v).0 ≡ ok next
      → IsRejected w (operate_locked env store owner true next (load env store token v).1)
  again_rejects w v r none f p k h = absurd (load_present env store token v r (rw k.0 f) h)
  again_rejects w v r (some l) f p k h =
      locked_rejects l w _ (rw (same_record w v r {l = l} f k h) p)
        ((load-Keeps env (IsKept-passive w) store token).at v k)

  owned_rejects :
      (l : Lease) (w v : World) (r : Record)
      → find (is_file store.directory token) w.journal ≡ some r
      → is_in_use r.content.phase ≡ true
      → IsKept w v
      → IsRejected w (operate_owned env store owner token true (some l) v)
  unfolding operate_owned ◌>>=◌
  owned_rejects l w v r f p k =
      let v1 = (execution_lock env store l.execution_id false v).1 in
      let k1 = (execution_lock-Keeps env (IsKept-passive w) store l.execution_id false).at v k in
      let v2 = (global_lock env v1).1 in
      let k2 = (global_lock-Keeps env (IsKept-passive w)).at v1 k1 in
      let k3 = (load-Keeps env (IsKept-passive w) store token).at v2 k2 in
      elim (Result-cases (require_owner l owner)) [
        | inr (e, g) ↦ rw g (refl, k)
        | inl (_, g) ↦ elim (Result-cases (execution_lock env store l.execution_id false v).0) [
          | inr (e, h) ↦ rw (g, h) (refl, k1)
          | inl (none, h) ↦ rw (g, h) (refl, k1)
          | inl (some _, h) ↦ elim (Result-cases (global_lock env v1).0) [
            | inr (e, i) ↦ rw (g, h, i) (refl, k2)
            | inl (_, i) ↦ elim (Result-cases (load env store token v2).0) [
              | inr (e, j) ↦ rw (g, h, i, j) (refl, k3)
              | inl (next, j) ↦ rw (g, h, i, j) (again_rejects w v2 r next f p k2 j)
            ]
          ]
        ]
      ]

  -- A lease that is allocated or active cannot be released before it was revoked: `operate` to release it fails, whoever asks, changes nothing of the journal and runs no program.
  pub operate_in_use :
      (w : World) (r : Record)
      → find (is_file store.directory token) w.journal ≡ some r
      → is_in_use r.content.phase ≡ true
      → (is_ok (operate env store owner token true w).0 ≡ false)
        × IsKept w (operate env store owner token true w).1
  unfolding operate ◌>>=◌
  operate_in_use w r f p =
      let w1 = (global_lock env w).1 in
      let k1 = (global_lock-Keeps env (IsKept-passive w)).at w (refl, refl) in
      let w2 = (load env store token w1).1 in
      let k2 = (load-Keeps env (IsKept-passive w) store token).at w1 k1 in
      elim (Result-cases (global_lock env w).0) [
        | inr (e, g) ↦ rw (g, operate) (refl, k1)
        | inl (_, g) ↦ elim (Result-cases (load env store token w1).0) [
          | inr (e, h) ↦ rw (g, h) (refl, k2)
          | inl (none, h) ↦ absurd (load_present env store token w1 r (rw k1.0 f) h)
          | inl (some l, h) ↦ rw (g, h) (owned_rejects l w w2 r f p k2)
        ]
      ]
