-- ===== src/Network/Ownership.antt =====
-- Who may operate on a lease.
use sower.Prelude.{
  ◌≡◌, refl, Bool, false, List, [], ◌∷◌, none, some, ok, Text, find, arith, ◌≢◌, is_ok, inl, inr,
  Result-cases, if◌then◌else◌,
}
use sower.Network.Lease.{Lease, Owner, is_owner, require_owner}
use sower.Network.Os.{Env, Op, Record, World, ◌>>=◌}
use sower.Network.Logic.{is_passive, PassivelyUnasked}
use sower.Network.Passive.{global_lock-Keeps, load-Keeps}
use sower.Network.Store.{Store, is_file, global_lock, read_record, load, load_found}
use sower.Network.Operations.{operate, operate_owned}

-- The programs that were run, the latest first.
unfoldable pub programs : List Op → List Op
programs [] = []
programs (op ∷ trace) = if is_passive op then programs trace else op ∷ programs trace

-- Nothing but passive questions lies between two worlds.
pub record Unchanged (before : World) (after : World) : Type 0 where
  pub journal : after.journal ≡ before.journal
  pub temporaries : after.temporaries ≡ before.temporaries
  pub lease : after.lease ≡ before.lease
  pub programs_run : programs after.trace ≡ programs before.trace

Unchanged-passive : (before : World) → PassivelyUnasked (Unchanged before)
unfolding programs
Unchanged-passive before op w p u = record {
  journal = u.journal;
  temporaries = u.temporaries;
  lease = u.lease;
  programs_run = ground arith;
}

Unchanged-refl : (w : World) → Unchanged w w
Unchanged-refl w = record { journal = refl; temporaries = refl; lease = refl; programs_run = refl }

module _ (env : Env) (store : Store) (token : Text) where
  -- What `load` returns is the content of the record at the token's path.
  pub load_value :
      (w : World) (r : Record) (lease : Lease)
      → find (is_file store.directory token) w.journal ≡ some r
      → (load env store token w).0 ≡ ok (some lease)
      → lease ≡ r.content
  unfolding load load_found read_record ◌>>=◌
  load_value w r lease f h = ground arith

  -- When there is no record at the token's path, `load` returns nothing or fails.
  pub load_missing :
      (w : World) (lease : Lease)
      → find (is_file store.directory token) w.journal ≡ none
      → (load env store token w).0 ≢ ok (some lease)
  unfolding load load_found read_record ◌>>=◌
  load_missing w lease f h = ground arith

  pub load_present :
      (w : World) (r : Record)
      → find (is_file store.directory token) w.journal ≡ some r
      → (load env store token w).0 ≢ ok none
  unfolding load load_found read_record ◌>>=◌
  load_present w r f h = ground arith

  -- The two reads before the first check of the owner change nothing.
  locked : (w : World) → Unchanged w (global_lock env w).1
  locked w = (global_lock-Keeps env (Unchanged-passive w)).at w (Unchanged-refl w)

  loaded : (w : World) → Unchanged w (load env store token (global_lock env w).1).1
  loaded w = (load-Keeps env (Unchanged-passive w) store token).at _ (locked w)

  refused :
      (owner : Owner) (is_release : Bool) (w w1 : World) (lease : Lease)
      → is_owner lease owner ≡ false
      → Unchanged w w1
      → (is_ok (operate_owned env store owner token is_release (some lease) w1).0 ≡ false)
        × Unchanged w (operate_owned env store owner token is_release (some lease) w1).1
  unfolding operate_owned ◌>>=◌ require_owner
  refused owner is_release w w1 lease f u = rw f (refl, u)

  -- A lease of another owner: `operate` fails, and neither changes the journal or its temporary
  -- files nor runs a program.
  pub operate_foreign :
      (owner : Owner) (is_release : Bool) (w : World) (r : Record)
      → find (is_file store.directory token) w.journal ≡ some r
      → is_owner r.content owner ≡ false
      → (is_ok (operate env store owner token is_release w).0 ≡ false)
        × Unchanged w (operate env store owner token is_release w).1
  unfolding operate ◌>>=◌
  operate_foreign owner is_release w r f foreign =
      let w1 = (global_lock env w).1 in
      let w2 = (load env store token w1).1 in
      let f1 : find (is_file store.directory token) w1.journal ≡ some r =
        rw ((locked w).journal) f in
      elim (Result-cases (global_lock env w).0) [
        | inr (e, g) ↦ rw (g, operate) (refl, locked w)
        | inl (u, g) ↦ elim (Result-cases (load env store token w1).0) [
          | inr (e, h) ↦ rw (g, h) (refl, loaded w)
          | inl (none, h) ↦ absurd (load_present w1 r f1 h)
          | inl (some lease, h) ↦
              rw (g, h)
                (refused owner is_release w w2 lease (rw (load_value w1 r lease f1 h) foreign)
                  (loaded w))
        ]
      ]
