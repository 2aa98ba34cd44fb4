-- ===== src/Network/Provision.antt =====
-- What `provision` leaves behind when it succeeds: src/commands/activator/network.rs.
use sower.Prelude.{
  ◌≡◌, refl, true, List, [], ◌∷◌, Option, none, some, ok, Text, text_eq_refl, find, arith, inl, inr,
  Result-cases,
}
use sower.Network.Lease.{Lease, Owner, Phase}
use sower.Network.Os.{Env, FilePath, Record, World, Io, gets, modify, ◌>>=◌, ◌>>◌}
use sower.Network.Files.{file}
use sower.Network.Host.{install_guard, set_up}
use sower.Network.Logic.{Ensures, Ensures-bind, Keeps-then}
use sower.Network.Asking.{install_guard-Keeps, set_up-Keeps}
use sower.Network.Store.{Store, is_file, path_eq, put_record, save, reserve}
use sower.Network.Operations.{setup, provision_new, output, Output}

path_eq_refl : (p : FilePath) → path_eq p p ≡ true
path_eq_refl [] = refl
path_eq_refl (c ∷ p) = ground (arith, text_eq_refl c, path_eq_refl p)

abbrev content_of : Option Record → Option Lease
content_of none = none
content_of (some r) = some r.content

-- A record that was put is found.
put-found :
    (directory : FilePath) (stem : Text) (l : Lease) (rs : List Record)
    → content_of (find (is_file directory stem) (put_record directory stem l rs)) ≡ some l
unfolding put_record is_file
put-found directory stem l [] = ground (arith, path_eq_refl directory, text_eq_refl stem)
put-found directory stem l (r ∷ rs) = ground (arith, put-found directory stem l rs)

-- The lease under way is active, and the journal has it as it is.
pub record IsLive (s : Store) (w : World) : Type 0 where
  pub active : w.lease.phase ≡ Phase.active
  pub recorded : content_of (find (is_file s.directory w.lease.lease) w.journal) ≡ some w.lease

module _ (env : Env) (s : Store) where
  activate : Lease → Lease
  activate l = record l { phase = Phase.active }

  save-IsLive :
      (w : World) (l : Lease)
      → w.lease ≡ l
      → l.phase ≡ Phase.active
      → (save env s l w).0 ≡ ok tt
      → IsLive s (save env s l w).1
  unfolding save file ◌>>=◌
  save-IsLive w l e a h =
      let kept : (save env s l w).1.lease ≡ l = ground arith in
      let put : (save env s l w).1.journal ≡ put_record s.directory l.lease l w.journal =
        ground arith in
      record {
        active = rw kept a;
        recorded = rw (kept, put) (put-found s.directory l.lease l w.journal);
      }

  -- The steps of `setup` after the lease was marked active.
  shows :
      (l : Lease) (w : World)
      → IsLive s w
      → IsLive s ((install_guard env s.policy l >> set_up env l) w).1
  shows l w live =
      (Keeps-then _ _
          (install_guard-Keeps env {P = IsLive s}
            (λ op v q. record { active = q.active; recorded = q.recorded }) s.policy l)
          (set_up-Keeps env {P = IsLive s}
            (λ op v q. record { active = q.active; recorded = q.recorded }) l)).at
        w live

  saved_first :
      (l : Lease) (k : Io (Unit {0})) (w : World) {u : Unit {0}}
      → ((save env s l >> k) w).0 ≡ ok u
      → ((save env s l w).0 ≡ ok tt) × ((save env s l >> k) w ≡ k (save env s l w).1)
  unfolding ◌>>=◌
  saved_first l k w {u} h = elim (Result-cases (save env s l w).0) [
    | inl (v, e) ↦ (e, rw e refl)
    | inr (e, f) ↦ absurd (ground arith)
  ]

  last_steps : Ensures (IsLive s) (
      modify (λ w. record w { lease = activate w.lease })
      >> (gets (λ w. w.lease) >>= λ live.
          save env s live >> (install_guard env s.policy live >> set_up env live)))
  unfolding ◌>>=◌ activate
  last_steps = record {
    at = λ w u h.
        let l = activate w.lease in
        let w0 : World = record w { lease = l } in
        let (done, same) =
          saved_first l (install_guard env s.policy l >> set_up env l) w0 {u = u} h in
        rw same (shows l _ (save-IsLive w0 l refl refl done));
  }

  setup-IsLive : Ensures (IsLive s) (setup env s)
  unfolding setup activate
  setup-IsLive = search (Ensures-bind, last_steps) depth 30

  -- When a new execution is provisioned, its lease is active and recorded in the journal as it is, and the caller receives that lease's token, addresses and resolver.
  pub provision_new-IsLive :
      (owner : Owner) (execution : Text) (w : World) (out : Output)
      → (provision_new env s owner execution w).0 ≡ ok out
      → IsLive s (provision_new env s owner execution w).1
        × (out ≡ output s (provision_new env s owner execution w).1.lease)
  unfolding provision_new ◌>>=◌
  provision_new-IsLive owner execution w out h =
      let w1 = (reserve env s owner execution w).1 in
      elim (Result-cases (reserve env s owner execution w).0) [
        | inr (e, f) ↦ absurd (ground arith)
        | inl (l, f) ↦
            let w2 : World = record w1 { lease = l } in
            elim (Result-cases (setup env s w2).0) [
              | inr (e, g) ↦ absurd (ground arith)
              | inl (u, g) ↦
                  let same : ((provision_new env s owner execution w).1 ≡ (setup env s w2).1)
                      × (out ≡ output s (setup env s w2).1.lease) =
                    ground arith in
                  rw same.0 (setup-IsLive.at w2 u g, same.1)
            ]
      ]
