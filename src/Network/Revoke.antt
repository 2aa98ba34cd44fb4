-- ===== src/Network/Revoke.antt =====
-- What `revoke` does to a lease that is not merely reserved, and the firewall of a revoked lease.
use sower.Prelude.{
  ℕ, ◌≡◌, refl, Bool, true, false, List, ◌∷◌, ok, err, Error, arith, is_ok, ◌⊎◌, inl, inr, ◌∙◌, ap,
}
use sower.Policy.{Policy}
use sower.Network.Lease.{Lease, Phase, phase_eq}
use sower.Network.Os.{Env, Op, Record, World, ◌>>=◌}
use sower.Network.Logic.{Ensures, Ensures-bind, Ensures-then}
use sower.Network.Asking.{set_down-Keeps, install_guard-Keeps, remove_resources-Keeps}
use sower.Network.Script.{guard_script, inet_table}
use sower.Network.Host.{install_guard, nft, set_down, remove_resources}
use sower.Network.Store.{Store, put_record, save}
use sower.Network.Files.{file}
use sower.Network.Operations.{revoke, release, release_resources}

abbrev pub in_phase : Phase → Lease → Lease
in_phase phase l = record l { phase = phase }

-- The firewall table of a lease that is not active does not depend on the resolver, on the guest's address or on its gateway.
pub guard_closed :
    (p : Policy) (l : Lease) (dns address gateway : ℕ) (exists : Bool)
    → phase_eq l.phase Phase.active ≡ false
    → guard_script p l exists
      ≡ guard_script
          (record p { dns = dns })
          (record l { address = address; gateway = gateway })
          exists
unfolding guard_script inet_table
guard_closed p l dns address gateway exists h = rw h refl

module _ (env : Env) (s : Store) where
  -- A save that fails leaves the record that was there, or has already replaced it.
  save_journal :
      (l : Lease) (w : World)
      → ((save env s l w).1.journal ≡ w.journal)
        ⊎ ((save env s l w).1.journal ≡ put_record s.directory l.lease l w.journal)
  unfolding save file ◌>>=◌
  save_journal l w = ground arith

  save_stays :
      (q l : Lease) (w : World) (journal : List Record)
      → q ≡ l
      → w.journal ≡ journal
      → ((save env s q w).1.journal ≡ journal)
        ⊎ ((save env s q w).1.journal ≡ put_record s.directory l.lease l journal)
  save_stays q l w journal e f = elim (save_journal q w) [
    | inl a ↦ inl (a ∙ f)
    | inr a ↦ inr (a ∙ cc)
  ]

  -- The world's latest question was the firewall script of the lease.
  abbrev pub Guarded : Policy → Lease → World → Type 0
  Guarded p l w =
      (exists : Bool) × (rest : List Op) × (w.trace ≡ Op.nft (guard_script p l exists) ∷ rest)

  nft_asked :
      (p : Policy) (l : Lease) (exists : Bool)
      → Ensures (Guarded p l) (nft env (guard_script p l exists))
  unfolding nft ◌>>=◌
  nft_asked p l exists = record { at = λ w a h. (exists, w.trace, refl) }

  install_guard_last : (p : Policy) (l : Lease) → Ensures (Guarded p l) (install_guard env p l)
  unfolding install_guard
  install_guard_last p l = Ensures-then _ _ (Ensures-bind _ _ (nft_asked p l))

  -- The lease under way is recorded in the journal.
  abbrev Recorded : Lease → List Record → World → Type 0
  Recorded l journal v = (v.lease ≡ l) × (v.journal ≡ put_record s.directory l.lease l journal)

  recorded :
      (l : Lease) (w : World)
      → w.lease ≡ l
      → (save env s l w).0 ≡ ok tt
      → Recorded l w.journal (save env s l w).1
  unfolding save file ◌>>=◌
  recorded l w e h = ground arith

  -- A `revoke` that succeeds on a lease that is not merely reserved has recorded it as revoked, and the last program that it ran installed the firewall of the revoked lease.
  pub revoke_closes :
      (w : World)
      → phase_eq w.lease.phase Phase.reserved ≡ false
      → (revoke env s w).0 ≡ ok tt
      → ((revoke env s w).1.lease ≡ in_phase Phase.revoked w.lease)
        × ((revoke env s w).1.journal
            ≡ put_record s.directory w.lease.lease (in_phase Phase.revoked w.lease) w.journal)
        × Guarded s.policy (in_phase Phase.revoked w.lease) (revoke env s w).1
  unfolding revoke ◌>>=◌
  revoke_closes w p h =
      let l = in_phase Phase.revoked w.lease in
      let w0 : World = record w { lease = l } in
      let w1 = (save env s l w0).1 in
      let w2 = (set_down env l w1).1 in
      let w3 = (install_guard env s.policy l w2).1 in
      let same : ((save env s l w0).0 ≡ ok tt)
          × ((install_guard env s.policy l w2).0 ≡ ok tt)
          × ((revoke env s w).1 ≡ w3) =
        ground arith in
      let k =
        (set_down-Keeps env {P = Recorded l w.journal} (λ op v q. q) l).at w1
          (recorded l w0 refl same.0) in
      let k' =
        (install_guard-Keeps env {P = Recorded l w.journal} (λ op v q. q) s.policy l).at w2 k in
      rw same.2 (k'.0, k'.1, (install_guard_last s.policy l).at w2 tt same.1)

  -- When the host's resources cannot be removed, `release` of a revoked lease fails, and its record stays: as it was, or marked as quarantined. The slot stays occupied.
  pub release_quarantines :
      (w : World) (e : Error)
      → phase_eq w.lease.phase Phase.revoked ≡ true
      → (remove_resources env w.lease w).0 ≡ err e
      → (is_ok (release env s w).0 ≡ false)
        × (((release env s w).1.journal ≡ w.journal)
            ⊎ ((release env s w).1.journal
                ≡ put_record s.directory w.lease.lease
                    (in_phase Phase.quarantined w.lease)
                    w.journal))
  unfolding release release_resources ◌>>=◌
  release_quarantines w e p h =
      let w1 = (remove_resources env w.lease w).1 in
      let k =
        (remove_resources-Keeps env {P = λ v. (v.lease ≡ w.lease) × (v.journal ≡ w.journal)}
            (λ op v q. q) w.lease).at
          w (refl, refl) in
      let q = in_phase Phase.quarantined w1.lease in
      let same : (release env s w).1 ≡ (save env s q (record w1 { lease = q })).1 = ground arith in
      (
        ground arith,
        rw same (
            save_stays q _ (record w1 { lease = q }) w.journal (ap (in_phase Phase.quarantined) k.0)
              k.1),
      )
