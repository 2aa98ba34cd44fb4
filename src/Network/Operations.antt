-- ===== src/Network/Operations.antt =====
-- The operations on allocations: `provision`, `revoke`, `release`, `operate` and `cleanup` of
-- src/commands/activator/network.rs.
use sower.Prelude.{
  is_some, Bool, true, false, not, ◌&&◌, ◌||◌, List, [], ◌∷◌, ◌++◌, Option, none, some,
  if◌then◌else◌, ◌==◌, Text, bytes, concat, text_eq, find, is_empty, or_fail, ok, err,
  display_chain,
}
use sower.Policy.{Policy, PolicyFile}
use sower.Policy
use sower.Network.Lease.{Lease, Phase, phase_eq, Owner, validate_execution, require_owner}
use sower.Network.Os.{
  Env, FileOp, FilePath, Io, pure, lift, gets, attempt, raise, modify, check, set_lease, ◌>>=◌,
  ◌>>◌,
}
use sower.Network.Files.{file}
use sower.Network.Peer.{process_starttime}
use sower.Network.Host.{
  install_guard, links, is_occupied, require_available_subnet, purge_connections, create_tap,
  install_ingress, set_up, set_down, remove_resources,
}
use sower.Network.Store.{
  Store, remove_record, remove_temporary, is_temporary, json_path, tmp_path, global_lock,
  execution_lock, records_in, load, save, reserve,
}

-- The JSON object that the caller of `provision` receives, before it is printed.
pub record Output : Type 0 where
  pub lease : Text
  pub tap : Text
  pub mac : Text
  pub address : Text
  pub gateway : Text
  pub dns : Text

abbrev set_phase : Phase → Io (Unit {0})
set_phase phase = modify (λ w. record w { lease = record w.lease { phase = phase } })

abbrev drop_record : FilePath → Text → Io (Unit {0})
drop_record directory stem =
    modify (λ w. record w { journal = remove_record directory stem w.journal })

abbrev drop_temporary : FilePath → Text → Io (Unit {0})
drop_temporary directory stem =
    modify (λ w. record w { temporaries = remove_temporary directory stem w.temporaries })

unfoldable pub output : Store → Lease → Output
output self lease = record {
  lease = lease.lease;
  tap = lease.tap;
  mac = lease.mac;
  address = Policy.Address.display_ipv4 lease.address ++ bytes "/30";
  gateway = Policy.Address.display_ipv4 lease.gateway;
  dns = Policy.Address.display_ipv4 self.policy.dns;
}

module _ (env : Env) where
  -- The three steps are all taken, whichever of them fails; the first failure is returned.
  unfoldable pub revoke : Store → Io (Unit {0})
  revoke self = do
    before ← gets (λ w. w.lease)
    if phase_eq before.phase Phase.reserved then pure tt else (do
      set_phase Phase.revoked
      lease ← gets (λ w. w.lease)
      saved ← attempt (save env self lease)
      down ← attempt (set_down env lease)
      guard ← attempt (install_guard env self.policy lease)
      lift saved
      lift down
      lift guard)

  -- Removes the journal files of the lease under way.
  unfoldable pub forget : Store → Lease → Io (Unit {0})
  forget self lease = do
    file env FileOp.remove_file (json_path self.directory lease.lease)
    drop_record self.directory lease.lease
    left ← gets (λ w. is_some (find (is_temporary self.directory lease.lease) w.temporaries))
    (if left
        then (do
          file env FileOp.remove_temporary (tmp_path self.directory lease.lease)
          drop_temporary self.directory lease.lease)
        else pure tt)
    file env FileOp.sync_directory self.directory

  -- A lease whose resources cannot be removed is quarantined: its record keeps the slot occupied.
  unfoldable pub release_resources : Store → Lease → Io (Unit {0})
  release_resources self lease = do
    removed ← attempt (remove_resources env lease)
    elim removed [
      | ok _ ↦ pure tt
      | err e ↦ do
        set_phase Phase.quarantined
        quarantined ← gets (λ w. w.lease)
        save env self quarantined
        raise e
    ]

  unfoldable pub release : Store → Io (Unit {0})
  release self = do
    lease ← gets (λ w. w.lease)
    check (phase_eq lease.phase Phase.reserved || phase_eq lease.phase Phase.revoked)
        (bytes "lease must be revoked before release")
    (if phase_eq lease.phase Phase.reserved then pure tt else release_resources self lease)
    global_lock env
    forget self lease

  -- `revoke(..).and_then(|()| release(..))`.
  unfoldable pub revoke_and_release : Store → Io (Unit {0})
  revoke_and_release self = do revoke self; release self

  -- The closure `setup` of `provision`, over the lease under way.
  unfoldable pub setup : Store → Io (Unit {0})
  setup self = do
    reserved ← gets (λ w. w.lease)
    require_available_subnet env reserved
    found ← links env
    check (not (is_occupied env reserved found)) (bytes "interface name is already occupied")
    set_phase Phase.allocated
    allocated ← gets (λ w. w.lease)
    save env self allocated
    install_guard env self.policy allocated
    purge_connections env allocated
    create_tap env
    tapped ← gets (λ w. w.lease)
    save env self tapped
    install_ingress env tapped
    set_phase Phase.active
    live ← gets (λ w. w.lease)
    save env self live
    install_guard env self.policy live
    set_up env live

  unfoldable pub provision_new : Store → Owner → Text → Io Output
  provision_new self owner execution = do
    lease ← reserve env self owner execution
    set_lease lease
    done ← attempt (setup self)
    elim done [
      | ok _ ↦ gets (λ w. output self w.lease)
      | err e ↦ do
        attempt (revoke_and_release self)
        raise (bytes "network provisioning failed" ∷ e)
    ]

  unfoldable pub provision : Store → Owner → Text → Io Output
  provision self owner execution = do
    lift (validate_execution execution)
    lock ← execution_lock env self execution false
    lift (or_fail lock (bytes "execution lock unavailable"))
    global_lock env
    leases ← records_in env self.directory
    elim (find (λ lease. text_eq lease.execution_id execution) leases) [
      | none ↦ provision_new self owner execution
      | some lease ↦ do
        lift (require_owner lease owner)
        check (phase_eq lease.phase Phase.active)
            (bytes "execution has an incomplete allocation; cleanup required")
        pure (output self lease)
    ]

  -- The second half of `operate`, after the lease was loaded again under its execution lock.
  unfoldable pub operate_locked : Store → Owner → Bool → Option Lease → Io (Unit {0})
  operate_locked self owner is_release none = pure tt
  operate_locked self owner is_release (some lease) = do
    lift (require_owner lease owner)
    set_lease lease
    if is_release
        then (do
          check
              (phase_eq lease.phase Phase.reserved
                || (phase_eq lease.phase Phase.revoked || phase_eq lease.phase Phase.quarantined))
              (bytes "lease must be revoked before release")
          revoke self
          release self)
        else revoke self

  unfoldable pub operate_owned : Store → Owner → Text → Bool → Option Lease → Io (Unit {0})
  operate_owned self owner token is_release none = pure tt
  operate_owned self owner token is_release (some lease) = do
    lift (require_owner lease owner)
    lock ← execution_lock env self lease.execution_id false
    lift (or_fail lock (bytes "execution lock unavailable"))
    global_lock env
    again ← load env self token
    operate_locked self owner is_release again

  unfoldable pub operate : Store → Owner → Text → Bool → Io (Unit {0})
  operate self owner token is_release = do
    global_lock env
    lease ← load env self token
    operate_owned self owner token is_release lease

  -- The owner of an active lease that still runs keeps it, unless root asks.
  unfoldable pub owner_alive : Lease → Io Bool
  owner_alive lease = do
    start ← attempt (process_starttime env lease.owner_pid)
    pure (elim start [ ok s ↦ s == lease.owner_starttime | err e ↦ false ])

  unfoldable pub must_stay : Bool → Lease → Io Bool
  must_stay root_hook lease =
      if not root_hook && phase_eq lease.phase Phase.active then owner_alive lease else pure false

  abbrev failure : Lease → Text → Text
  failure lease message = concat (lease.lease ∷ bytes ": " ∷ message ∷ [])

  -- The rest of the loop body of `cleanup`, for a lease that was loaded under its lock; the result
  -- is what is added to `failures`.
  unfoldable pub clean_loaded : Store → Bool → Option Lease → Io (List Text)
  clean_loaded self root_hook none = pure []
  clean_loaded self root_hook (some lease) = do
    stay ← must_stay root_hook lease
    if stay then pure [] else (do
      set_lease lease
      done ← attempt (revoke_and_release self)
      elim done [ ok _ ↦ pure [] | err e ↦ pure (failure lease (display_chain e) ∷ []) ])

  unfoldable pub clean_one : Store → Bool → Lease → Io (List Text)
  clean_one self root_hook lease = do
    lock ← execution_lock env self lease.execution_id true
    elim lock [
      | none ↦ pure (if root_hook then failure lease (bytes "operation is active") ∷ [] else [])
      | some _ ↦ do
        global_lock env
        loaded ← load env self lease.lease
        clean_loaded self root_hook loaded
    ]

  unfoldable pub clean_all : Store → Bool → List Lease → Io (List Text)
  clean_all self root_hook [] = pure []
  clean_all self root_hook (lease ∷ leases) = do
    failures ← clean_one self root_hook lease
    more ← clean_all self root_hook leases
    pure (failures ++ more)

  abbrev join_failures : List Text → Text
  join_failures [] = []
  join_failures (f ∷ []) = f
  join_failures (f ∷ g ∷ fs) = f ++ (bytes "; " ++ join_failures (g ∷ fs))

  unfoldable pub cleanup : Store → Bool → Io (Unit {0})
  cleanup self root_hook = do
    global_lock env
    leases ← records_in env self.directory
    failures ← clean_all self root_hook leases
    check (is_empty failures) (bytes "network cleanup incomplete: " ++ join_failures failures)
