-- ===== src/Network/Isolation.antt =====
-- No operation of one instance touches the journal of another.
mod Journal
use sower.Network.Isolation.Journal.{in_directory-put, in_directory-remove}
use sower.Prelude.{
  ◌≡◌, refl, sym, ap, ◌∙◌, Bool, true, false, List, [], ◌∷◌, Option, none, some, Result, ok, err,
  Text, text_eq, find, text_eq_iff, arith, Bool-cases, inl, inr,
}
use sower.Policy.{Policy}
use sower.Protocol.{Request}
use sower.Network.Lease.{Lease, Owner}
use sower.Network.Os.{Env, Op, FilePath, Record, World, Io, modify, ask, ◌>>=◌, ◌>>◌}
use sower.Network.Logic.{
  Keeps, Unasked, PassivelyUnasked, Keeps-ask, Keeps-modify, Keeps-bind, Keeps-then, Keeps-if,
  Keeps-result, Keeps-option, Keeps-gets, Keeps-check, keeps_rules,
}
use sower.Network.Passive.{
  file-Keeps, global_lock-Keeps, execution_lock-Keeps, records_in-Keeps, all_records-Keeps,
  load-Keeps, process_starttime-Keeps,
}
use sower.Network.Asking.{
  install_guard-Keeps, set_down-Keeps, set_up-Keeps, remove_resources-Keeps, command-Keeps,
  nft-Keeps, links-Keeps, table_exists-Keeps, purge_connections-Keeps,
}
use sower.Network.Host.{create_tap, install_ingress, require_available_subnet}
use sower.Network.Store.{
  Store, path_eq, is_file, put_record, remove_record, in_directory, save, allocate, reserve,
}
use sower.Network.Operations.{
  revoke, forget, release_resources, release, revoke_and_release, setup, provision_new, provision,
  operate_locked, operate_owned, operate, owner_alive, must_stay, clean_loaded, clean_one,
  clean_all, cleanup,
}
use sower.Network.Requests.{dispatch, request_provision, request_operate, request_cleanup}

module _ (env : Env) (s : Store) (other : FilePath) (apart : path_eq s.directory other ≡ false)
    (records : List Record) where
  abbrev P : World → Type 0
  P w = in_directory other w.journal ≡ records

  unasked : Unasked P
  unasked op w h = h

  passive : PassivelyUnasked P
  passive op w e h = h

  ruleset base = (
    keeps_rules, passive, unasked, file-Keeps, global_lock-Keeps, execution_lock-Keeps,
    records_in-Keeps, all_records-Keeps, load-Keeps, process_starttime-Keeps, install_guard-Keeps,
    set_down-Keeps, set_up-Keeps, remove_resources-Keeps, command-Keeps, nft-Keeps, links-Keeps,
    table_exists-Keeps, purge_connections-Keeps,
  )

  lease-Keeps : (f : World → Lease) → Keeps P (modify (λ w. record w { lease = f w }))
  lease-Keeps f = Keeps-modify _ (λ w h. h)

  temporaries-Keeps :
      (f : World → List (FilePath × Text)) → Keeps P (modify (λ w. record w { temporaries = f w }))
  temporaries-Keeps f = Keeps-modify _ (λ w h. h)

  put-Keeps :
      (stem : Text) (l : Lease) (f : World → List (FilePath × Text))
      → Keeps P (
          modify (λ w. record w {
            journal = put_record s.directory stem l w.journal;
            temporaries = f w;
          }))
  put-Keeps stem l f =
      Keeps-modify _ (λ w h. in_directory-put s.directory other stem l w.journal apart ∙ h)

  remove-Keeps :
      (stem : Text)
      → Keeps P (modify (λ w. record w { journal = remove_record s.directory stem w.journal }))
  remove-Keeps stem =
      Keeps-modify _ (λ w h. in_directory-remove s.directory other stem w.journal apart ∙ h)

  ruleset changes = (base, lease-Keeps, temporaries-Keeps, put-Keeps, remove-Keeps)

  save-Keeps : (l : Lease) → Keeps P (save env s l)
  unfolding save
  save-Keeps l = search changes depth 25

  forget-Keeps : (l : Lease) → Keeps P (forget env s l)
  unfolding forget
  forget-Keeps l = search changes depth 25

  ruleset writes = (changes, save-Keeps, forget-Keeps)

  revoke-Keeps : Keeps P (revoke env s)
  unfolding revoke
  revoke-Keeps = search writes depth 25

  release_resources-Keeps : (l : Lease) → Keeps P (release_resources env s l)
  unfolding release_resources
  release_resources-Keeps l =
      Keeps-bind _ _ (search writes)
        (λ removed. Keeps-result removed _ _ (λ u. search writes) (λ e. search writes depth 20))

  release-Keeps : Keeps P (release env s)
  unfolding release
  release-Keeps = search (writes, release_resources-Keeps) depth 25

  ruleset steps = (writes, revoke-Keeps, release-Keeps)

  revoke_and_release-Keeps : Keeps P (revoke_and_release env s)
  unfolding revoke_and_release
  revoke_and_release-Keeps = search steps

  create_tap-Keeps : Keeps P (create_tap env)
  unfolding create_tap
  create_tap-Keeps =
      Keeps-bind _ _ (search (keeps_rules, unasked, command-Keeps, links-Keeps)) (λ lease.
        Keeps-bind _ _ (search (keeps_rules, unasked, command-Keeps, links-Keeps)) (λ before.
          Keeps-then _ _ (search (keeps_rules, unasked, command-Keeps, links-Keeps)) (
            Keeps-then _ _ (search (keeps_rules, unasked, command-Keeps, links-Keeps)) (
              Keeps-then _ _ (search (keeps_rules, unasked, command-Keeps, links-Keeps)) (
                Keeps-then _ _ (search (keeps_rules, unasked, command-Keeps, links-Keeps)) (
                  Keeps-bind _ _ (search (keeps_rules, unasked, command-Keeps, links-Keeps))
                    (λ after.
                      Keeps-bind _ _ (search (keeps_rules, unasked, command-Keeps, links-Keeps))
                        (λ owned.
                          Keeps-bind _ _ (search (keeps_rules, unasked, command-Keeps, links-Keeps))
                            (λ link.
                              Keeps-bind _ _
                                (search (keeps_rules, unasked, command-Keeps, links-Keeps))
                                (λ mac.
                                  Keeps-then _ _
                                    (search (keeps_rules, unasked, command-Keeps, links-Keeps))
                                    (Keeps-then _ _ (Keeps-modify _ (λ w h. h)) (
                                      Keeps-then _ _
                                        (search (keeps_rules, unasked, command-Keeps, links-Keeps))
                                        (search (
                                          keeps_rules, unasked, command-Keeps, links-Keeps,
                                        ))))))))))))))

  install_ingress-Keeps : (l : Lease) → Keeps P (install_ingress env l)
  unfolding install_ingress
  install_ingress-Keeps l = search steps depth 20

  require_available-Keeps : (l : Lease) → Keeps P (require_available_subnet env l)
  unfolding require_available_subnet
  require_available-Keeps l = search steps depth 20

  setup-Keeps : Keeps P (setup env s)
  unfolding setup
  setup-Keeps = Keeps-bind _ _ (Keeps-gets _) (λ reserved.
      Keeps-then _ _ (require_available-Keeps reserved) (
        Keeps-bind _ _ (links-Keeps env unasked) (λ found. Keeps-then _ _ (Keeps-check _ _) (
          Keeps-then _ _ (Keeps-modify _ (λ w h. h)) (
            Keeps-bind _ _ (Keeps-gets _) (λ allocated. Keeps-then _ _ (save-Keeps _) (
              Keeps-then _ _ (install_guard-Keeps env unasked _ _) (
                Keeps-then _ _ (purge_connections-Keeps env unasked _) (
                  Keeps-then _ _ (create_tap-Keeps) (
                    Keeps-bind _ _ (Keeps-gets _) (λ tapped. Keeps-then _ _ (save-Keeps _) (
                      Keeps-then _ _ (install_ingress-Keeps _) (
                        Keeps-then _ _ (Keeps-modify _ (λ w h. h)) (
                          Keeps-bind _ _ (Keeps-gets _) (λ live. Keeps-then _ _ (save-Keeps _) (
                            Keeps-then _ _ (install_guard-Keeps env unasked _ _)
                              (set_up-Keeps env unasked _)))))))))))))))))

  random-Keeps : Keeps P (ask env.random_bytes Op.random)
  random-Keeps = Keeps-ask _ _ (λ w h. h)

  allocate-Keeps :
      (owner : Owner) (execution : Text) (ls : List Lease)
      → Keeps P (allocate env s owner execution ls)
  unfolding allocate
  allocate-Keeps owner execution ls = search (steps, random-Keeps) depth 30

  reserve-Keeps : (owner : Owner) (execution : Text) → Keeps P (reserve env s owner execution)
  unfolding reserve
  reserve-Keeps owner execution = search (steps, allocate-Keeps) depth 30

  provision_new-Keeps :
      (owner : Owner) (execution : Text) → Keeps P (provision_new env s owner execution)
  unfolding provision_new
  provision_new-Keeps owner execution = Keeps-bind _ _ (reserve-Keeps owner execution) (λ l.
      Keeps-then _ _ (search steps) (
        Keeps-bind _ _ (search (steps, setup-Keeps)) (λ done.
          Keeps-result done _ _ (λ u. search steps)
            (λ e. search (steps, revoke_and_release-Keeps) depth 15))))

  locked-Keeps :
      (owner : Owner) (b : Bool) (found : Option Lease)
      → Keeps P (operate_locked env s owner b found)
  unfolding operate_locked
  locked-Keeps owner b none = search steps
  locked-Keeps owner b (some l) = search steps depth 25

  owned-Keeps :
      (owner : Owner) (token : Text) (b : Bool) (found : Option Lease)
      → Keeps P (operate_owned env s owner token b found)
  unfolding operate_owned
  owned-Keeps owner token b none = search steps
  owned-Keeps owner token b (some l) = search (steps, locked-Keeps) depth 25

  operate-Keeps : (owner : Owner) (token : Text) (b : Bool) → Keeps P (operate env s owner token b)
  unfolding operate
  operate-Keeps owner token b = search (steps, owned-Keeps) depth 25

  must_stay-Keeps : (root_hook : Bool) (l : Lease) → Keeps P (must_stay env root_hook l)
  unfolding must_stay owner_alive
  must_stay-Keeps root_hook l = search steps depth 25

  clean_loaded-Keeps : (b : Bool) (found : Option Lease) → Keeps P (clean_loaded env s b found)
  unfolding clean_loaded
  clean_loaded-Keeps b none = search steps
  clean_loaded-Keeps b (some l) = Keeps-bind _ _ (must_stay-Keeps b l) (λ stay.
      Keeps-if stay _ _ (search steps) (
        Keeps-then _ _ (search steps) (
          Keeps-bind _ _ (search (steps, revoke_and_release-Keeps))
            (λ done. Keeps-result done _ _ (λ u. search steps) (λ e. search steps)))))

  clean_one-Keeps : (b : Bool) (l : Lease) → Keeps P (clean_one env s b l)
  unfolding clean_one
  clean_one-Keeps b l = Keeps-bind _ _ (search steps) (λ lock.
      Keeps-option lock _ _ (search steps) (λ u. search (steps, clean_loaded-Keeps) depth 15))

  clean_all-Keeps : (b : Bool) (ls : List Lease) → Keeps P (clean_all env s b ls)
  unfolding clean_all
  clean_all-Keeps b [] = search steps
  clean_all-Keeps b (l ∷ ls) =
      let ih = clean_all-Keeps b ls in
      Keeps-bind _ _ (clean_one-Keeps b l) (λ failures. Keeps-bind _ _ ih (λ more. search steps))

  cleanup-Keeps : (b : Bool) → Keeps P (cleanup env s b)
  unfolding cleanup
  cleanup-Keeps b = search (steps, clean_all-Keeps) depth 20

  provision-Keeps : (owner : Owner) (execution : Text) → Keeps P (provision env s owner execution)
  unfolding provision
  provision-Keeps owner execution = Keeps-then _ _ (search steps) (
      Keeps-bind _ _ (search steps) (λ lock. Keeps-then _ _ (search steps) (
        Keeps-then _ _ (search steps) (
          Keeps-bind _ _ (search steps) (λ ls.
            Keeps-option (find (λ l. text_eq l.execution_id execution) ls) _ _
              (provision_new-Keeps owner execution) (λ l. search steps depth 12))))))

  dispatch-Keeps :
      (owner : Owner) (request : Request) (action : Text)
      → Keeps P (dispatch env s owner request action)
  unfolding dispatch request_provision request_operate request_cleanup
  dispatch-Keeps owner request action =
      search (steps, provision-Keeps, operate-Keeps, cleanup-Keeps) depth 25

-- Isolation: whatever one instance asks for, and however it fails, the records in every other directory of the journal stay what they were.
pub dispatch_isolated :
    (env : Env) (s : Store) (owner : Owner) (request : Request) (action : Text) (other : FilePath)
    (w : World)
    → path_eq s.directory other ≡ false
    → in_directory other (dispatch env s owner request action w).1.journal
      ≡ in_directory other w.journal
dispatch_isolated env s owner request action other w apart =
    (dispatch-Keeps env s other apart (in_directory other w.journal) owner request action).at w refl
