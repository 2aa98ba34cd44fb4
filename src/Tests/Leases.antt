-- ===== src/Tests/Leases.antt =====
-- The network operations at concrete inputs.
use sower.Prelude.{
  ◌/◌, none, Bool, contains_text, ◌++◌, ◌||◌, not, starts_with, rsplit_once, words, parse_uint,
  text_eq, hex2, split, strip_prefix, strip_suffix, ends_with, hex4, is_alphanumeric, ◌≡◌, refl,
  true, false, [], ◌∷◌, some, pos, bytes, ok, err, is_ok, any, find, ◌⊎◌,
}
use sower.Network.Lease.{
  validate, validate_execution, valid_mac, tap_prefix, is_lower_hex, Lease, tap_name, Phase, Owner,
  valid_token, is_owner,
}
use sower.Network.Os.{Env, World, ◌>>=◌}
use sower.Network.Files.{
  is_trusted_file, open_secure, secure_path, secure_all, inspect, file, create_private_directory,
  lock_file, components, display_path, ancestors, is_protected, is_private_directory,
  is_private_file,
}
use sower.Network.Store.{
  is_file, put_record, reserve, global_lock, all_records, records_of_units, records_in, read_record,
  read_records, in_directory, allocate, first_free, new_lease, save, all_distinct, token_text,
  mac_text,
}
use sower.Network.Peer.{process_starttime, read_proc, parse_starttime}
use sower.Network.Operations.{operate, revoke, release, release_resources, forget}
use sower.Network.Host.{
  remove_resources, remove_link, set_down, links, command, nft, install_guard, table_exists,
  purge_connections, purge_selector,
}
use sower.Network.Script.{owned_link, guard_script}
use sower.Network.Ownership.{Unchanged, operate_foreign}
use sower.Network.Disjoint.{reserve_disjoint}
use sower.Tests.Policies.{policy-IsPolicy}
use sower.Network.Reserve.{IsFresh, reserve-IsFresh, leases_of}
use sower.Network.Order.{IsKept, operate_in_use}
use sower.Policy.{valid_unit, is_unit_byte}
use sower.Policy.Address.{is_private}
use sower.Tests.Fixtures.{garden}
use sower.Network.Release.{release_gone}
use sower.Network.Revoke.{revoke_closes, release_quarantines, guard_closed, in_phase, Guarded}
use sower.Policy.{addresses}
use sower.Tests.Fixtures.{env, store, owner, token, lease, lease_record, world, empty_world, policy}

-- A process of another user.
abbrev stranger : Owner
stranger = record {
  instance_name = owner.instance_name;
  peer = record { pid = pos 8; uid = 1000; gid = 1000 };
  starttime = 50;
}

found : find (is_file store.directory token) world.journal ≡ some lease_record
unfolding is_file text_eq bytes
found = refl

foreign : is_owner lease_record.content stranger ≡ false
unfolding is_owner bytes
foreign = refl

operate_foreign_example :
    (is_ok (operate env store stranger token true world).0 ≡ false)
    × Unchanged world (operate env store stranger token true world).1
operate_foreign_example =
    operate_foreign env store token stranger true world lease_record found foreign

abbrev reserved_lease : Lease
reserved_lease = in_phase Phase.reserved lease

done : (reserve env store owner (bytes "job") empty_world).0 ≡ ok reserved_lease
unfolding reserve global_lock create_private_directory secure_path secure_all inspect file lock_file
    components display_path ancestors is_protected is_private_directory is_private_file
    process_starttime read_proc parse_starttime all_records records_of_units records_in read_records
    in_directory all_distinct allocate first_free new_lease save token_text mac_text addresses ◌>>=◌
    bytes rsplit_once words parse_uint text_eq hex2 put_record tap_name split
done = refl

reserve-IsFresh_example :
    IsFresh store owner (bytes "job") (leases_of store empty_world) reserved_lease
    × ((reserve env store owner (bytes "job") empty_world).1.journal
        ≡ put_record store.directory token reserved_lease [])
reserve-IsFresh_example =
    reserve-IsFresh env store owner (bytes "job") empty_world reserved_lease done

-- On this host there is no link and no table, and so a revocation has nothing to take down.
revoked_ok : (revoke env store world).0 ≡ ok tt
unfolding revoke save set_down links command install_guard table_exists nft owned_link valid_token
    file ◌>>=◌ bytes text_eq
revoked_ok = refl

revoke_closes_example :
    ((revoke env store world).1.lease ≡ in_phase Phase.revoked lease)
    × ((revoke env store world).1.journal
        ≡ put_record store.directory token (in_phase Phase.revoked lease) world.journal)
    × Guarded env store policy (in_phase Phase.revoked lease) (revoke env store world).1
revoke_closes_example = revoke_closes env store world refl revoked_ok

abbrev revoked_world : World
revoked_world = record world { lease = in_phase Phase.revoked lease }

released_ok : (release env store revoked_world).0 ≡ ok tt
unfolding release release_resources remove_resources remove_link set_down links command table_exists
    nft owned_link purge_connections purge_selector global_lock create_private_directory secure_path
    secure_all inspect file lock_file forget display_path ancestors is_protected
    is_private_directory is_private_file ◌>>=◌ bytes text_eq
released_ok = refl

release_gone_example :
    any (is_file store.directory token) (release env store revoked_world).1.journal ≡ false
release_gone_example = release_gone env store revoked_world released_ok

-- A host whose programs fail.
abbrev broken_env : Env
broken_env = record env { command_output = λ trace program args. err (bytes "failed" ∷ []) }

not_removed :
    (remove_resources broken_env revoked_world.lease revoked_world).0 ≡ err (bytes "failed" ∷ [])
unfolding remove_resources remove_link set_down links command ◌>>=◌
not_removed = refl

release_quarantines_example :
    (is_ok (release broken_env store revoked_world).0 ≡ false)
    × (((release broken_env store revoked_world).1.journal ≡ world.journal)
        ⊎ ((release broken_env store revoked_world).1.journal
            ≡ put_record store.directory token (in_phase Phase.quarantined lease) world.journal))
release_quarantines_example =
    release_quarantines broken_env store revoked_world (bytes "failed" ∷ []) refl not_removed

guard_closed_example :
    guard_script policy reserved_lease true
    ≡ guard_script
        (record policy { dns = 1 })
        (record reserved_lease { address = 2; gateway = 3 })
        true
guard_closed_example = guard_closed policy reserved_lease 1 2 3 true refl

operate_in_use_example :
    (is_ok (operate env store owner token true world).0 ≡ false)
    × IsKept world (operate env store owner token true world).1
operate_in_use_example = operate_in_use env store owner token world lease_record found refl

garden_valid : valid_unit garden ≡ true
unfolding valid_unit bytes
garden_valid = refl

token_valid : valid_token token ≡ true
unfolding valid_token bytes
token_valid = refl

-- The journal holds the lease of the first slot; the next lease is on the second one.
abbrev later_env : Env
later_env = record env {
  metadata = λ trace path.
      let is_file : Bool =
        contains_text path (bytes "namespace.lock")
        || contains_text path (token ++ bytes ".json") in
      ok (record {
        is_symlink = false;
        is_dir = not is_file;
        is_file = is_file;
        uid = 0;
        mode = 448;
      });
  random_bytes =
      λ trace. ok (9 ∷ 1 ∷ 2 ∷ 3 ∷ 4 ∷ 5 ∷ 6 ∷ 7 ∷ 8 ∷ 9 ∷ 10 ∷ 11 ∷ 12 ∷ 13 ∷ 14 ∷ 15 ∷ []);
}

abbrev next_lease : Lease
next_lease = record {
  lease = bytes "090102030405060708090a0b0c0d0e0f";
  slot = 1;
  tap = bytes "swnt0001";
  mac = bytes "02:09:01:02:03:04";
  host_mac = none;
  address = 0x0afe0006;
  gateway = 0x0afe0005;
  instance_name = garden;
  owner_uid = 990;
  owner_pid = pos 7;
  owner_starttime = 42;
  execution_id = bytes "other";
  phase = Phase.reserved;
}

taken : (reserve later_env store owner (bytes "other") world).0 ≡ ok next_lease
unfolding reserve global_lock create_private_directory secure_path secure_all inspect file lock_file
    components display_path ancestors is_protected is_private_directory is_private_file
    process_starttime read_proc parse_starttime all_records records_of_units records_in read_records
    in_directory all_distinct allocate first_free new_lease save token_text mac_text addresses ◌>>=◌
    bytes rsplit_once words parse_uint text_eq hex2 put_record tap_name split read_record validate
    valid_token valid_mac valid_unit validate_execution starts_with is_lower_hex tap_prefix
    strip_prefix strip_suffix ends_with hex4 is_private open_secure is_trusted_file is_unit_byte
    is_alphanumeric
taken = refl

held : leases_of store world ≡ lease ∷ []
unfolding in_directory components bytes text_eq split
held = refl

lease_addresses : addresses policy 0 ≡ ok (0x0afe0001, 0x0afe0002)
unfolding addresses
lease_addresses = refl

reserve_disjoint_example : ¬ (next_lease.gateway / 4 ≡ lease.gateway / 4)
reserve_disjoint_example =
    reserve_disjoint later_env store owner (bytes "other") world next_lease lease [] []
      policy-IsPolicy taken held lease_addresses
