-- ===== src/Tests/Fixtures.antt =====
-- A policy, a host on which everything succeeds, and a lease.
use sower.Prelude.{true, false, [], ◌∷◌, ◌++◌, none, some, pos, Text, bytes, ok, contains_text, not}
use sower.Policy.{Policy, PolicyFile}
use sower.Policy.Validated.{special_subnets}
use sower.Network.Lease.{Lease, Phase, Owner}
use sower.Network.Os.{Env, Record, World}
use sower.Network.Store.{Store}

abbrev pub garden : Text
garden = bytes "sower-garden.service"

abbrev pub policy_file : PolicyFile
policy_file = record {
  address_pool = bytes "10.254.0.0/16";
  dns_resolver = 0x01010101;
  protected_destinations = bytes "9.9.9.0/24" ∷ [];
  state_directory = bytes "/run/sower-network";
  garden_units = garden ∷ [];
}

abbrev pub policy : Policy
policy = record {
  pool = record { network = 0x0afe0000; prefix = 16 };
  dns = 0x01010101;
  protected = special_subnets ++ (record { network = 0x09090900; prefix = 24 } ∷ []);
  state_directory = bytes "/run/sower-network";
  garden_units = garden ∷ [];
}

abbrev pub store : Store
store = record {
  policy = policy;
  instance_name = garden;
  directory = bytes "run" ∷ bytes "sower-network" ∷ garden ∷ [];
}

abbrev pub owner : Owner
owner = record {
  instance_name = garden;
  peer = record { pid = pos 7; uid = 990; gid = 990 };
  starttime = 42;
}

abbrev pub token : Text
token = bytes "000102030405060708090a0b0c0d0e0f"

abbrev pub lease : Lease
lease = record {
  lease = token;
  slot = 0;
  tap = bytes "swnt0000";
  mac = bytes "02:00:01:02:03:04";
  host_mac = none;
  address = 0x0afe0002;
  gateway = 0x0afe0001;
  instance_name = garden;
  owner_uid = 990;
  owner_pid = pos 7;
  owner_starttime = 42;
  execution_id = bytes "job";
  phase = Phase.active;
}

abbrev pub lease_record : Record
lease_record = record { directory = store.directory; stem = token; content = lease }

abbrev pub empty_world : World
empty_world = record { journal = []; temporaries = []; trace = []; lease = lease }

abbrev pub world : World
world = record { journal = lease_record ∷ []; temporaries = []; trace = []; lease = lease }

-- Process 7 started at tick 42; directories are private, and the lock is free.
abbrev pub env : Env
env = record {
  command_output = λ trace program args. ok [];
  nft_result = λ trace script. ok tt;
  proc_text = λ trace pid f. ok (bytes "7 (garden) S 1 1 1 1 1 1 1 1 1 1 1 1 1 1 1 1 1 1 42 1");
  metadata = λ trace path. ok (record {
    is_symlink = false;
    is_dir = not (contains_text path (bytes "namespace.lock"));
    is_file = contains_text path (bytes "namespace.lock");
    uid = 0;
    mode = 448;
  });
  exists = λ trace path. true;
  file_result = λ trace op path. ok tt;
  lock_result = λ trace path nonblocking. ok (some tt);
  random_bytes =
      λ trace. ok (0 ∷ 1 ∷ 2 ∷ 3 ∷ 4 ∷ 5 ∷ 6 ∷ 7 ∷ 8 ∷ 9 ∷ 10 ∷ 11 ∷ 12 ∷ 13 ∷ 14 ∷ 15 ∷ []);
  parse_links = λ text. ok [];
  parse_tables = λ text. ok [];
  parse_routes = λ text. ok [];
  sha256 = λ text. [];
}
