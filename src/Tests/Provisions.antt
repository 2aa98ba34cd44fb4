-- ===== src/Tests/Provisions.antt =====
-- Identification, routes and a whole provisioning at concrete inputs.
use sower.Prelude.{
  none, ◌≡◌, ◌<◌, ◌≤◌, ◌+◌, ◌||◌, ◌⊎◌, refl, Bool, true, false, List, [], ◌∷◌, some, Text, bytes,
  ok, any, text_eq, if◌then◌else◌, split, split_once, rsplit_once, words, parse_uint, lines,
  strip_prefix, is_empty, hex2,
}
use sower.Policy.Subnet.{Subnet, contains, from_str}
use sower.Policy.{addresses}
use sower.Network.Lease.{tap_name, valid_token, valid_mac}
use sower.Network.Os.{Env, Op, ProcFile, ◌>>=◌}
use sower.Network.Peer.{
  authenticate, process_starttime, read_proc, parse_starttime, parse_uid, find_uid_line,
  cgroup_instance, scan_cgroup, line_unit, slice_unit,
}
use sower.Network.Script.{
  option_is, check_routes, check_route, route_subnet, route_is_free, owned_link, alias, marker,
}
use sower.Network.Files.{
  secure_path, secure_all, inspect, file, create_private_directory, lock_file, components,
  display_path, ancestors, is_protected, is_private_directory, is_private_file,
}
use sower.Network.Host.{
  require_available_subnet, links, install_guard, table_exists, nft, command, purge_connections,
  purge_selector, create_tap, install_ingress, set_up,
}
use sower.Network.Store.{
  reserve, global_lock, all_records, records_of_units, records_in, read_records, in_directory,
  allocate, first_free, new_lease, save, all_distinct, token_text, mac_text, put_record,
}
use sower.Network.Operations.{output, provision_new, setup}
use sower.Protocol.{Request}
use sower.Network.Isolation.{dispatch_isolated}
use sower.Network.Os.{FilePath}
use sower.Network.Store.{path_eq}
use sower.Network.Requests.{dispatch}
use sower.Network.Identity.{IsAuthentic, authenticate_lem}
use sower.Network.Routes.{check_routes_lem}
use sower.Network.Provision.{IsLive, provision_new-IsLive}
use sower.Tests.Fixtures.{env, store, owner, policy, lease, empty_world}

abbrev lan : Subnet
lan = record { network = 0x0a000000; prefix = 24 }

checked : check_routes 0x0afe0001 (some (bytes "default") ∷ some (bytes "10.0.0.0/24") ∷ []) ≡ ok tt
unfolding check_routes check_route route_subnet route_is_free from_str contains text_eq bytes
checked = refl

listed :
    any
      (λ r. option_is r (bytes "10.0.0.0/24"))
      (some (bytes "default") ∷ some (bytes "10.0.0.0/24") ∷ [])
    ≡ true
unfolding text_eq bytes
listed = refl

named : text_eq (bytes "10.0.0.0/24") (bytes "default") ≡ false
unfolding text_eq bytes
named = refl

spelled : route_subnet (bytes "10.0.0.0/24") ≡ ok lan
unfolding route_subnet from_str bytes
spelled = refl

in_lan : contains lan 0x0a000005 ≡ true
unfolding contains
in_lan = refl

check_routes_lem_example : (0x0a000005 < 0x0afe0000) ⊎ (0x0afe0000 + 4 ≤ 0x0a000005)
check_routes_lem_example =
    check_routes_lem 0x0afe0001 (some (bytes "default") ∷ some (bytes "10.0.0.0/24") ∷ [])
      (bytes "10.0.0.0/24") lan 0x0a000005 checked listed named spelled refl in_lan

-- What /proc says of process 7.
abbrev proc_of : ProcFile → Text
proc_of ProcFile.stat = bytes "7 (garden) S 1 1 1 1 1 1 1 1 1 1 1 1 1 1 1 1 1 1 42 1"
proc_of ProcFile.status = bytes "Uid:\t990\t990\n"
proc_of ProcFile.cgroup = bytes "0::/system.slice/sower-garden.service\n"

abbrev proc_env : Env
proc_env = record env { proc_text = λ trace pid f. ok (proc_of f) }

known : (authenticate proc_env policy owner.peer empty_world).0 ≡ ok owner
unfolding authenticate process_starttime read_proc parse_starttime parse_uid find_uid_line
    cgroup_instance scan_cgroup line_unit slice_unit ◌>>=◌ rsplit_once words parse_uint lines split
    split_once strip_prefix text_eq bytes
known = refl

authenticate_lem_example : IsAuthentic proc_env policy owner.peer owner
authenticate_lem_example = authenticate_lem proc_env policy owner.peer empty_world owner known

-- A host that has the TAP of the first slot once it was added.
abbrev has_tap : List Op → Bool
has_tap [] = false
has_tap (Op.command program (arg ∷ args) ∷ trace) = text_eq arg (bytes "tuntap") || has_tap trace
has_tap (_ ∷ trace) = has_tap trace

abbrev tap_env : Env
tap_env = record env {
  command_output = λ trace program args.
      ok (if text_eq program (bytes "ip") then (if has_tap trace then bytes "tap" else []) else []);
  parse_links = λ text. ok (
      if is_empty text
      then []
      else record {
        ifname = some lease.tap;
        ifalias = some (alias lease);
        address = some (bytes "02:aa:aa:aa:aa:aa");
      }
        ∷ []);
}

provisioned :
    (provision_new tap_env store owner (bytes "job") empty_world).0 ≡ ok (output store lease)
unfolding provision_new setup output reserve global_lock create_private_directory secure_path
    secure_all inspect file lock_file components display_path ancestors is_protected
    is_private_directory is_private_file process_starttime read_proc parse_starttime all_records
    records_of_units records_in read_records in_directory all_distinct allocate first_free new_lease
    save token_text mac_text addresses ◌>>=◌ bytes rsplit_once words parse_uint text_eq hex2
    put_record tap_name split require_available_subnet links install_guard table_exists nft command
    purge_connections purge_selector create_tap install_ingress set_up owned_link alias marker
    valid_token valid_mac check_routes
provisioned = refl

provision_new-IsLive_example :
    IsLive store (provision_new tap_env store owner (bytes "job") empty_world).1
    × (output store lease
        ≡ output store (provision_new tap_env store owner (bytes "job") empty_world).1.lease)
provision_new-IsLive_example =
    provision_new-IsLive tap_env store owner (bytes "job") empty_world (output store lease)
      provisioned

abbrev elsewhere : FilePath
elsewhere = bytes "run" ∷ bytes "sower-network" ∷ bytes "other.service" ∷ []

is_elsewhere : path_eq store.directory elsewhere ≡ false
unfolding text_eq bytes
is_elsewhere = refl

abbrev provision_request : Request
provision_request = record {
  id = bytes "1";
  kind = bytes "network";
  path = [];
  mode = [];
  reason = [];
  seeds = [];
  network_action = some (bytes "provision");
  execution_id = some (bytes "job");
  lease = none;
}

dispatch_isolated_example :
    in_directory elsewhere
      (dispatch tap_env store owner provision_request (bytes "provision") empty_world).1.journal
    ≡ in_directory elsewhere []
dispatch_isolated_example =
    dispatch_isolated tap_env store owner provision_request (bytes "provision") elsewhere
      empty_world is_elsewhere
