-- ===== src/Network/Host.antt =====
-- The actions of src/commands/activator/network_host.rs on the host's links, firewall tables and
-- connections. The programs `ip`, `nft`, `conntrack` and `udevadm` answer through `Env`.
use sower.Prelude.{
  is_some, Bool, true, false, not, ◌&&◌, List, [], ◌∷◌, ◌++◌, some, if◌then◌else◌, Text, bytes,
  concat, any, is_empty, decimal, is_space, all, or_fail,
}
use sower.Policy.{Policy}
use sower.Policy.Address.{display_ipv4}
use sower.Network.Lease.{Lease, valid_token, valid_mac}
use sower.Network.Script.{
  option_is, marker, inet_table, netdev_table, alias, guard_script, ingress_script, check_routes,
  owned_link,
}
use sower.Network.Os.{
  Env, Op, Link, Table, Io, pure, lift, gets, ask, check, set_lease, ◌>>=◌, ◌>>◌,
}

-- `.trim().is_empty()`.
abbrev pub is_blank : Text → Bool
is_blank s = all is_space s

module _ (env : Env) where
  unfoldable pub command : Text → List Text → Io Text
  command program args =
      ask (λ trace. env.command_output trace program args) (Op.command program args)

  unfoldable pub nft : Text → Io (Unit {0})
  nft script = ask (λ trace. env.nft_result trace script) (Op.nft script)

  abbrev is_table : Text → Text → Table → Bool
  is_table family name t = option_is t.family family && option_is t.name name

  -- Whether a table is listed; an existing table without the marker is refused.
  unfoldable pub table_exists : Text → Text → Io Bool
  table_exists family name = do
    listing ← command (bytes "nft") (bytes "--json" ∷ bytes "list" ∷ bytes "tables" ∷ [])
    tables ← lift (env.parse_tables listing)
    if any (is_table family name) tables
        then (do
          text ←
              command (bytes "nft")
                (bytes "--json" ∷ bytes "list" ∷ bytes "table" ∷ family ∷ name ∷ [])
          details ← lift (env.parse_tables text)
          check (any (λ t. is_table family name t && option_is t.comment marker) details) (
              concat
                (bytes "refusing to change unowned nft table " ∷ family ∷ bytes " " ∷ name ∷ []))
          pure true)
        else pure false

  -- The iterator of leases always holds exactly the lease under way.
  unfoldable pub install_guard : Policy → Lease → Io (Unit {0})
  install_guard policy lease = do
    check (valid_token lease.lease) (bytes "invalid execution lease token")
    exists ← table_exists (bytes "inet") (inet_table lease)
    nft (guard_script policy lease exists)

  unfoldable pub links : Io (List Link)
  links = do
    listing ← command (bytes "ip") (bytes "--json" ∷ bytes "link" ∷ bytes "show" ∷ [])
    lift (env.parse_links listing)

  unfoldable pub require_available_subnet : Lease → Io (Unit {0})
  require_available_subnet lease = do
    listing ← command (bytes "ip") (
        bytes "--json"
        ∷ bytes "-family"
        ∷ bytes "inet"
        ∷ bytes "route"
        ∷ bytes "show"
        ∷ bytes "table"
        ∷ bytes "all"
        ∷ [])
    routes ← lift (env.parse_routes listing)
    lift (check_routes lease.gateway routes)

  abbrev pub is_occupied : Lease → List Link → Bool
  is_occupied lease found = any (λ link. option_is link.ifname lease.tap) found

  -- The actions that work on the lease under way take it from the world.
  unfoldable pub create_tap : Io (Unit {0})
  create_tap = do
    lease ← gets (λ w. w.lease)
    before ← links
    check (not (is_occupied lease before)) (bytes "interface name is already occupied")
    command (bytes "ip") (
        bytes "tuntap"
        ∷ bytes "add"
        ∷ bytes "dev"
        ∷ lease.tap
        ∷ bytes "mode"
        ∷ bytes "tap"
        ∷ bytes "user"
        ∷ decimal lease.owner_uid
        ∷ bytes "vnet_hdr"
        ∷ [])
    command (bytes "ip")
        (bytes "link" ∷ bytes "set" ∷ bytes "dev" ∷ lease.tap ∷ bytes "alias" ∷ alias lease ∷ [])
    command (bytes "udevadm") (
        bytes "wait"
        ∷ bytes "--initialized=true"
        ∷ bytes "--timeout=3"
        ∷ (bytes "/sys/class/net/" ++ lease.tap)
        ∷ [])
    after ← links
    owned ← lift (owned_link lease after)
    link ← lift (or_fail owned (bytes "created TAP disappeared"))
    mac ← lift (or_fail link.address (bytes "TAP lacks Ethernet address"))
    check (valid_mac mac) (bytes "TAP has an invalid Ethernet address")
    set_lease (record lease { host_mac = some mac })
    command (bytes "ip") (
        bytes "address"
        ∷ bytes "add"
        ∷ (display_ipv4 lease.gateway ++ bytes "/30")
        ∷ bytes "dev"
        ∷ lease.tap
        ∷ [])
    pure tt

  unfoldable pub install_ingress : Lease → Io (Unit {0})
  install_ingress lease = do
    exists ← table_exists (bytes "netdev") (netdev_table lease)
    host_mac ← lift (or_fail lease.host_mac (bytes "missing TAP MAC"))
    nft (ingress_script lease host_mac exists)

  unfoldable pub set_up : Lease → Io (Unit {0})
  set_up lease = do
    found ← links
    owned ← lift (owned_link lease found)
    lift (or_fail owned (bytes "TAP disappeared"))
    command (bytes "ip") (bytes "link" ∷ bytes "set" ∷ bytes "dev" ∷ lease.tap ∷ bytes "up" ∷ [])
    pure tt

  unfoldable pub set_down : Lease → Io (Unit {0})
  set_down lease = do
    found ← links
    owned ← lift (owned_link lease found)
    if is_some owned
        then (do
          command (bytes "ip")
              (bytes "link" ∷ bytes "set" ∷ bytes "dev" ∷ lease.tap ∷ bytes "down" ∷ [])
          pure tt)
        else pure tt

  abbrev conntrack : Text → Text → Text → Io Text
  conntrack action selector address =
      command (bytes "conntrack")
        (action ∷ bytes "--family" ∷ bytes "ipv4" ∷ selector ∷ address ∷ [])

  unfoldable pub purge_selector : Text → Text → Io (Unit {0})
  purge_selector address selector = do
    before ← conntrack (bytes "--dump") selector address
    (if is_blank before
        then pure tt
        else (do conntrack (bytes "--delete") selector address; pure tt))
    after ← conntrack (bytes "--dump") selector address
    check (is_blank after) (bytes "stale conntrack entries for " ++ address)

  unfoldable pub purge_connections : Lease → Io (Unit {0})
  purge_connections lease = do
    let address = display_ipv4 lease.address
    purge_selector address (bytes "--orig-src")
    purge_selector address (bytes "--orig-dst")
    purge_selector address (bytes "--reply-src")
    purge_selector address (bytes "--reply-dst")

  abbrev deletion : Text → Text → Bool → Text
  deletion family table exists =
      if exists
      then concat (bytes "delete table " ∷ family ∷ bytes " " ∷ table ∷ bytes "\n" ∷ [])
      else []

  unfoldable pub remove_link : Lease → Io (Unit {0})
  remove_link lease = do
    set_down lease
    found ← links
    owned ← lift (owned_link lease found)
    if is_some owned
        then (do
          command (bytes "ip") (
              bytes "tuntap"
              ∷ bytes "del"
              ∷ bytes "dev"
              ∷ lease.tap
              ∷ bytes "mode"
              ∷ bytes "tap"
              ∷ [])
          left ← links
          still ← lift (owned_link lease left)
          check (not (is_some still)) (bytes "TAP remains attached; allocation quarantined"))
        else pure tt

  unfoldable pub remove_resources : Lease → Io (Unit {0})
  remove_resources lease = do
    remove_link lease
    purge_connections lease
    inet ← table_exists (bytes "inet") (inet_table lease)
    netdev ← table_exists (bytes "netdev") (netdev_table lease)
    let script =
        deletion (bytes "inet") (inet_table lease) inet
        ++ deletion (bytes "netdev") (netdev_table lease) netdev
    if is_empty script then pure tt else nft script
