-- ===== src/Network/Script.antt =====
-- The pure part of src/commands/activator/network_host.rs: the firewall scripts as texts, and the
-- checks of routes and links.
use sower.Prelude.{
  ℕ, ◌+◌, ◌-◌, ◌%◌, Bool, false, not, ◌&&◌, ◌||◌, List, [], ◌∷◌, ◌++◌, Option, none, some, ltb, leb,
  ◌==◌, if◌then◌else◌, Result, ok, err, bail, ensure, or_fail, Text, bytes, text_eq, has_byte,
  concat, find,
}
use sower.Policy.{Policy}
use sower.Policy.Address.{parse_ipv4, display_ipv4}
use sower.Policy.Subnet.{Subnet, from_str, contains, canonical}
use sower.Network.Lease.{Lease, Phase, phase_eq}
use sower.Network.Os.{Link}

abbrev pub option_is : Option Text → Text → Bool
option_is none t = false
option_is (some s) t = text_eq s t

unfoldable pub marker : Text
unfolding bytes
marker = bytes "sower-network"

unfoldable pub inet_table : Lease → Text
inet_table lease = bytes "sower_network_" ++ lease.lease

unfoldable pub netdev_table : Lease → Text
netdev_table lease = bytes "sower_netdev_" ++ lease.lease

unfoldable pub alias : Lease → Text
alias lease = marker ++ (b':' ∷ lease.lease)

-- The elements of the set of blocked networks, with a comma between two.
unfoldable pub blocked : List Subnet → Text
blocked [] = []
blocked (s ∷ []) = canonical s
blocked (s ∷ t ∷ subnets) = canonical s ++ (bytes ", " ++ blocked (t ∷ subnets))

abbrev pub quoted : Text → Text
quoted t = b'"' ∷ (t ++ (b'"' ∷ []))

-- The rules of chain `original` that let a lease's traffic pass.
unfoldable pub original_accepts : Policy → Lease → Text
original_accepts policy lease =
    let tap = quoted lease.tap in
    let address = display_ipv4 lease.address in
    let dns = display_ipv4 policy.dns in
    concat (
      bytes " iifname "
      ∷ tap
      ∷ bytes " ip saddr "
      ∷ address
      ∷ bytes " ip daddr "
      ∷ dns
      ∷ bytes " udp dport 53 accept;\n"
      ∷ bytes "iifname "
      ∷ tap
      ∷ bytes " ip saddr "
      ∷ address
      ∷ bytes " ip daddr "
      ∷ dns
      ∷ bytes " tcp dport 53 accept;\n"
      ∷ bytes "iifname "
      ∷ tap
      ∷ bytes " ip saddr "
      ∷ address
      ∷ bytes " tcp dport { 80, 443 } accept;\n"
      ∷ [])

-- Those of chain `forward`.
unfoldable pub forward_accepts : Policy → Lease → Text
forward_accepts policy lease =
    let tap = quoted lease.tap in
    let address = display_ipv4 lease.address in
    let dns = display_ipv4 policy.dns in
    concat (
      bytes " iifname "
      ∷ tap
      ∷ bytes " ip saddr "
      ∷ address
      ∷ bytes " ip daddr "
      ∷ dns
      ∷ bytes " udp dport 53 ct state { new, established } accept;\n"
      ∷ bytes "iifname "
      ∷ tap
      ∷ bytes " ip saddr "
      ∷ address
      ∷ bytes " ip daddr "
      ∷ dns
      ∷ bytes " tcp dport 53 ct state { new, established } accept;\n"
      ∷ bytes "iifname "
      ∷ tap
      ∷ bytes " ip saddr "
      ∷ address
      ∷ bytes " tcp dport { 80, 443 } ct state { new, established } accept;\n"
      ∷ bytes "oifname "
      ∷ tap
      ∷ bytes " ip daddr "
      ∷ address
      ∷ bytes " ct state established ct status snat accept;\n"
      ∷ [])

unfoldable pub masquerade : Lease → Text
masquerade lease = concat (
    bytes " iifname "
    ∷ quoted lease.tap
    ∷ bytes " ip saddr "
    ∷ display_ipv4 lease.address
    ∷ bytes " masquerade;\n"
    ∷ [])

abbrev pub when : Bool → Text → Text
when test text = if test then text else []

-- The nftables transaction that replaces the table of one lease.
unfoldable pub guard_script : Policy → Lease → Bool → Text
guard_script policy lease exists =
    let table = inet_table lease in
    let is_active = phase_eq lease.phase Phase.active in
    concat (
      when exists (concat (bytes "delete table inet " ∷ table ∷ bytes "\n" ∷ []))
      ∷ bytes "table inet "
      ∷ table
      ∷ bytes " {\n comment \""
      ∷ marker
      ∷ bytes "\";\n"
      ∷ bytes "set taps { type ifname; elements = { "
      ∷ quoted lease.tap
      ∷ bytes " }; }\n"
      ∷ bytes " set blocked { type ipv4_addr; flags interval; auto-merge; elements = { "
      ∷ blocked policy.protected
      ∷ bytes " }; }\n"
      ∷ bytes " chain original { type filter hook prerouting priority -310; policy accept;\n"
      ∷ bytes "iifname @taps meta nfproto ipv6 drop;\n"
      ∷ bytes "iifname @taps fib daddr type local drop;\n"
      ∷ bytes "iifname @taps ip daddr @blocked drop;\n"
      ∷ when is_active (original_accepts policy lease)
      ∷ bytes " iifname @taps drop;\n }\n"
      ∷ bytes " chain input { type filter hook input priority -50; policy accept; "
      ∷ bytes "iifname @taps drop; }\n"
      ∷ bytes "chain output { type filter hook output priority -50; policy accept; "
      ∷ bytes "oifname @taps drop; }\n"
      ∷ bytes "chain forward { type filter hook forward priority -50; policy accept;\n"
      ∷ bytes "iifname @taps oifname @taps drop;\n"
      ∷ bytes "iifname @taps meta nfproto ipv6 drop;\n"
      ∷ bytes "oifname @taps meta nfproto ipv6 drop;\n"
      ∷ bytes "iifname @taps fib daddr type local drop;\n"
      ∷ bytes "iifname @taps ip daddr @blocked drop;\n"
      ∷ bytes "oifname @taps ip saddr @blocked drop;\n"
      ∷ when is_active (forward_accepts policy lease)
      ∷ bytes " iifname @taps drop; oifname @taps drop;\n }\n"
      ∷ bytes " chain nat { type nat hook postrouting priority srcnat; policy accept;\n"
      ∷ when is_active (masquerade lease)
      ∷ bytes " }\n}\n"
      ∷ [])

-- The ingress filter of a lease's TAP: only frames from the guest's own address pass.
unfoldable pub ingress_script : Lease → Text → Bool → Text
ingress_script lease host_mac exists =
    let table = netdev_table lease in
    let address = display_ipv4 lease.address in
    let gateway = display_ipv4 lease.gateway in
    concat (
      when exists (concat (bytes "delete table netdev " ∷ table ∷ bytes "\n" ∷ []))
      ∷ bytes "table netdev "
      ∷ table
      ∷ bytes " {\n comment \""
      ∷ marker
      ∷ bytes "\";\n"
      ∷ bytes "chain ingress { type filter hook ingress device "
      ∷ quoted lease.tap
      ∷ bytes " priority -500; policy drop;\n"
      ∷ bytes "ether saddr "
      ∷ lease.mac
      ∷ bytes " ether daddr "
      ∷ host_mac
      ∷ bytes " ether type ip ip saddr "
      ∷ address
      ∷ bytes " accept;\n"
      ∷ bytes "ether saddr "
      ∷ lease.mac
      ∷ bytes " ether daddr { ff:ff:ff:ff:ff:ff, "
      ∷ host_mac
      ∷ bytes " } ether type arp arp operation request arp saddr ether "
      ∷ lease.mac
      ∷ bytes " arp saddr ip "
      ∷ address
      ∷ bytes " arp daddr ether 00:00:00:00:00:00 arp daddr ip "
      ∷ gateway
      ∷ bytes " accept;\n"
      ∷ bytes "ether saddr "
      ∷ lease.mac
      ∷ bytes " ether daddr "
      ∷ host_mac
      ∷ bytes " ether type arp arp operation reply arp saddr ether "
      ∷ lease.mac
      ∷ bytes " arp saddr ip "
      ∷ address
      ∷ bytes " arp daddr ether "
      ∷ host_mac
      ∷ bytes " arp daddr ip "
      ∷ gateway
      ∷ bytes " accept;\n"
      ∷ bytes "}\n}\n"
      ∷ [])

-- `check_routes`: whether a route stands in the way of the four addresses around a gateway.
unfoldable pub route_subnet : Text → Result Subnet
route_subnet destination =
    if has_byte b'/' destination
    then from_str destination
    else elim (or_fail (parse_ipv4 destination) (bytes "invalid IPv4 address syntax")) [
      | ok address ↦ ok (record { network = address; prefix = 32 })
      | err e ↦ err e
    ]

unfoldable pub route_is_free : ℕ → Subnet → Bool
route_is_free network subnet =
    subnet.prefix == 0
    || (not (contains subnet network)
        && not (leb network subnet.network && ltb subnet.network (network + 4)))

unfoldable pub check_route : ℕ → Text → Result (Unit {0})
check_route network destination =
    if text_eq destination (bytes "default") then ok tt else elim (route_subnet destination) [
      | ok subnet ↦ ensure (route_is_free network subnet) (
          concat (
            bytes "execution subnet "
            ∷ display_ipv4 network
            ∷ bytes "/30 overlaps existing host route "
            ∷ destination
            ∷ []))
      | err e ↦ err e
    ]

unfoldable pub check_routes : ℕ → List (Option Text) → Result (Unit {0})
check_routes gateway [] = ok tt
check_routes gateway (none ∷ routes) = bail (bytes "route lacks destination")
check_routes gateway (some destination ∷ routes) =
    let rest = check_routes gateway routes in
    elim (check_route (gateway - gateway % 4) destination) [ ok _ ↦ rest | err e ↦ err e ]

unfoldable pub owned_link : Lease → List Link → Result (Option Link)
owned_link lease links = elim (find (λ link. option_is link.ifname lease.tap) links) [
  | none ↦ ok none
  | some link ↦
      if option_is link.ifalias (alias lease)
      then ok (some link)
      else bail (bytes "refusing to change unowned interface " ++ lease.tap)
]
