-- ===== src/Ovn/State/Nats.antt =====
-- Steps 5 and 5b of `refreshState` in ovn.go: the addresses to announce; `effectiveNetworkFilters` of
-- config.go and `parseNatAddressIPs`.
use text.Mathlib.Text.{starts_with}
use ovn_route_agent.Base.{
  String, Bool, true, false, not, ◌&&◌, ◌||◌, Option, none, some, List, [], ◌∷◌, ◌++◌, ◌==◌,
  if◌then◌else◌, is_empty, lookup, insert, is_some, or_empty, fields,
}
use ovn_route_agent.Net.{Ip, IpNet, parse_ip, contained_in_any}
use ovn_route_agent.Ovn.Rows.{SbPortBinding, NbNat}

unfoldable pub effective_network_filters : (manual discovered : List IpNet) → List IpNet
effective_network_filters manual discovered = if is_empty manual then discovered else manual

abbrev pub parsed_in : Option Ip → List IpNet → Bool
parsed_in none nets = false
parsed_in (some a) nets = contained_in_any a nets

-- The test of an address against the filters, which stands twice in `refreshState`.
unfoldable pub in_filters : List IpNet → String → Bool
in_filters filters ip = is_empty filters || parsed_in (parse_ip ip) filters

-- Step 5: the NAT addresses, and the MAC for each.
pub record NatAcc : Type 0 where
  pub fips : List String
  pub snat_ips : List String
  pub macs : List (String × String)

abbrev pub append_if : Bool → List String → String → List String
append_if b xs x = if b then xs ++ (x ∷ []) else xs

abbrev pub add_nat : NbNat → (mac : String) → NatAcc → NatAcc
add_nat nat mac acc = record {
  fips = append_if (nat.type == "dnat_and_snat") acc.fips nat.external_ip;
  snat_ips = append_if (nat.type == "snat") acc.snat_ips nat.external_ip;
  macs = insert nat.external_ip mac acc.macs;
}

abbrev pub join_nat : List IpNet → NbNat → Option String → NatAcc → NatAcc
join_nat filters nat none acc = acc
join_nat filters nat (some mac) acc =
    if in_filters filters nat.external_ip then add_nat nat mac acc else acc

unfoldable pub collect_nats : List IpNet → List (String × String) → List NbNat → NatAcc → NatAcc
unfolding lookup insert in_filters
collect_nats filters nat_macs [] acc = acc
collect_nats filters nat_macs (nat ∷ nats) acc =
    collect_nats filters nat_macs nats (join_nat filters nat (lookup nat.uuid nat_macs) acc)

-- Step 5b: the addresses of the gateways' patch ports.
abbrev parses : Option Ip → Bool
parses none = false
parses (some a) = true

unfoldable pub resident_ips : List String → List String
unfolding parse_ip
resident_ips [] = []
resident_ips (f ∷ fs) =
    let rest = resident_ips fs in
    if starts_with f "is_chassis_resident"
    then []
    else if parses (parse_ip f)
    then f ∷ rest
    else rest

abbrev behind_mac : List String → List String
behind_mac [] = []
behind_mac (mac ∷ rest) = resident_ips rest

-- `parseNatAddressIPs`
unfoldable pub parse_nat_address_ips : String → List String
unfolding fields resident_ips
parse_nat_address_ips s = behind_mac (fields s)

abbrev pub peer_of : SbPortBinding → String
peer_of pb = or_empty (lookup "peer" pb.options)

unfoldable pub is_gateway_patch : List (String × String) → SbPortBinding → Bool
unfolding lookup
is_gateway_patch names pb =
    pb.type == "patch"
    && not (peer_of pb == "")
    && is_some (lookup (peer_of pb) names)
    && or_empty (lookup "neutron:device_owner" pb.external_ids) == "network:router_gateway"

abbrev pub add_ip : List IpNet → (mac ip : String) → NatAcc → NatAcc
add_ip filters mac ip acc =
    if in_filters filters ip
    then record acc {
      snat_ips = acc.snat_ips ++ (ip ∷ []);
      macs = if mac == "" then acc.macs else insert ip mac acc.macs;
    }
    else acc

unfoldable pub add_ips : List IpNet → (mac : String) → List String → NatAcc → NatAcc
unfolding in_filters insert
add_ips filters mac [] acc = acc
add_ips filters mac (ip ∷ ips) acc = add_ips filters mac ips (add_ip filters mac ip acc)

unfoldable pub add_addresses : List IpNet → (mac : String) → List String → NatAcc → NatAcc
unfolding parse_nat_address_ips add_ips
add_addresses filters mac [] acc = acc
add_addresses filters mac (text ∷ texts) acc =
    add_addresses filters mac texts (add_ips filters mac (parse_nat_address_ips text) acc)

abbrev pub join_patch : List IpNet → (mac : String) → List String → Bool → NatAcc → NatAcc
join_patch filters mac texts true acc = add_addresses filters mac texts acc
join_patch filters mac texts false acc = acc

unfoldable pub collect_patches :
    List IpNet → (names macs : List (String × String)) → List SbPortBinding → NatAcc → NatAcc
unfolding is_gateway_patch lookup
collect_patches filters names macs [] acc = acc
collect_patches filters names macs (pb ∷ pbs) acc = collect_patches filters names macs pbs (
    join_patch filters (or_empty (lookup (peer_of pb) macs)) pb.nat_addresses
      (is_gateway_patch names pb) acc)
