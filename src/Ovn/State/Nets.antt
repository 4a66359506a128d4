-- ===== src/Ovn/State/Nets.antt =====
-- Step 4 of `refreshState` in ovn.go: the networks of the local ports; `uniqueNetworks`.
use ovn_route_agent.Base.{
  String, Option, none, some, List, [], ◌∷◌, ◌++◌, if◌then◌else◌, elem, add, str_le,
}
use ovn_route_agent.Net.{Ip, IpNet, parse_cidr, net_text}
use ovn_route_agent.Ovn.Gateway.Defs.{LocalRouterInfo}

-- Step 4: the networks of the local ports; a text that is no CIDR is passed over.
abbrev cons_network : Option (Ip × IpNet) → List IpNet → List IpNet
cons_network none nets = nets
cons_network (some (ip, net)) nets = net ∷ nets

unfoldable pub parsed_networks : List String → List IpNet
unfolding parse_cidr
parsed_networks [] = []
parsed_networks (text ∷ texts) = cons_network (parse_cidr text) (parsed_networks texts)

unfoldable pub router_networks : List LocalRouterInfo → List IpNet
unfolding parsed_networks
router_networks [] = []
router_networks (lr ∷ lrs) = parsed_networks lr.lrp_networks ++ router_networks lrs

unfoldable pub distinct_networks : (seen : List String) → List IpNet → List IpNet
unfolding net_text elem add
distinct_networks seen [] = []
distinct_networks seen (n ∷ ns) =
    let rest = distinct_networks (add (net_text n) seen) ns in
    if elem (net_text n) seen then rest else n ∷ rest

unfoldable pub insert_network : IpNet → List IpNet → List IpNet
unfolding net_text str_le
insert_network n [] = n ∷ []
insert_network n (m ∷ ms) =
    if str_le (net_text n) (net_text m) then n ∷ m ∷ ms else m ∷ insert_network n ms

unfoldable pub sort_networks : List IpNet → List IpNet
unfolding insert_network
sort_networks [] = []
sort_networks (n ∷ ns) = insert_network n (sort_networks ns)

-- `uniqueNetworks`
unfoldable pub unique_networks : List IpNet → List IpNet
unfolding distinct_networks sort_networks
unique_networks nets = sort_networks (distinct_networks [] nets)
