-- ===== src/Examples/Vtysh.antt =====
-- Sample calls of vtysh.
use ovn_route_agent.Base.{String, true, false, refl, List, [], ◌∷◌, split_by}
use ovn_route_agent.Net.{parse_ip, parse_addr, kind_of, parse_v4, parse_octet, of_bits}
use ovn_route_agent.Routing.Defs.{
  RouteManager, Vtysh, validate_ip, all_valid, add_frr_routes, del_frr_routes,
}
use ovn_route_agent.Routing.Batches.{Batched, frr_routes-Batched}

abbrev manager : RouteManager
manager = record { vrf_name = "vrf-provider"; veth_nexthop = "169.254.0.1"; dry_run = false }

abbrev working : Vtysh
working sent args = true

abbrev addresses : List String
addresses = "192.0.2.7" ∷ "192.0.2.9" ∷ []

frr_routes-Batched_example :
    Batched manager "ip route" addresses [] (add_frr_routes working manager addresses [])
    × Batched manager "no ip route" addresses [] (del_frr_routes working manager addresses [])
unfolding all_valid validate_ip parse_ip parse_addr kind_of parse_v4 parse_octet of_bits split_by
frr_routes-Batched_example = frr_routes-Batched working manager addresses [] refl refl
