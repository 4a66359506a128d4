-- ===== src/Agent/Desired.antt =====
-- Which addresses a reconcile cycle of agent.go wants.
use ovn_route_agent.Base.{
  String, Bool, true, false, not, ◌&&◌, ◌||◌, ◌≡◌, refl, ap, ◌∙◌, Option, none, some, List, [], ◌∷◌,
  ◌++◌, ◌==◌, map, any, any-append, elem, keys, insert, insert_sorted, sort_strings, str_le,
  trim_space, Bool-cases, arith, eq_iff, inl, inr, IsSorted,
}
use ovn_route_agent.Net.{Ip, IpNet, parse_cidr, ip_text}
use ovn_route_agent.Config.{Config, PortForwardVip}
use ovn_route_agent.Ovn.Gateway.Defs.{LocalRouterInfo}
use ovn_route_agent.Ovn.State.Refresh.{OvnState}
use ovn_route_agent.Agent.Cycle.{
  add_address, add_cidrs, add_gateways, hairpin_macs, vip_of, desired_ips,
}
use ovn_route_agent.Agent.Idle.{unique_ips-elem}

module _ (p : String → Bool) where
  -- The address of the text has the property.
  abbrev pub address_is : Option (Ip × IpNet) → Bool
  address_is none = false
  address_is (some (ip, net)) = p (ip_text ip)

  -- A local router with a MAC has such a gateway address.
  abbrev pub gateway_is : LocalRouterInfo → Bool
  gateway_is lr =
      not (lr.lrp_mac == "") && any (λ cidr. address_is (parse_cidr cidr)) lr.lrp_networks

  any-keys-insert :
      (k mac : String) (m : List (String × String))
      → any p (keys (insert k mac m)) ≡ (p k || any p (keys m))
  unfolding any insert
  any-keys-insert k mac [] = refl
  any-keys-insert k mac ((name, x) ∷ rest) = elim (Bool-cases (name == k)) [
    | inl e ↦ rw e (ground (arith, ap p (same name k e)))
    | inr e ↦ rw e (ground (arith, any-keys-insert k mac rest))
  ]
    where
      same : (a b : String) → (a == b) ≡ true → a ≡ b
      same a b t = ground (arith, eq_iff a b)

  add_address-keys :
      (mac : String) (o : Option (Ip × IpNet)) (m : List (String × String))
      → any p (keys (add_address mac o m)) ≡ ((not (mac == "") && address_is o) || any p (keys m))
  add_address-keys mac none m = ground arith
  add_address-keys mac (some (ip, net)) m = elim (Bool-cases (mac == "")) [
    | inl e ↦ rw e refl
    | inr e ↦ rw e (any-keys-insert (ip_text ip) mac m)
  ]

  add_cidrs-keys :
      (mac : String) (cidrs : List String) (m : List (String × String))
      → any p (keys (add_cidrs mac cidrs m))
        ≡ ((not (mac == "") && any (λ cidr. address_is (parse_cidr cidr)) cidrs) || any p (keys m))
  unfolding add_cidrs any
  add_cidrs-keys mac [] m = ground arith
  add_cidrs-keys mac (cidr ∷ cidrs) m =
      add_cidrs-keys mac cidrs (add_address mac (parse_cidr cidr) m)
      ∙ rw (add_address-keys mac (parse_cidr cidr) m) (ground arith)

  add_gateways-keys :
      (lrs : List LocalRouterInfo) (m : List (String × String))
      → any p (keys (add_gateways lrs m)) ≡ (any gateway_is lrs || any p (keys m))
  unfolding add_gateways any
  add_gateways-keys [] m = refl
  add_gateways-keys (lr ∷ lrs) m =
      add_gateways-keys lrs (add_cidrs lr.lrp_mac lr.lrp_networks m)
      ∙ rw (add_cidrs-keys lr.lrp_mac lr.lrp_networks m) (ground arith)

  any-insert_sorted :
      (x : String) (ys : List String) → any p (insert_sorted x ys) ≡ (p x || any p ys)
  unfolding any insert_sorted
  any-insert_sorted x [] = refl
  any-insert_sorted x (y ∷ ys) = elim (Bool-cases (str_le x y)) [
    | inl e ↦ rw e refl
    | inr e ↦ rw e (ground (arith, any-insert_sorted x ys))
  ]

  any-sort_strings : (xs : List String) → any p (sort_strings xs) ≡ any p xs
  unfolding any sort_strings
  any-sort_strings [] = refl
  any-sort_strings (x ∷ xs) =
      any-insert_sorted x (sort_strings xs) ∙ ap (λ b. p x || b) (any-sort_strings xs)

  any-vips : (pfs : List PortForwardVip) → any p (map vip_of pfs) ≡ any (λ pf. p pf.vip) pfs
  unfolding any
  any-vips [] = refl
  any-vips (pf ∷ pfs) = ap (λ b. p pf.vip || b) (any-vips pfs)

elem-map-trim :
    (ip : String) (xs : List String)
    → elem ip (map trim_space xs) ≡ any (λ x. trim_space x == ip) xs
unfolding elem any
elem-map-trim ip [] = refl
elem-map-trim ip (x ∷ xs) = ground (arith, elem-map-trim ip xs)

-- The addresses that a cycle wants are sorted, and are those that, trimmed and not empty, are a NAT
-- address of the state, the gateway address of a local router with a MAC, or the VIP of a port
-- forward.
pub desired_ips-elem :
    (cfg : Config) (state : OvnState)
    → IsSorted (desired_ips cfg state)
      × ((ip : String)
          → elem ip (desired_ips cfg state) ≡ (
              not (ip == "")
              && (any (λ x. trim_space x == ip) (keys state.nat_ip_to_router_mac)
                  || any (gateway_is (λ x. trim_space x == ip)) state.local_routers
                  || any (λ pf. trim_space pf.vip == ip) cfg.port_forwards)))
unfolding desired_ips hairpin_macs
desired_ips-elem cfg state =
    let macs = add_gateways state.local_routers state.nat_ip_to_router_mac in
    let all = sort_strings (keys macs) ++ map vip_of cfg.port_forwards in
    let (sorted, members) = unique_ips-elem all in
    (
      sorted,
      λ ip.
          let p : String → Bool = λ x. trim_space x == ip in
          members ip
          ∙ ap (λ b. not (ip == "") && b)
              (elem-map-trim ip all
                ∙ any-append p (sort_strings (keys macs)) (map vip_of cfg.port_forwards)
                ∙ rw
                    (
                      any-sort_strings p (keys macs),
                      add_gateways-keys p state.local_routers state.nat_ip_to_router_mac,
                      any-vips p cfg.port_forwards,
                    )
                    (ground arith)),
    )
