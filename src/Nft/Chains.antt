-- ===== src/Nft/Chains.antt =====
-- `buildNftRuleset` of nftables.go: the chains of the rule set, from the VIPs, the provider networks
-- and the SNAT addresses of the routers.
use ovn_route_agent.Base.{
  ℕ, suc, ℤ, pos, eqb_ℤ, String, Bool, true, List, [], ◌∷◌, ◌++◌, map, length, sort_strings,
  compact, if◌then◌else◌,
}
use ovn_route_agent.Net.{IpNet, net_text}
use ovn_route_agent.Config.{PortForwardRule, PortForwardVip, effective_masquerade, all_dest_addrs}
use ovn_route_agent.Nft.Rules.{
  Rule, zone_original, zone_reply, dnat_single, dnat_balanced, mark_original, mark_reply,
  accept_sources, accept_reply, drop_rest, clear_mark, masquerade_backend, masquerade_sources,
  Chain, table_text,
}

abbrev pub target_port : PortForwardRule → ℤ
target_port r = if eqb_ℤ r.dest_port (pos 0) then r.port else r.dest_port

-- `writeCTZoneRules`: nothing for a rule without backends.
abbrev pub reply_zones : PortForwardRule → (zone : ℤ) → List String → List Rule
reply_zones r zone [] = []
reply_zones r zone (addr ∷ addrs) =
    zone_reply addr r.proto (target_port r) zone ∷ reply_zones r zone addrs

abbrev pub zones_for : (vip : String) → PortForwardRule → (zone : ℤ) → List String → List Rule
zones_for vip r zone [] = []
zones_for vip r zone (addr ∷ addrs) =
    zone_original vip r.proto r.port zone ∷ reply_zones r zone (addr ∷ addrs)

abbrev pub vip_zones : (vip : String) → (zone : ℤ) → List PortForwardRule → List Rule
vip_zones vip zone [] = []
vip_zones vip zone (r ∷ rs) = zones_for vip r zone (all_dest_addrs r) ++ vip_zones vip zone rs

unfoldable pub ct_zone_rules : List PortForwardVip → (zone : ℤ) → List Rule
unfolding all_dest_addrs
ct_zone_rules [] zone = []
ct_zone_rules (pf ∷ pfs) zone = vip_zones pf.vip zone pf.rules ++ ct_zone_rules pfs zone

-- The verdict map of the load balancer: the index and the address of each backend.
abbrev pub indexed : ℕ → List String → List (ℕ × String)
indexed i [] = []
indexed i (addr ∷ addrs) = (i, addr) ∷ indexed (suc i) addrs

abbrev pub dnat_for : (vip : String) → PortForwardRule → List String → List Rule
dnat_for vip r [] = []
dnat_for vip r (addr ∷ []) = dnat_single vip r.proto r.port addr (target_port r) ∷ []
dnat_for vip r addrs =
    dnat_balanced vip r.proto r.port (length addrs) (indexed 0 addrs) (target_port r) ∷ []

abbrev pub vip_dnats : (vip : String) → List PortForwardRule → List Rule
vip_dnats vip [] = []
vip_dnats vip (r ∷ rs) = dnat_for vip r (all_dest_addrs r) ++ vip_dnats vip rs

unfoldable pub dnat_rules : List PortForwardVip → List Rule
unfolding all_dest_addrs
dnat_rules [] = []
dnat_rules (pf ∷ pfs) = vip_dnats pf.vip pf.rules ++ dnat_rules pfs

-- `snatEntries`
abbrev pub snat_for : PortForwardRule → List String → List Rule
snat_for r [] = []
snat_for r (addr ∷ addrs) = masquerade_backend addr r.proto (target_port r) ∷ snat_for r addrs

abbrev pub vip_snats : (masquerade : Bool) → List PortForwardRule → List Rule
vip_snats masquerade [] = []
vip_snats masquerade (r ∷ rs) =
    (if effective_masquerade r masquerade then snat_for r (all_dest_addrs r) else [])
    ++ vip_snats masquerade rs

unfoldable pub snat_entries : List PortForwardVip → List Rule
unfolding effective_masquerade all_dest_addrs
snat_entries [] = []
snat_entries (pf ∷ pfs) = vip_snats pf.masquerade pf.rules ++ snat_entries pfs

-- `allVIPs`, `hairpinVIPs` and `routerMasqVIPs`
unfoldable pub vips_where : (PortForwardVip → Bool) → List PortForwardVip → List String
vips_where p [] = []
vips_where p (pf ∷ pfs) = if p pf then pf.vip ∷ vips_where p pfs else vips_where p pfs

abbrev pub each_vip : (sources : List String) → List String → List Rule
each_vip sources [] = []
each_vip sources (vip ∷ vips) = masquerade_sources sources vip ∷ each_vip sources vips

-- The rules for a set of sources, none where the set is empty.
abbrev pub from_sources : (sources vips : List String) → List Rule
from_sources [] vips = []
from_sources (s ∷ sources) vips = each_vip (s ∷ sources) vips

unfoldable pub snat_rules :
    List PortForwardVip → (networks : List String) → (snat_ips : List String) → List Rule
unfolding snat_entries vips_where compact sort_strings
snat_rules forwards networks snat_ips =
    snat_entries forwards
    ++ (from_sources networks (vips_where (λ pf. pf.hairpin_masquerade) forwards)
        ++ from_sources (compact (sort_strings snat_ips))
            (vips_where (λ pf. pf.router_masquerade) forwards))

-- The chain is left out where it has no rule.
abbrev pub snat_chain : List Rule → List Chain
snat_chain [] = []
snat_chain (r ∷ rs) =
    record {
      name = "postrouting_snat";
      hook = "type nat hook postrouting priority srcnat;";
      rules = r ∷ rs;
    }
    ∷ []

abbrev pub guard_rules : (networks : List String) → List Rule
guard_rules [] = accept_reply ∷ drop_rest ∷ []
guard_rules (n ∷ ns) = accept_sources (n ∷ ns) ∷ accept_reply ∷ drop_rest ∷ []

unfoldable pub nft_chains :
    List PortForwardVip → List IpNet → (snat_ips : List String) → (ct_zone : ℤ) → List Chain
unfolding ct_zone_rules dnat_rules vips_where snat_rules net_text
nft_chains forwards provider_networks snat_ips ct_zone =
    let all_vips = vips_where (λ pf. true) forwards in
    let networks = map net_text provider_networks in
    record {
      name = "prerouting_ctzone";
      hook = "type filter hook prerouting priority raw;";
      rules = ct_zone_rules forwards ct_zone;
    }
    ∷ record {
      name = "output_ctzone";
      hook = "type filter hook output priority raw;";
      rules = ct_zone_rules forwards ct_zone;
    }
    ∷ record {
      name = "prerouting_dnat";
      hook = "type nat hook prerouting priority dstnat;";
      rules = dnat_rules forwards;
    }
    ∷ record {
      name = "prerouting_fwmark";
      hook = "type filter hook prerouting priority filter;";
      rules = mark_original all_vips ∷ mark_reply all_vips ∷ [];
    }
    ∷ record {
      name = "output_fwmark";
      hook = "type route hook output priority filter;";
      rules = mark_reply all_vips ∷ [];
    }
    ∷ record {
      name = "forward_veth_guard";
      hook = "type filter hook forward priority filter;";
      rules = guard_rules networks;
    }
    ∷ record {
      name = "postrouting_fwmark_clear";
      hook = "type filter hook postrouting priority filter;";
      rules = clear_mark ∷ [];
    }
    ∷ snat_chain (snat_rules forwards networks snat_ips)

-- `buildNftRuleset`
unfoldable pub build_nft_ruleset :
    List PortForwardVip → List IpNet → (snat_ips : List String) → (ct_zone : ℤ) → String
unfolding nft_chains table_text
build_nft_ruleset forwards provider_networks snat_ips ct_zone =
    table_text (nft_chains forwards provider_networks snat_ips ct_zone)
