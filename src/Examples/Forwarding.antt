-- ===== src/Examples/Forwarding.antt =====
-- A sample configuration of port forwarding and its rule set.
use ovn_route_agent.Base.{
  pos, String, true, false, ◌≡◌, ◌⊎◌, ◌↔◌, refl, none, some, List, [], ◌∷◌, map, elem, In, join,
  arith,
}
use ovn_route_agent.Net.{v4, IpNet, net_text, itoa}
use ovn_route_agent.Config.{PortForwardRule, PortForwardVip}
use ovn_route_agent.Routing.Prefixes.{int_text}
use ovn_route_agent.Nft.Rules.{Rule, Chain, dnat_balanced, masquerade_backend, rule_text, written}
use ovn_route_agent.Nft.Chains.{nft_chains, build_nft_ruleset}
use ovn_route_agent.Nft.Translations.{Translation, translations, rules_of}
use ovn_route_agent.Nft.Zones.{BothIn, Belongs, zones-translations}
use ovn_route_agent.Nft.Keys.{dnat_keys, configured_keys, Apart, dnat_keys-Apart}
use ovn_route_agent.Nft.Masquerade.{ForBackend, ForSources, router_sources, masquerade_iff}
use ovn_route_agent.Nft.Sources.{build_nft_ruleset-same_sources}
use ovn_route_agent.Examples.Settings.{standalone, checked, standalone-ok}

abbrev web : PortForwardRule
web = record {
  proto = "tcp";
  port = pos 443;
  dest_addr = "";
  dest_addrs = "10.0.0.1" ∷ "10.0.0.2" ∷ [];
  dest_port = pos 8443;
  masquerade = some true;
}

abbrev names : PortForwardRule
names = record {
  proto = "udp";
  port = pos 53;
  dest_addr = "10.0.0.3";
  dest_addrs = [];
  dest_port = pos 0;
  masquerade = none;
}

abbrev service : PortForwardVip
service = record {
  vip = "192.0.2.10";
  manage_vip = true;
  masquerade = false;
  hairpin_masquerade = true;
  router_masquerade = true;
  rules = web ∷ names ∷ [];
}

abbrev pub provider : IpNet
provider = record { ip = v4 3221225984; ones = 24; bits = 32 }

abbrev pub forwards : List PortForwardVip
forwards = service ∷ []

abbrev networks : List IpNet
networks = provider ∷ []

abbrev snat_ips : List String
snat_ips = "192.0.2.9" ∷ "192.0.2.8" ∷ []

abbrev chains : List Chain
chains = nft_chains forwards networks snat_ips (pos 64000)

-- The balanced rule of two backends.
balanced_text :
    rule_text (
      dnat_balanced "192.0.2.10" "tcp"
        (pos 443)
        2
        ((0, "10.0.0.1") ∷ (1, "10.0.0.2") ∷ [])
        (pos 8443))
    ≡ "ip daddr 192.0.2.10 tcp dport 443 dnat to jhash ip saddr mod 2 map { 0 : 10.0.0.1 . 8443, 1 : 10.0.0.2 . 8443 }"
unfolding rule_text written join int_text itoa
balanced_text = refl

zones-translations_example :
    let dnats = translations (rules_of "prerouting_dnat" chains) in
    ((t : Translation)
      → In t dnats
      → BothIn (pos 64000) (rules_of "prerouting_ctzone" chains) t
        × BothIn (pos 64000) (rules_of "output_ctzone" chains) t)
    × ((rule : Rule)
        → In rule (rules_of "prerouting_ctzone" chains) ⊎ In rule (rules_of "output_ctzone" chains)
        → Belongs (pos 64000) dnats rule)
zones-translations_example = zones-translations forwards networks snat_ips (pos 64000)

dnat_keys-Apart_example :
    let dnats =
      rules_of "prerouting_dnat"
        (nft_chains checked.port_forwards networks snat_ips checked.port_forward_ct_zone) in
    (dnat_keys dnats ≡ configured_keys checked.port_forwards) × Apart (dnat_keys dnats)
dnat_keys-Apart_example = dnat_keys-Apart standalone checked networks snat_ips standalone-ok

abbrev backend : Rule
backend = masquerade_backend "10.0.0.1" "tcp" (pos 8443)

masquerade_iff_example : In backend (rules_of "postrouting_snat" chains) ↔ (
    ForBackend forwards backend
    ⊎ (ForSources (λ pf. pf.hairpin_masquerade) forwards (map net_text networks) backend
        ⊎ ForSources (λ pf. pf.router_masquerade) forwards (router_sources snat_ips) backend))
masquerade_iff_example = masquerade_iff forwards networks snat_ips (pos 64000) backend

abbrev repeated : List String
repeated = "192.0.2.8" ∷ "192.0.2.9" ∷ "192.0.2.8" ∷ []

same_members : (k : String) → elem k snat_ips ≡ elem k repeated
unfolding elem
same_members k = ground arith

build_nft_ruleset-same_sources_example :
    build_nft_ruleset forwards networks snat_ips (pos 64000)
    ≡ build_nft_ruleset forwards networks repeated (pos 64000)
build_nft_ruleset-same_sources_example =
    build_nft_ruleset-same_sources forwards networks snat_ips repeated (pos 64000) same_members
