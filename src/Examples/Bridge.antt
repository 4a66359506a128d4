-- ===== src/Examples/Bridge.antt =====
-- Sample commands of the switch and of vtysh.
use ovn_route_agent.Base.{
  pos, String, true, false, ◌≡◌, refl, Option, some, List, [], ◌∷◌, All, map, trim_space, split_by,
  fields, set_of, ℤ, contains_text,
}
use ovn_route_agent.Net.{
  v4, IpNet, net_text, parse_ip, parse_addr, kind_of, parse_v4, parse_octet, of_bits,
}
use ovn_route_agent.Ovs.Flows.{
  Bridge, Ovs, reconcile_ovs_hairpin_flows, add_hairpins, del_ovs_flows, add_ovs_flow, run_ovs,
}
use ovn_route_agent.Ovs.Hairpins.{
  Parse, then_sent, deletion, additions, reconcile_ovs_hairpin_flows_sent,
}
use ovn_route_agent.Routing.Prefixes.{
  PrefixListEntry, Runner, reconcile_frr_prefix_list, list_entries, parse_lines, add_line,
}
use ovn_route_agent.Routing.Permitted.{Fits, reconcile_frr_prefix_list-Fits}

abbrev bridge : Bridge
bridge = record {
  bridge_dev = "br-ex";
  ovs_wrapper = "docker" ∷ "exec" ∷ "ovs" ∷ [];
  dry_run = false;
  cached_patch_port = "patch-provnet";
  cached_ofport = "3";
  cached_bridge_mac = "fa:16:3e:00:00:09";
}

-- The switch answers every command with the same port number.
abbrev switch : Ovs
switch sent args = some "4\n"

abbrev macs : List (String × String)
macs = ("192.0.2.7", "fa:16:3e:00:00:01") ∷ []

reconcile_ovs_hairpin_flows_sent_example :
    Parse macs
    × ((reconcile_ovs_hairpin_flows switch bridge macs []).1
        ≡ then_sent (deletion bridge ∷ additions bridge macs) [])
unfolding reconcile_ovs_hairpin_flows add_hairpins del_ovs_flows add_ovs_flow run_ovs parse_ip
    parse_addr kind_of parse_v4 parse_octet of_bits split_by
reconcile_ovs_hairpin_flows_sent_example =
    reconcile_ovs_hairpin_flows_sent switch bridge macs refl refl refl

abbrev old_entry : PrefixListEntry
old_entry = record { seq = pos 10; network = "198.51.100.0/24" }

abbrev wanted : IpNet
wanted = record { ip = v4 3221225984; ones = 24; bits = 32 }

abbrev runner : Runner
runner sent command = true

reconcile_frr_prefix_list-Fits_example :
    All
      (Fits (old_entry ∷ []) (set_of (map net_text (wanted ∷ []))))
      (reconcile_frr_prefix_list runner "ANNOUNCE" false (some (old_entry ∷ [])) (wanted ∷ []) []).1
reconcile_frr_prefix_list-Fits_example =
    reconcile_frr_prefix_list-Fits runner "ANNOUNCE" false (old_entry ∷ []) (wanted ∷ [])

abbrev ten : String → Option ℤ
ten s = some (pos 10)

entries-listed :
    list_entries ten "ANNOUNCE" (some "seq 10 permit 198.51.100.0/24 ge 32 le 32\n")
    ≡ some (old_entry ∷ [])
unfolding list_entries parse_lines add_line contains_text trim_space split_by fields
entries-listed = refl
