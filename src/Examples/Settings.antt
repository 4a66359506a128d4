-- ===== src/Examples/Settings.antt =====
-- Sample addresses and configurations.
use ovn_route_agent.Base.{
  ℤ, pos, String, true, false, ◌≡◌, refl, Option, none, some, [], ◌∷◌, ok, elem, split_by,
}
use ovn_route_agent.Net.{
  parse_ip, ip_text, next_ip_in_subnet, kind_of, of_bits, parse_addr, parse_cidr, parse_octet,
  parse_v4, parse_v6, digit, itoa, print_v4, print_v6,
}
use ovn_route_agent.Config.{PortForwardRule, PortForwardVip, Config, FileConfig, Flags}
use ovn_route_agent.Config.{
  validate_config, validate_base, is_ip, is_valid_identifier, out_of_range, parse_filters,
  validate_timing, validate_leak, provider_ip, validate_forwards, validate_vips, is_ip_v4,
  validate_rules, validate_rule, has_rule, all_dest_addrs, splits_host_port, validate_addrs,
}
use ovn_route_agent.Config.{defaults, layered}
use ovn_route_agent.Config.Sound.{IsValid, validate_config-IsValid}
use ovn_route_agent.Config.Precedence.{bridge_dev, configured, first_set, layered-first_set}

abbrev web : PortForwardRule
web = record {
  proto = "tcp";
  port = pos 443;
  dest_addr = "";
  dest_addrs = "10.0.0.1" ∷ "10.0.0.2" ∷ [];
  dest_port = pos 8443;
  masquerade = some true;
}

abbrev vip : PortForwardVip
vip = record {
  vip = "192.0.2.10";
  manage_vip = true;
  masquerade = false;
  hairpin_masquerade = false;
  router_masquerade = false;
  rules = web ∷ [];
}

abbrev pub standalone : Config
standalone = record defaults { port_forwards = vip ∷ []; veth_provider_ip = "169.254.0.2" }

abbrev pub checked : Config
checked = record standalone { port_forward_enabled = true }

pub standalone-ok : validate_config standalone ≡ ok checked
unfolding validate_config validate_base is_ip parse_ip is_valid_identifier out_of_range
    parse_filters validate_timing validate_leak provider_ip validate_forwards validate_vips is_ip_v4
    elem validate_rules validate_rule has_rule all_dest_addrs split_by splits_host_port
    validate_addrs kind_of of_bits parse_addr parse_cidr parse_octet parse_v4 parse_v6 digit ip_text
    itoa next_ip_in_subnet print_v4 print_v6
standalone-ok = refl

validate_config-IsValid_example : IsValid checked
validate_config-IsValid_example = validate_config-IsValid standalone checked standalone-ok

abbrev file : FileConfig
file = record {
  ovn_sb_remote = "";
  ovn_nb_remote = "";
  bridge_dev = "br-file";
  vrf_name = "vrf-file";
  veth_nexthop = "";
  network_cidr = [];
  gateway_port = "";
  route_table_id = none;
  bridge_ip = "";
  ovs_wrapper = "";
  reconcile_interval = "";
  log_level = "";
  dry_run = none;
  cleanup_on_shutdown = none;
  drain_on_shutdown = none;
  drain_timeout = "";
  drain_settle_delay = "";
  frr_prefix_list = "";
  stale_chassis_grace_period = "";
  metrics_listen = "";
  veth_leak_enabled = none;
  veth_provider_ip = "";
  veth_leak_table_id = none;
  veth_leak_rule_priority = none;
  port_forward_dev = "";
  port_forward_table_id = none;
  port_forward_l3mdev_accept = none;
  port_forward_ct_zone = none;
  port_forwards = [];
}

abbrev flags : Flags
flags = record {
  ovn_sb_remote = none;
  ovn_nb_remote = none;
  bridge_dev = some "br-flag";
  vrf_name = none;
  veth_nexthop = none;
  network_cidr = none;
  gateway_port = none;
  route_table_id = none;
  bridge_ip = none;
  ovs_wrapper = none;
  reconcile_interval = none;
  log_level = none;
  dry_run = none;
  cleanup_on_shutdown = none;
  drain_on_shutdown = none;
  drain_timeout = none;
  drain_settle_delay = none;
  frr_prefix_list = none;
  stale_chassis_grace_period = none;
  metrics_listen = none;
  veth_leak_enabled = none;
  veth_provider_ip = none;
  veth_leak_table_id = none;
  veth_leak_rule_priority = none;
  port_forward_dev = none;
  port_forward_table_id = none;
  port_forward_l3mdev_accept = none;
  port_forward_ct_zone = none;
}

abbrev no_value : String → Option ℤ
no_value s = none

abbrev no_variable : String → String
no_variable s = ""

layered-first_set_example :
    configured bridge_dev (layered no_value no_value (some file) no_variable flags)
    ≡ first_set (some "br-flag") "" "br-file" "br-ex"
layered-first_set_example = layered-first_set no_value no_value file no_variable flags bridge_dev
