-- ===== src/Config/Defs.antt =====
-- The types of config.go. Go's `int` and `time.Duration` are integers; a `*bool` or `*int` of the
-- file is an option.
use ovn_route_agent.Base.{
  ℕ, ℤ, String, Bool, List, [], ◌∷◌, Option, none, some, ◌==◌, if◌then◌else◌,
}
use ovn_route_agent.Net.{IpNet}

pub record PortForwardRule : Type 0 where
  pub proto : String
  pub port : ℤ
  pub dest_addr : String
  pub dest_addrs : List String
  pub dest_port : ℤ
  pub masquerade : Option Bool

unfoldable pub effective_masquerade : PortForwardRule → Bool → Bool
effective_masquerade r vip_default = elim r.masquerade [ none ↦ vip_default | some b ↦ b ]

-- `destAddrs`: the plural field wins.
unfoldable pub all_dest_addrs : PortForwardRule → List String
all_dest_addrs r = elim r.dest_addrs [
  | [] ↦ if r.dest_addr == "" then [] else r.dest_addr ∷ []
  | a ∷ as' ↦ a ∷ as'
]

pub record PortForwardVip : Type 0 where
  pub vip : String
  pub manage_vip : Bool
  pub masquerade : Bool
  pub hairpin_masquerade : Bool
  pub router_masquerade : Bool
  pub rules : List PortForwardRule

pub record Config : Type 0 where
  pub ovn_sb_remote : String
  pub ovn_nb_remote : String
  pub bridge_dev : String
  pub vrf_name : String
  pub veth_nexthop : String
  pub network_cidrs : List String
  pub network_filters : List IpNet
  pub gateway_port : String
  pub route_table_id : ℤ
  pub bridge_ip : String
  pub ovs_wrapper : String
  pub reconcile_interval : ℤ
  pub log_level : String
  pub dry_run : Bool
  pub cleanup_on_shutdown : Bool
  pub drain_on_shutdown : Bool
  pub drain_timeout : ℤ
  pub drain_settle_delay : ℤ
  pub frr_prefix_list : String
  pub stale_chassis_grace_period : ℤ
  pub metrics_listen : String
  pub veth_leak_enabled : Bool
  pub veth_provider_ip : String
  pub veth_leak_table_id : ℤ
  pub veth_leak_rule_priority : ℤ
  pub port_forward_only : Bool
  pub port_forward_enabled : Bool
  pub port_forward_dev : String
  pub port_forward_table_id : ℤ
  pub port_forward_l3mdev_accept : Bool
  pub port_forward_ct_zone : ℤ
  pub port_forwards : List PortForwardVip

-- `configFile`, as the YAML decoder returns it.
pub record FileConfig : Type 0 where
  pub ovn_sb_remote : String
  pub ovn_nb_remote : String
  pub bridge_dev : String
  pub vrf_name : String
  pub veth_nexthop : String
  pub network_cidr : List String
  pub gateway_port : String
  pub route_table_id : Option ℤ
  pub bridge_ip : String
  pub ovs_wrapper : String
  pub reconcile_interval : String
  pub log_level : String
  pub dry_run : Option Bool
  pub cleanup_on_shutdown : Option Bool
  pub drain_on_shutdown : Option Bool
  pub drain_timeout : String
  pub drain_settle_delay : String
  pub frr_prefix_list : String
  pub stale_chassis_grace_period : String
  pub metrics_listen : String
  pub veth_leak_enabled : Option Bool
  pub veth_provider_ip : String
  pub veth_leak_table_id : Option ℤ
  pub veth_leak_rule_priority : Option ℤ
  pub port_forward_dev : String
  pub port_forward_table_id : Option ℤ
  pub port_forward_l3mdev_accept : Option Bool
  pub port_forward_ct_zone : Option ℤ
  pub port_forwards : List PortForwardVip

-- The command-line flags that were set, as `fs.Visit` finds them.
pub record Flags : Type 0 where
  pub ovn_sb_remote : Option String
  pub ovn_nb_remote : Option String
  pub bridge_dev : Option String
  pub vrf_name : Option String
  pub veth_nexthop : Option String
  pub network_cidr : Option String
  pub gateway_port : Option String
  pub route_table_id : Option ℤ
  pub bridge_ip : Option String
  pub ovs_wrapper : Option String
  pub reconcile_interval : Option String
  pub log_level : Option String
  pub dry_run : Option Bool
  pub cleanup_on_shutdown : Option Bool
  pub drain_on_shutdown : Option Bool
  pub drain_timeout : Option String
  pub drain_settle_delay : Option String
  pub frr_prefix_list : Option String
  pub stale_chassis_grace_period : Option String
  pub metrics_listen : Option String
  pub veth_leak_enabled : Option Bool
  pub veth_provider_ip : Option String
  pub veth_leak_table_id : Option ℤ
  pub veth_leak_rule_priority : Option ℤ
  pub port_forward_dev : Option String
  pub port_forward_table_id : Option ℤ
  pub port_forward_l3mdev_accept : Option Bool
  pub port_forward_ct_zone : Option ℤ

-- One constructor for each message of `validateConfig` and `validateMode`; the numbers are the
-- positions of the VIP, of its rule and of the address that the message names.
pub data ConfigError : Type 0 where
  invalid_veth_nexthop invalid_vrf_name invalid_route_table_id : ConfigError
  invalid_network_cidr : String → ConfigError
  invalid_frr_prefix_list : ConfigError
  negative_drain_timeout zero_drain_timeout negative_settle_delay negative_grace : ConfigError
  invalid_metrics_listen : ConfigError
  invalid_leak_table_id leak_table_is_route_table invalid_provider_ip : ConfigError
  invalid_forward_table_id forward_table_is_route_table invalid_ct_zone : ConfigError
  forward_table_is_leak_table invalid_forward_dev forward_without_leak : ConfigError
  invalid_vip vip_not_v4 duplicate_vip no_rules : ℕ → ConfigError
  invalid_proto invalid_port duplicate_rule both_dest_addrs no_dest_addrs : ℕ → ℕ → ConfigError
  too_many_dest_addrs invalid_dest_port : ℕ → ℕ → ConfigError
  invalid_dest_addr dest_addr_not_v4 duplicate_dest_addr : ℕ → ℕ → ℕ → ConfigError
  nothing_to_do incomplete_ovn : ConfigError
  router_masquerade_needs_ovn hairpin_masquerade_needs_cidr : ℕ → ConfigError
