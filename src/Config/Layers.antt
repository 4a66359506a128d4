-- ===== src/Config/Layers.antt =====
-- The layers of `loadConfig` in config.go: defaults, file, environment, flags.
use ovn_route_agent.Base.{
  ℕ, ℤ, pos, ◌*◌, String, Bool, true, false, ◌||◌, Option, none, some, List, [], ◌==◌, eqb, not,
  filter, map, split_by, trim_space, is_empty, Result, ◌>>=◌, if◌then◌else◌,
}
use ovn_route_agent.Config.Defs.{Config, FileConfig, Flags, ConfigError}
use ovn_route_agent.Config.Validate.{validate_config}
use ovn_route_agent.Config.Mode.{validate_mode}

-- `splitAndTrim` with a comma
unfoldable pub split_and_trim : String → List String
unfolding split_by filter trim_space
split_and_trim s = filter (λ p. not (p == "")) (map trim_space (split_by (λ c. eqb c b',') s))

abbrev pub second : ℕ
second = 1000000000

-- Layer 0. The fields that are not listed in the source have Go's zero value.
abbrev pub defaults : Config
defaults = record {
  ovn_sb_remote = "";
  ovn_nb_remote = "";
  bridge_dev = "br-ex";
  vrf_name = "vrf-provider";
  veth_nexthop = "169.254.0.1";
  network_cidrs = [];
  network_filters = [];
  gateway_port = "";
  route_table_id = pos 0;
  bridge_ip = "169.254.169.254";
  ovs_wrapper = "";
  reconcile_interval = pos (60 * second);
  log_level = "info";
  dry_run = false;
  cleanup_on_shutdown = true;
  drain_on_shutdown = true;
  drain_timeout = pos (60 * second);
  drain_settle_delay = pos (3 * second);
  frr_prefix_list = "ANNOUNCED-NETWORKS";
  stale_chassis_grace_period = pos (300 * second);
  metrics_listen = "";
  veth_leak_enabled = true;
  veth_provider_ip = "";
  veth_leak_table_id = pos 200;
  veth_leak_rule_priority = pos 2000;
  port_forward_dev = "loopback1";
  port_forward_table_id = pos 201;
  port_forward_l3mdev_accept = false;
  port_forward_ct_zone = pos 64000;
  port_forward_only = false;
  port_forward_enabled = false;
  port_forwards = [];
}

-- `if v != "" { field = v }`
abbrev text_or : String → String → String
text_or v old = if v == "" then old else v

-- `if v != nil { field = *v }`, and a flag that was set
abbrev or_else {ℓ} : {A : Type ℓ} → Option A → A → A
or_else none old = old
or_else (some v) old = v

abbrev list_or {ℓ} : {A : Type ℓ} → List A → List A → List A
list_or v old = if is_empty v then old else v

-- `if v == "1" || v == "true"`, and its counterpart for the switches that default to true.
abbrev switch_on : String → Bool → Bool
switch_on v old = if v == "1" || v == "true" then true else old

abbrev switch_off : String → Bool → Bool
switch_off v old = if v == "0" || v == "false" then false else old

-- `time.ParseDuration` and `fmt.Sscanf(v, "%d", …)` are parameters.
-- A text that they refuse leaves the field as it is.
module _ (parse_duration scan_int : String → Option ℤ) where
  duration_or : String → ℤ → ℤ
  duration_or v old = if v == "" then old else or_else (parse_duration v) old

  int_or : String → ℤ → ℤ
  int_or v old = if v == "" then old else or_else (scan_int v) old

  flag_duration : Option String → ℤ → ℤ
  flag_duration none old = old
  flag_duration (some v) old = or_else (parse_duration v) old

  -- `applyFileConfig`
  unfoldable pub apply_file_config : Config → FileConfig → Config
  unfolding duration_or
  apply_file_config cfg fc = record cfg {
    ovn_sb_remote = text_or fc.ovn_sb_remote cfg.ovn_sb_remote;
    ovn_nb_remote = text_or fc.ovn_nb_remote cfg.ovn_nb_remote;
    bridge_dev = text_or fc.bridge_dev cfg.bridge_dev;
    vrf_name = text_or fc.vrf_name cfg.vrf_name;
    veth_nexthop = text_or fc.veth_nexthop cfg.veth_nexthop;
    network_cidrs = list_or fc.network_cidr cfg.network_cidrs;
    gateway_port = text_or fc.gateway_port cfg.gateway_port;
    route_table_id = or_else fc.route_table_id cfg.route_table_id;
    bridge_ip = text_or fc.bridge_ip cfg.bridge_ip;
    ovs_wrapper = text_or fc.ovs_wrapper cfg.ovs_wrapper;
    reconcile_interval = duration_or fc.reconcile_interval cfg.reconcile_interval;
    log_level = text_or fc.log_level cfg.log_level;
    dry_run = or_else fc.dry_run cfg.dry_run;
    cleanup_on_shutdown = or_else fc.cleanup_on_shutdown cfg.cleanup_on_shutdown;
    drain_on_shutdown = or_else fc.drain_on_shutdown cfg.drain_on_shutdown;
    drain_timeout = duration_or fc.drain_timeout cfg.drain_timeout;
    drain_settle_delay = duration_or fc.drain_settle_delay cfg.drain_settle_delay;
    frr_prefix_list = text_or fc.frr_prefix_list cfg.frr_prefix_list;
    stale_chassis_grace_period =
        duration_or fc.stale_chassis_grace_period cfg.stale_chassis_grace_period;
    metrics_listen = text_or fc.metrics_listen cfg.metrics_listen;
    veth_leak_enabled = or_else fc.veth_leak_enabled cfg.veth_leak_enabled;
    veth_provider_ip = text_or fc.veth_provider_ip cfg.veth_provider_ip;
    veth_leak_table_id = or_else fc.veth_leak_table_id cfg.veth_leak_table_id;
    veth_leak_rule_priority = or_else fc.veth_leak_rule_priority cfg.veth_leak_rule_priority;
    port_forward_dev = text_or fc.port_forward_dev cfg.port_forward_dev;
    port_forward_table_id = or_else fc.port_forward_table_id cfg.port_forward_table_id;
    port_forward_l3mdev_accept =
        or_else fc.port_forward_l3mdev_accept cfg.port_forward_l3mdev_accept;
    port_forward_ct_zone = or_else fc.port_forward_ct_zone cfg.port_forward_ct_zone;
    port_forwards = list_or fc.port_forwards cfg.port_forwards;
  }

  -- `applyEnvConfig`; `getenv` gives "" for a variable that is not set.
  unfoldable pub apply_env_config : (String → String) → Config → Config
  unfolding duration_or int_or
  apply_env_config getenv cfg = record cfg {
    ovn_sb_remote = text_or (getenv "OVN_NETWORK_OVN_SB_REMOTE") cfg.ovn_sb_remote;
    ovn_nb_remote = text_or (getenv "OVN_NETWORK_OVN_NB_REMOTE") cfg.ovn_nb_remote;
    bridge_dev = text_or (getenv "OVN_NETWORK_BRIDGE_DEV") cfg.bridge_dev;
    vrf_name = text_or (getenv "OVN_NETWORK_VRF_NAME") cfg.vrf_name;
    veth_nexthop = text_or (getenv "OVN_NETWORK_VETH_NEXTHOP") cfg.veth_nexthop;
    network_cidrs =
        (if getenv "OVN_NETWORK_NETWORK_CIDR" == ""
          then cfg.network_cidrs
          else split_and_trim (getenv "OVN_NETWORK_NETWORK_CIDR"));
    gateway_port = text_or (getenv "OVN_NETWORK_GATEWAY_PORT") cfg.gateway_port;
    route_table_id = int_or (getenv "OVN_NETWORK_ROUTE_TABLE_ID") cfg.route_table_id;
    bridge_ip = text_or (getenv "OVN_NETWORK_BRIDGE_IP") cfg.bridge_ip;
    ovs_wrapper = text_or (getenv "OVN_NETWORK_OVS_WRAPPER") cfg.ovs_wrapper;
    reconcile_interval =
        duration_or (getenv "OVN_NETWORK_RECONCILE_INTERVAL") cfg.reconcile_interval;
    log_level = text_or (getenv "OVN_NETWORK_LOG_LEVEL") cfg.log_level;
    dry_run = switch_on (getenv "OVN_NETWORK_DRY_RUN") cfg.dry_run;
    cleanup_on_shutdown =
        switch_off (getenv "OVN_NETWORK_CLEANUP_ON_SHUTDOWN") cfg.cleanup_on_shutdown;
    drain_on_shutdown = switch_off (getenv "OVN_NETWORK_DRAIN_ON_SHUTDOWN") cfg.drain_on_shutdown;
    drain_timeout = duration_or (getenv "OVN_NETWORK_DRAIN_TIMEOUT") cfg.drain_timeout;
    drain_settle_delay =
        duration_or (getenv "OVN_NETWORK_DRAIN_SETTLE_DELAY") cfg.drain_settle_delay;
    frr_prefix_list = text_or (getenv "OVN_NETWORK_FRR_PREFIX_LIST") cfg.frr_prefix_list;
    stale_chassis_grace_period =
        duration_or (getenv "OVN_NETWORK_STALE_CHASSIS_GRACE_PERIOD")
          cfg.stale_chassis_grace_period;
    metrics_listen = text_or (getenv "OVN_NETWORK_METRICS_LISTEN") cfg.metrics_listen;
    veth_leak_enabled = switch_off (getenv "OVN_NETWORK_VETH_LEAK_ENABLED") cfg.veth_leak_enabled;
    veth_provider_ip = text_or (getenv "OVN_NETWORK_VETH_PROVIDER_IP") cfg.veth_provider_ip;
    veth_leak_table_id = int_or (getenv "OVN_NETWORK_VETH_LEAK_TABLE_ID") cfg.veth_leak_table_id;
    veth_leak_rule_priority =
        int_or (getenv "OVN_NETWORK_VETH_LEAK_RULE_PRIORITY") cfg.veth_leak_rule_priority;
    port_forward_dev = text_or (getenv "OVN_NETWORK_PORT_FORWARD_DEV") cfg.port_forward_dev;
    port_forward_table_id =
        int_or (getenv "OVN_NETWORK_PORT_FORWARD_TABLE_ID") cfg.port_forward_table_id;
    port_forward_l3mdev_accept =
        switch_on (getenv "OVN_NETWORK_PORT_FORWARD_L3MDEV_ACCEPT") cfg.port_forward_l3mdev_accept;
    port_forward_ct_zone =
        int_or (getenv "OVN_NETWORK_PORT_FORWARD_CT_ZONE") cfg.port_forward_ct_zone;
  }

  -- The switch of `loadConfig` over the flags that were set.
  unfoldable pub apply_flags : Flags → Config → Config
  unfolding flag_duration
  apply_flags fl cfg = record cfg {
    ovn_sb_remote = or_else fl.ovn_sb_remote cfg.ovn_sb_remote;
    ovn_nb_remote = or_else fl.ovn_nb_remote cfg.ovn_nb_remote;
    bridge_dev = or_else fl.bridge_dev cfg.bridge_dev;
    vrf_name = or_else fl.vrf_name cfg.vrf_name;
    veth_nexthop = or_else fl.veth_nexthop cfg.veth_nexthop;
    network_cidrs = elim fl.network_cidr [ none ↦ cfg.network_cidrs | some v ↦ split_and_trim v ];
    gateway_port = or_else fl.gateway_port cfg.gateway_port;
    route_table_id = or_else fl.route_table_id cfg.route_table_id;
    bridge_ip = or_else fl.bridge_ip cfg.bridge_ip;
    ovs_wrapper = or_else fl.ovs_wrapper cfg.ovs_wrapper;
    reconcile_interval = flag_duration fl.reconcile_interval cfg.reconcile_interval;
    log_level = or_else fl.log_level cfg.log_level;
    dry_run = or_else fl.dry_run cfg.dry_run;
    cleanup_on_shutdown = or_else fl.cleanup_on_shutdown cfg.cleanup_on_shutdown;
    drain_on_shutdown = or_else fl.drain_on_shutdown cfg.drain_on_shutdown;
    drain_timeout = flag_duration fl.drain_timeout cfg.drain_timeout;
    drain_settle_delay = flag_duration fl.drain_settle_delay cfg.drain_settle_delay;
    frr_prefix_list = or_else fl.frr_prefix_list cfg.frr_prefix_list;
    stale_chassis_grace_period =
        flag_duration fl.stale_chassis_grace_period cfg.stale_chassis_grace_period;
    metrics_listen = or_else fl.metrics_listen cfg.metrics_listen;
    veth_leak_enabled = or_else fl.veth_leak_enabled cfg.veth_leak_enabled;
    veth_provider_ip = or_else fl.veth_provider_ip cfg.veth_provider_ip;
    veth_leak_table_id = or_else fl.veth_leak_table_id cfg.veth_leak_table_id;
    veth_leak_rule_priority = or_else fl.veth_leak_rule_priority cfg.veth_leak_rule_priority;
    port_forward_dev = or_else fl.port_forward_dev cfg.port_forward_dev;
    port_forward_table_id = or_else fl.port_forward_table_id cfg.port_forward_table_id;
    port_forward_l3mdev_accept =
        or_else fl.port_forward_l3mdev_accept cfg.port_forward_l3mdev_accept;
    port_forward_ct_zone = or_else fl.port_forward_ct_zone cfg.port_forward_ct_zone;
  }

  -- The layers of `loadConfig` in order; a file is read only where a path is given.
  unfoldable pub layered : Option FileConfig → (String → String) → Flags → Config
  unfolding apply_file_config apply_env_config apply_flags
  layered file getenv fl = apply_flags fl (
      apply_env_config getenv
        (elim file [ none ↦ defaults | some fc ↦ apply_file_config defaults fc ]))

  -- `loadConfig` behind the flag parser and the file reader.
  unfoldable pub load_config :
      Option FileConfig → (String → String) → Flags → Result ConfigError Config
  load_config file getenv fl = do cfg ← validate_config (layered file getenv fl); validate_mode cfg
