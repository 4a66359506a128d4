-- ===== src/Config/Precedence.antt =====
-- The priority of the layers that the comment of `loadConfig` states, for every text setting.
use ovn_route_agent.Base.{ℤ, String, ◌≡◌, Option, none, some, arith, ◌==◌, if◌then◌else◌}
use ovn_route_agent.Config.Defs.{Config, FileConfig, Flags}
use ovn_route_agent.Config.Layers.{defaults, layered}

-- The settings that are texts.
pub data TextSetting : Type 0 where
  ovn_sb_remote ovn_nb_remote bridge_dev vrf_name veth_nexthop gateway_port bridge_ip ovs_wrapper
        log_level frr_prefix_list metrics_listen veth_provider_ip port_forward_dev :
      TextSetting

abbrev pub configured : TextSetting → Config → String
configured ovn_sb_remote c = c.ovn_sb_remote
configured ovn_nb_remote c = c.ovn_nb_remote
configured bridge_dev c = c.bridge_dev
configured vrf_name c = c.vrf_name
configured veth_nexthop c = c.veth_nexthop
configured gateway_port c = c.gateway_port
configured bridge_ip c = c.bridge_ip
configured ovs_wrapper c = c.ovs_wrapper
configured log_level c = c.log_level
configured frr_prefix_list c = c.frr_prefix_list
configured metrics_listen c = c.metrics_listen
configured veth_provider_ip c = c.veth_provider_ip
configured port_forward_dev c = c.port_forward_dev

abbrev pub in_file : TextSetting → FileConfig → String
in_file ovn_sb_remote c = c.ovn_sb_remote
in_file ovn_nb_remote c = c.ovn_nb_remote
in_file bridge_dev c = c.bridge_dev
in_file vrf_name c = c.vrf_name
in_file veth_nexthop c = c.veth_nexthop
in_file gateway_port c = c.gateway_port
in_file bridge_ip c = c.bridge_ip
in_file ovs_wrapper c = c.ovs_wrapper
in_file log_level c = c.log_level
in_file frr_prefix_list c = c.frr_prefix_list
in_file metrics_listen c = c.metrics_listen
in_file veth_provider_ip c = c.veth_provider_ip
in_file port_forward_dev c = c.port_forward_dev

abbrev pub in_flags : TextSetting → Flags → Option String
in_flags ovn_sb_remote c = c.ovn_sb_remote
in_flags ovn_nb_remote c = c.ovn_nb_remote
in_flags bridge_dev c = c.bridge_dev
in_flags vrf_name c = c.vrf_name
in_flags veth_nexthop c = c.veth_nexthop
in_flags gateway_port c = c.gateway_port
in_flags bridge_ip c = c.bridge_ip
in_flags ovs_wrapper c = c.ovs_wrapper
in_flags log_level c = c.log_level
in_flags frr_prefix_list c = c.frr_prefix_list
in_flags metrics_listen c = c.metrics_listen
in_flags veth_provider_ip c = c.veth_provider_ip
in_flags port_forward_dev c = c.port_forward_dev

-- The environment variable of a setting.
abbrev pub variable : TextSetting → String
variable ovn_sb_remote = "OVN_NETWORK_OVN_SB_REMOTE"
variable ovn_nb_remote = "OVN_NETWORK_OVN_NB_REMOTE"
variable bridge_dev = "OVN_NETWORK_BRIDGE_DEV"
variable vrf_name = "OVN_NETWORK_VRF_NAME"
variable veth_nexthop = "OVN_NETWORK_VETH_NEXTHOP"
variable gateway_port = "OVN_NETWORK_GATEWAY_PORT"
variable bridge_ip = "OVN_NETWORK_BRIDGE_IP"
variable ovs_wrapper = "OVN_NETWORK_OVS_WRAPPER"
variable log_level = "OVN_NETWORK_LOG_LEVEL"
variable frr_prefix_list = "OVN_NETWORK_FRR_PREFIX_LIST"
variable metrics_listen = "OVN_NETWORK_METRICS_LISTEN"
variable veth_provider_ip = "OVN_NETWORK_VETH_PROVIDER_IP"
variable port_forward_dev = "OVN_NETWORK_PORT_FORWARD_DEV"

-- A flag that is set wins; then a variable that is not empty, then an entry of the file that is not
-- empty, then the default.
abbrev pub first_set : Option String → String → String → String → String
first_set (some flag) env file default = flag
first_set none env file default = if env == "" then (if file == "" then default else file) else env

-- Whatever the file, the environment and the flags hold, each text setting has the value of the
-- highest layer that sets it: flag, then variable, then file, then default.
pub layered-first_set :
    (parse_duration scan_int : String → Option ℤ) (fc : FileConfig) (getenv : String → String)
    (fl : Flags) (t : TextSetting)
    → configured t (layered parse_duration scan_int (some fc) getenv fl)
      ≡ first_set (in_flags t fl) (getenv (variable t)) (in_file t fc) (configured t defaults)
unfolding layered
layered-first_set parse_duration scan_int fc getenv fl ovn_sb_remote = ground arith
layered-first_set parse_duration scan_int fc getenv fl ovn_nb_remote = ground arith
layered-first_set parse_duration scan_int fc getenv fl bridge_dev = ground arith
layered-first_set parse_duration scan_int fc getenv fl vrf_name = ground arith
layered-first_set parse_duration scan_int fc getenv fl veth_nexthop = ground arith
layered-first_set parse_duration scan_int fc getenv fl gateway_port = ground arith
layered-first_set parse_duration scan_int fc getenv fl bridge_ip = ground arith
layered-first_set parse_duration scan_int fc getenv fl ovs_wrapper = ground arith
layered-first_set parse_duration scan_int fc getenv fl log_level = ground arith
layered-first_set parse_duration scan_int fc getenv fl frr_prefix_list = ground arith
layered-first_set parse_duration scan_int fc getenv fl metrics_listen = ground arith
layered-first_set parse_duration scan_int fc getenv fl veth_provider_ip = ground arith
layered-first_set parse_duration scan_int fc getenv fl port_forward_dev = ground arith
