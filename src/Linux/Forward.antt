-- ===== src/Linux/Forward.antt =====
-- The port forwarding of nftables_linux.go.
use Prim.Native.String.{◌++◌ as ◌+++◌}
use ovn_route_agent.Base.{
  pos, String, Bool, true, false, not, ◌&&◌, ◌||◌, none, some, List, [], ◌∷◌, contains_text,
  if◌then◌else◌,
}
use ovn_route_agent.Net.{v4, IpNet, parse_ip}
use ovn_route_agent.Config.{PortForwardVip}
use ovn_route_agent.Nft.Rules.{
  nft_table_name, veth_default_name, veth_provider_name, dnat_fwmark, dnat_reply_fwmark,
}
use ovn_route_agent.Nft.Chains.{build_nft_ruleset}
use ovn_route_agent.Linux.Defs.{
  Manager, Link, Route, IpRule, Addr, addr_replace, addr_del, route_replace, rule_add, rule_del,
  write_one, nft_delete_table, nft_load, Outcome, done, failed, Kernel, Method, ok, fail, ◌>>◌,
  call, must, attempt, is_done_or_exists, reading, link_by_name, sysctl_path,
}
use ovn_route_agent.Linux.Host.{remove_routes, of_table}

abbrev pub vip_addr : PortForwardVip → Addr
vip_addr pf = record { ip = parse_ip pf.vip; prefix = 32 }

unfoldable pub replace_vips : Kernel → Link → List PortForwardVip → Method
unfolding parse_ip
replace_vips k link [] = ok
replace_vips k link (pf ∷ pfs) =
    (if pf.manage_vip then must k (addr_replace link (vip_addr pf)) else ok)
    >> replace_vips k link pfs

-- `reconcilePortForwardVIPs`
unfoldable pub reconcile_port_forward_vips : Kernel → Manager → Method
unfolding replace_vips
reconcile_port_forward_vips k rm =
    reading (link_by_name k rm.port_forward_dev) fail λ link. replace_vips k link rm.port_forwards

-- `applyNftRuleset`: one input, that deletes the table first where it is listed.
unfoldable pub nft_input : (exists : Bool) → (rules : String) → String
nft_input true rules = "delete table ip " +++ (nft_table_name +++ ("\n" +++ rules))
nft_input false rules = rules

unfoldable pub apply_nft_ruleset : Kernel → Manager → List IpNet → (snat_ips : List String) → Method
unfolding build_nft_ruleset nft_input
apply_nft_ruleset k rm networks snat_ips h =
    must k
      (nft_load (
        nft_input (k.lists_table h)
          (build_nft_ruleset rm.port_forwards networks snat_ips rm.port_forward_ct_zone)))
      h

unfoldable pub write_all : Kernel → List String → Method
write_all k [] = ok
write_all k (path ∷ paths) = must k (write_one path) >> write_all k paths

abbrev pub forwarding_paths : List String
forwarding_paths =
    sysctl_path veth_default_name "forwarding" ∷ sysctl_path veth_provider_name "forwarding" ∷ []

abbrev pub accept_paths : Manager → List String
accept_paths rm =
    sysctl_path veth_provider_name "accept_local"
    ∷ (if rm.port_forward_l3mdev_accept
        then "/proc/sys/net/ipv4/udp_l3mdev_accept" ∷ "/proc/sys/net/ipv4/tcp_l3mdev_accept" ∷ []
        else [])

-- `ensureVethForwarding`
unfoldable pub ensure_veth_forwarding : Kernel → Manager → Method
unfolding write_all
ensure_veth_forwarding k rm =
    write_all k forwarding_paths
    >> (if rm.port_forward_enabled then write_all k (accept_paths rm) else ok)

-- `fwdRule`, with `rtTableMain` and `dnatFwmarkPriority`
abbrev pub forward_rule : IpRule
forward_rule = record {
  src = none;
  dst = none;
  table = pos 254;
  priority = pos 150;
  mark = some (dnat_fwmark, dnat_fwmark);
}

-- `replyRule`, with `dnatReplyPriority`
abbrev pub reply_rule : Manager → IpRule
reply_rule rm = record {
  src = none;
  dst = none;
  table = rm.port_forward_table_id;
  priority = pos 151;
  mark = some (dnat_reply_fwmark, dnat_reply_fwmark);
}

abbrev pub reply_route : Manager → Link → Route
reply_route rm link = record {
  link_index = link.index;
  dst = some (record { ip = v4 0; ones = 0; bits = 32 });
  gw = parse_ip rm.veth_provider_ip;
  scope_link = false;
  table = rm.port_forward_table_id;
  protocol = 0;
}

-- `ensureDNATRouting`
unfoldable pub ensure_dnat_routing : Kernel → Manager → Method
unfolding parse_ip
ensure_dnat_routing k rm =
    call k is_done_or_exists (rule_add forward_rule)
    >> call k is_done_or_exists (rule_add (reply_rule rm))
    >> reading (link_by_name k veth_default_name) fail
        λ link. must k (route_replace (reply_route rm link))

abbrev pub is_off : Manager → Bool
is_off rm = not rm.port_forward_enabled || rm.dry_run

-- `SetupPortForward`
unfoldable pub setup_port_forward : Kernel → Manager → Method
unfolding reconcile_port_forward_vips apply_nft_ruleset ensure_veth_forwarding ensure_dnat_routing
setup_port_forward k rm =
    if is_off rm
    then ok
    else if not k.has_nft
    then fail
    else reconcile_port_forward_vips k rm
      >> apply_nft_ruleset k rm [] []
      >> ensure_veth_forwarding k rm
      >> ensure_dnat_routing k rm

-- `ReconcilePortForward`
unfoldable pub reconcile_port_forward :
    Kernel → Manager → List IpNet → (snat_ips : List String) → Method
unfolding reconcile_port_forward_vips apply_nft_ruleset ensure_dnat_routing
reconcile_port_forward k rm networks snat_ips =
    if is_off rm
    then ok
    else reconcile_port_forward_vips k rm
      >> apply_nft_ruleset k rm networks snat_ips
      >> ensure_dnat_routing k rm

-- `cleanupDNATRouting`
unfoldable pub cleanup_dnat_routing : Kernel → Manager → Method
unfolding remove_routes
cleanup_dnat_routing k rm =
    attempt k (rule_del forward_rule)
    >> attempt k (rule_del (reply_rule rm))
    >> reading (λ h. k.routes h (of_table rm.port_forward_table_id)) ok (remove_routes k)

-- An error of `nft delete table` that says that the table is missing is none.
unfoldable pub is_deleted : Outcome → Bool
unfolding contains_text
is_deleted done = true
is_deleted (failed exists text) =
    contains_text text "No such file" || contains_text text "does not exist"

-- Both parts, whatever the first one returns; the error is recorded (`recordErr`).
abbrev pub recording : Method → Method → Method
recording first rest h = let (b, h') = first h in let (c, h'') = rest h' in (b && c, h'')

unfoldable pub remove_vips : Kernel → Link → List PortForwardVip → Method
unfolding parse_ip
remove_vips k link [] = ok
remove_vips k link (pf ∷ pfs) =
    recording (if pf.manage_vip then must k (addr_del link (vip_addr pf)) else ok)
      (remove_vips k link pfs)

-- `TeardownPortForward`
unfoldable pub teardown_port_forward : Kernel → Manager → Method
unfolding cleanup_dnat_routing remove_vips is_deleted
teardown_port_forward k rm =
    if is_off rm
    then ok
    else recording (call k is_deleted nft_delete_table) (
        recording (cleanup_dnat_routing k rm) (
          reading (link_by_name k rm.port_forward_dev) ok
            λ link. remove_vips k link rm.port_forwards))
