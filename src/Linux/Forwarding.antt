-- ===== src/Linux/Forwarding.antt =====
-- What `SetupPortForward` and `ReconcilePortForward` may do.
use ovn_route_agent.Base.{String, true, not, ◌≡◌, ◌⊎◌, inl, inr, refl, List, [], ◌∷◌, In}
use ovn_route_agent.Net.{IpNet}
use ovn_route_agent.Config.{PortForwardVip}
use ovn_route_agent.Nft.Rules.{veth_default_name}
use ovn_route_agent.Linux.Defs.{
  Manager, Link, Change, addr_replace, route_replace, rule_add, write_one, nft_load, Kernel,
  History, ok, fail, call, must, is_done, is_done_or_exists, link_by_name,
}
use ovn_route_agent.Linux.Forward.{
  vip_addr, replace_vips, reconcile_port_forward_vips, apply_nft_ruleset, write_all,
  ensure_veth_forwarding, forwarding_paths, accept_paths, forward_rule, reply_rule, reply_route,
  ensure_dnat_routing, is_off, setup_port_forward, reconcile_port_forward,
}
use ovn_route_agent.Linux.Log.{
  Keeps, >>-Keeps, if-Keeps, ok-Keeps, fail-Keeps, reading-Keeps, AllOf, call-AllOf,
}

-- What the set-up of port forwarding may do.
abbrev pub IsForwarding : Manager → Change → Type 0
IsForwarding rm (addr_replace link a) =
    (pf : PortForwardVip) × In pf rm.port_forwards × (pf.manage_vip ≡ true) × (a ≡ vip_addr pf)
IsForwarding rm (nft_load text) = Unit
IsForwarding rm (write_one path) = Unit
IsForwarding rm (rule_add r) = (r ≡ forward_rule) ⊎ (r ≡ reply_rule rm)
IsForwarding rm (route_replace r) = r.table ≡ rm.port_forward_table_id
IsForwarding rm _ = ⊥

module _ (k : Kernel) (rm : Manager) where
  abbrev Forwarding : History → Type 0
  Forwarding = AllOf (IsForwarding rm)

  replace_vips-Forwarding :
      (link : Link) (pfs : List PortForwardVip)
      → ((pf : PortForwardVip) → In pf pfs → In pf rm.port_forwards)
      → Keeps Forwarding (replace_vips k link pfs)
  unfolding replace_vips
  replace_vips-Forwarding link [] f = ok-Keeps Forwarding
  replace_vips-Forwarding link (pf ∷ pfs) f =
      >>-Keeps Forwarding _ (replace_vips k link pfs)
        (if-Keeps Forwarding pf.manage_vip (must k (addr_replace link (vip_addr pf))) ok
          (λ e.
            call-AllOf (IsForwarding rm) k is_done (addr_replace link (vip_addr pf))
              (pf, f pf (inl refl), e, refl))
          (λ e. ok-Keeps Forwarding))
        (replace_vips-Forwarding link pfs (λ qf i. f qf (inr i)))

  vips-Forwarding : Keeps Forwarding (reconcile_port_forward_vips k rm)
  unfolding reconcile_port_forward_vips
  vips-Forwarding =
      reading-Keeps Forwarding (link_by_name k rm.port_forward_dev) fail
        (λ link. replace_vips k link rm.port_forwards) (fail-Keeps Forwarding)
        (λ link h e. replace_vips-Forwarding link rm.port_forwards (λ pf i. i) h)

  ruleset-Forwarding :
      (networks : List IpNet) (snat_ips : List String)
      → Keeps Forwarding (apply_nft_ruleset k rm networks snat_ips)
  unfolding apply_nft_ruleset
  ruleset-Forwarding networks snat_ips h i = (tt, i)

  write_all-Forwarding : (paths : List String) → Keeps Forwarding (write_all k paths)
  unfolding write_all
  write_all-Forwarding [] = ok-Keeps Forwarding
  write_all-Forwarding (path ∷ paths) =
      >>-Keeps Forwarding (must k (write_one path)) (write_all k paths)
        (call-AllOf (IsForwarding rm) k is_done (write_one path) tt) (write_all-Forwarding paths)

  sysctls-Forwarding : Keeps Forwarding (ensure_veth_forwarding k rm)
  unfolding ensure_veth_forwarding
  sysctls-Forwarding =
      >>-Keeps Forwarding (write_all k forwarding_paths) _ (write_all-Forwarding forwarding_paths) (
        if-Keeps Forwarding rm.port_forward_enabled (write_all k (accept_paths rm)) ok
          (λ e. write_all-Forwarding (accept_paths rm)) (λ e. ok-Keeps Forwarding))

  routing-Forwarding : Keeps Forwarding (ensure_dnat_routing k rm)
  unfolding ensure_dnat_routing
  routing-Forwarding =
      >>-Keeps Forwarding (call k is_done_or_exists (rule_add forward_rule)) _
        (call-AllOf (IsForwarding rm) k is_done_or_exists (rule_add forward_rule) (inl refl))
        (>>-Keeps Forwarding (call k is_done_or_exists (rule_add (reply_rule rm))) _
          (call-AllOf (IsForwarding rm) k is_done_or_exists (rule_add (reply_rule rm)) (inr refl))
          (reading-Keeps Forwarding (link_by_name k veth_default_name) fail
            (λ link. must k (route_replace (reply_route rm link))) (fail-Keeps Forwarding)
            (λ link h e.
              call-AllOf (IsForwarding rm) k is_done (route_replace (reply_route rm link)) refl h)))

  pub setup-Forwarding : Keeps Forwarding (setup_port_forward k rm)
  unfolding setup_port_forward
  setup-Forwarding =
      if-Keeps Forwarding (is_off rm) ok _ (λ e. ok-Keeps Forwarding)
        λ e.
          if-Keeps Forwarding (not k.has_nft) fail _ (λ e. fail-Keeps Forwarding)
            λ e. >>-Keeps Forwarding (reconcile_port_forward_vips k rm) _ vips-Forwarding (
              >>-Keeps Forwarding (apply_nft_ruleset k rm [] []) _ (ruleset-Forwarding [] []) (
                >>-Keeps Forwarding (ensure_veth_forwarding k rm) (ensure_dnat_routing k rm)
                  sysctls-Forwarding routing-Forwarding))

  pub reconcile-Forwarding :
      (networks : List IpNet) (snat_ips : List String)
      → Keeps Forwarding (reconcile_port_forward k rm networks snat_ips)
  unfolding reconcile_port_forward
  reconcile-Forwarding networks snat_ips =
      if-Keeps Forwarding (is_off rm) ok _ (λ e. ok-Keeps Forwarding)
        λ e. >>-Keeps Forwarding (reconcile_port_forward_vips k rm) _ vips-Forwarding (
          >>-Keeps Forwarding (apply_nft_ruleset k rm networks snat_ips) (ensure_dnat_routing k rm)
            (ruleset-Forwarding networks snat_ips) routing-Forwarding)
