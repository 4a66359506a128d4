-- ===== src/Linux/Reverted.antt =====
-- What `TeardownPortForward` undertakes against what `SetupPortForward` and `ReconcilePortForward` do.
use ovn_route_agent.Base.{
  String, true, false, ◌≡◌, ◌⊎◌, inl, inr, refl, sym, subst, some, List, [], ◌∷◌, In, All, arith,
}
use ovn_route_agent.Net.{IpNet}
use ovn_route_agent.Config.{PortForwardVip}
use ovn_route_agent.Linux.Defs.{
  Manager, Link, Route, IpRule, Change, addr_replace, addr_del, route_replace, route_del, rule_add,
  rule_del, write_one, nft_delete_table, nft_load, Kernel, History, ok, call, link_by_name,
}
use ovn_route_agent.Linux.Host.{of_table}
use ovn_route_agent.Linux.Forward.{
  vip_addr, forward_rule, reply_rule, is_off, setup_port_forward, reconcile_port_forward,
  cleanup_dnat_routing, is_deleted, recording, remove_vips, teardown_port_forward,
}
use ovn_route_agent.Linux.Log.{AllOf, Made, if_else-eq, reading-eq}
use ovn_route_agent.Linux.Forwarding.{IsForwarding, setup-Forwarding, reconcile-Forwarding}
use ovn_route_agent.Linux.Teardown.{
  remove_vips-Made, remove_addresses, remove_addresses-Keeps, cleanup-Keeps, flush-Keeps,
  flush-Made,
}
use ovn_route_agent.Linux.Lasting.{Made-Lasts}

-- The opposite call has been made, whatever its outcome; the values of the `sysctl` files stay. A
-- route is set in the table of the replies, and each route that the listing of this table shows has
-- had its removal asked for.
abbrev pub Reverted : Manager → (dev : Link) → (listed : List Route) → History → Change → Type 0
Reverted rm dev listed sent (addr_replace link a) = Made (addr_del dev a) sent
Reverted rm dev listed sent (nft_load text) = Made nft_delete_table sent
Reverted rm dev listed sent (rule_add r) = Made (rule_del r) sent
Reverted rm dev listed sent (route_replace r) =
    (r.table ≡ rm.port_forward_table_id) × All (λ s. Made (route_del s) sent) listed
Reverted rm dev listed sent (write_one path) = Unit
Reverted rm dev listed sent _ = ⊥

module _ (k : Kernel) (rm : Manager) (dev : Link) (listed : List Route)
    (finds : (h : History) → k.links h rm.port_forward_dev ≡ some dev)
    (lists : (h : History) → k.routes h (of_table rm.port_forward_table_id) ≡ some listed) where
  abbrev started : History
  started = (nft_delete_table, k.outcome [] nft_delete_table) ∷ []

  abbrev torn_down : History
  torn_down = (remove_addresses k rm (cleanup_dnat_routing k rm started).1).1

  kept : (c : Change) → Made c (cleanup_dnat_routing k rm started).1 → Made c torn_down
  kept c = remove_addresses-Keeps k rm (Made c) (Made-Lasts c) (cleanup_dnat_routing k rm started).1

  rule_removed :
      (r : IpRule) → (r ≡ forward_rule) ⊎ (r ≡ reply_rule rm) → Made (rule_del r) torn_down
  rule_removed r (inl e) =
      subst (λ s. Made (rule_del s) torn_down) (sym e)
        (kept (rule_del forward_rule) (
          flush-Keeps k rm (Made (rule_del forward_rule)) started
            (Made-Lasts (rule_del forward_rule))
            (k.outcome started (rule_del forward_rule), inr (inl refl))))
  rule_removed r (inr e) =
      subst (λ s. Made (rule_del s) torn_down) (sym e)
        (kept (rule_del (reply_rule rm)) (
          flush-Keeps k rm (Made (rule_del (reply_rule rm))) started
            (Made-Lasts (rule_del (reply_rule rm)))
            (
              k.outcome
                  ((rule_del forward_rule, k.outcome started (rule_del forward_rule)) ∷ started)
                  (rule_del (reply_rule rm)),
              inl refl,
            )))

  address_removed :
      (pf : PortForwardVip)
      → In pf rm.port_forwards
      → pf.manage_vip ≡ true
      → Made (addr_del dev (vip_addr pf)) torn_down
  address_removed pf i managed =
      let h = (cleanup_dnat_routing k rm started).1 in
      subst (λ r. Made (addr_del dev (vip_addr pf)) r.1)
        (sym (
          reading-eq (link_by_name k rm.port_forward_dev) ok
            (λ link. remove_vips k link rm.port_forwards) dev h (finds h)))
        (remove_vips-Made k dev rm.port_forwards h pf i managed)

  routes_removed :
      (rs : List Route)
      → All (λ s. Made (route_del s) (cleanup_dnat_routing k rm started).1) rs
      → All (λ s. Made (route_del s) torn_down) rs
  routes_removed [] all = tt
  routes_removed (r ∷ rs) (made, all) = (kept (route_del r) made, routes_removed rs all)

  Reverted-change : (c : Change) → IsForwarding rm c → Reverted rm dev listed torn_down c
  Reverted-change (addr_replace link a) (pf, i, managed, e) = rw e (address_removed pf i managed)
  Reverted-change (nft_load text) f = kept nft_delete_table (
      cleanup-Keeps k rm (Made nft_delete_table) (Made-Lasts nft_delete_table) started
        (k.outcome [] nft_delete_table, inl refl))
  Reverted-change (write_one path) f = tt
  Reverted-change (rule_add r) f = rule_removed r f
  Reverted-change (route_replace r) f =
      (f, routes_removed listed (flush-Made k rm listed started lists))
  Reverted-change _ f = absurd f

  Reverted-all :
      (h : History) → AllOf (IsForwarding rm) h → AllOf (Reverted rm dev listed torn_down) h
  Reverted-all [] all = tt
  Reverted-all (e ∷ h) (f, all) = (Reverted-change e.0 f, Reverted-all h all)

-- Where port forwarding is enabled and outside dry-run mode, let a later teardown find the device of
-- the VIPs and list the routes of the table of the replies. Then it makes the opposite call for each
-- change that `SetupPortForward` or `ReconcilePortForward` has asked for, whatever these found,
-- whichever calls fail and whatever the opposite calls return: it asks for the removal of each address
-- that they set on the device, of the nftables table and of each rule that they added; each route that
-- they set lies in the table of the replies, and it asks for the removal of every route that the
-- listing of this table shows; the values of `sysctl` files stay.
pub teardown_port_forward-Reverted :
    (before after : Kernel) (rm : Manager) (networks : List IpNet) (snat_ips : List String)
    (dev : Link) (listed : List Route)
    → rm.port_forward_enabled ≡ true
    → rm.dry_run ≡ false
    → ((h : History) → after.links h rm.port_forward_dev ≡ some dev)
    → ((h : History) → after.routes h (of_table rm.port_forward_table_id) ≡ some listed)
    → let reverted = Reverted rm dev listed (teardown_port_forward after rm []).1 in
      AllOf reverted (setup_port_forward before rm []).1
      × AllOf reverted (reconcile_port_forward before rm networks snat_ips []).1
unfolding teardown_port_forward
teardown_port_forward-Reverted before after rm networks snat_ips dev listed enabled wet finds
      lists =
    subst
      (λ r.
        AllOf (Reverted rm dev listed r.1) (setup_port_forward before rm []).1
        × AllOf (Reverted rm dev listed r.1)
            (reconcile_port_forward before rm networks snat_ips []).1)
      (sym (
        if_else-eq (is_off rm) ok
          (recording (call after is_deleted nft_delete_table)
            (recording (cleanup_dnat_routing after rm) (remove_addresses after rm)))
          [] (ground (arith, enabled, wet))))
      (
        Reverted-all after rm dev listed finds lists (setup_port_forward before rm []).1
            (setup-Forwarding before rm [] tt),
        Reverted-all after rm dev listed finds lists
            (reconcile_port_forward before rm networks snat_ips []).1
            (reconcile-Forwarding before rm networks snat_ips [] tt),
      )
