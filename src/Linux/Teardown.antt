-- ===== src/Linux/Teardown.antt =====
-- The parts of `TeardownPortForward`: what they do and what they keep.
use ovn_route_agent.Base.{
  true, ◌≡◌, inl, inr, refl, sym, subst, some, List, [], ◌∷◌, In, All, if◌then◌else◌,
}
use ovn_route_agent.Config.{PortForwardVip}
use ovn_route_agent.Linux.Defs.{
  Manager, Link, Route, addr_del, route_del, rule_del, Kernel, History, Method, ok, ◌>>◌, must,
  attempt, is_done, any_outcome, reading, link_by_name,
}
use ovn_route_agent.Linux.Host.{remove_routes, of_table}
use ovn_route_agent.Linux.Forward.{
  vip_addr, forward_rule, reply_rule, cleanup_dnat_routing, recording, remove_vips,
}
use ovn_route_agent.Linux.Log.{Keeps, >>-Keeps, if-Keeps, ok-Keeps, reading-Keeps, Made, reading-eq}
use ovn_route_agent.Linux.Lasting.{Lasts, Made-Lasts, call-Keeps}

recording-Keeps :
    (I : History → Type 0) (first rest : Method)
    → Keeps I first
    → Keeps I rest
    → Keeps I (recording first rest)
recording-Keeps I first rest f r h i = r (first h).1 (f h i)

module _ (I : History → Type 0) (lasts : Lasts I) (k : Kernel) where
  remove_routes-Keeps : (rs : List Route) → Keeps I (remove_routes k rs)
  unfolding remove_routes
  remove_routes-Keeps [] = ok-Keeps I
  remove_routes-Keeps (r ∷ rs) =
      >>-Keeps I (attempt k (route_del r)) (remove_routes k rs)
        (call-Keeps I lasts k any_outcome (route_del r)) (remove_routes-Keeps rs)

  remove_vips-Keeps : (link : Link) (pfs : List PortForwardVip) → Keeps I (remove_vips k link pfs)
  unfolding remove_vips
  remove_vips-Keeps link [] = ok-Keeps I
  remove_vips-Keeps link (pf ∷ pfs) =
      recording-Keeps I (if pf.manage_vip then must k (addr_del link (vip_addr pf)) else ok)
        (remove_vips k link pfs)
        (if-Keeps I pf.manage_vip (must k (addr_del link (vip_addr pf))) ok
          (λ e. call-Keeps I lasts k is_done (addr_del link (vip_addr pf))) (λ e. ok-Keeps I))
        (remove_vips-Keeps link pfs)

remove_routes-Made :
    (k : Kernel) (rs : List Route) (h : History)
    → All (λ r. Made (route_del r) (remove_routes k rs h).1) rs
unfolding remove_routes
remove_routes-Made k [] h = tt
remove_routes-Made k (r ∷ rs) h =
    let h' = (route_del r, k.outcome h (route_del r)) ∷ h in
    (
      remove_routes-Keeps (Made (route_del r)) (Made-Lasts (route_del r)) k rs h'
          (k.outcome h (route_del r), inl refl),
      remove_routes-Made k rs h',
    )

pub remove_vips-Made :
    (k : Kernel) (link : Link) (pfs : List PortForwardVip) (h : History) (pf : PortForwardVip)
    → In pf pfs
    → pf.manage_vip ≡ true
    → Made (addr_del link (vip_addr pf)) (remove_vips k link pfs h).1
unfolding remove_vips
remove_vips-Made k link [] h pf i managed = absurd i
remove_vips-Made k link (qf ∷ pfs) h pf i managed =
    let step = if qf.manage_vip then must k (addr_del link (vip_addr qf)) else ok in
    let I = Made (addr_del link (vip_addr pf)) in
    elim i [
      | inl e ↦
          remove_vips-Keeps I (Made-Lasts (addr_del link (vip_addr pf))) k link pfs (step h).1
            (here e)
      | inr j ↦ remove_vips-Made k link pfs (step h).1 pf j managed
    ]
  where
    here :
        pf ≡ qf
        → Made
            (addr_del link (vip_addr pf))
            ((if qf.manage_vip then must k (addr_del link (vip_addr qf)) else ok) h).1
    here e =
        subst
          (λ q.
            Made (addr_del link (vip_addr pf))
              ((if q.manage_vip then must k (addr_del link (vip_addr q)) else ok) h).1)
          e
          (subst
            (λ b.
              Made (addr_del link (vip_addr pf))
                ((if b then must k (addr_del link (vip_addr pf)) else ok) h).1)
            (sym managed) (k.outcome h (addr_del link (vip_addr pf)), inl refl))

module _ (k : Kernel) (rm : Manager) where
  abbrev pub remove_addresses : Method
  remove_addresses =
      reading (link_by_name k rm.port_forward_dev) ok λ link. remove_vips k link rm.port_forwards

  pub remove_addresses-Keeps : (I : History → Type 0) → Lasts I → Keeps I remove_addresses
  remove_addresses-Keeps I lasts =
      reading-Keeps I (link_by_name k rm.port_forward_dev) ok
        (λ link. remove_vips k link rm.port_forwards) (ok-Keeps I)
        (λ link h e. remove_vips-Keeps I lasts k link rm.port_forwards h)

  abbrev flush : Method
  flush = reading (λ h. k.routes h (of_table rm.port_forward_table_id)) ok (remove_routes k)

  pub cleanup-Keeps : (I : History → Type 0) → Lasts I → Keeps I (cleanup_dnat_routing k rm)
  unfolding cleanup_dnat_routing
  cleanup-Keeps I lasts =
      >>-Keeps I (attempt k (rule_del forward_rule)) (attempt k (rule_del (reply_rule rm)) >> flush)
        (call-Keeps I lasts k any_outcome (rule_del forward_rule))
        (>>-Keeps I (attempt k (rule_del (reply_rule rm))) flush
          (call-Keeps I lasts k any_outcome (rule_del (reply_rule rm)))
          (reading-Keeps I (λ h. k.routes h (of_table rm.port_forward_table_id)) ok
            (remove_routes k) (ok-Keeps I) (λ rs h e. remove_routes-Keeps I lasts k rs h)))

  -- The log of the clean-up of the rules, up to the routes.
  abbrev pub rules_removed : History → History
  rules_removed h =
      let h' = (rule_del forward_rule, k.outcome h (rule_del forward_rule)) ∷ h in
      (rule_del (reply_rule rm), k.outcome h' (rule_del (reply_rule rm))) ∷ h'

  pub flush-Keeps :
      (I : History → Type 0) (h : History)
      → Lasts I
      → I (rules_removed h)
      → I (cleanup_dnat_routing k rm h).1
  unfolding cleanup_dnat_routing
  flush-Keeps I h lasts i =
      reading-Keeps I (λ h. k.routes h (of_table rm.port_forward_table_id)) ok (remove_routes k)
        (ok-Keeps I) (λ rs g e. remove_routes-Keeps I lasts k rs g) (rules_removed h) i

  pub flush-Made :
      (listed : List Route) (h : History)
      → ((h : History) → k.routes h (of_table rm.port_forward_table_id) ≡ some listed)
      → All (λ s. Made (route_del s) (cleanup_dnat_routing k rm h).1) listed
  unfolding cleanup_dnat_routing
  flush-Made listed h lists =
      subst (λ r. All (λ s. Made (route_del s) r.1) listed)
        (sym (
          reading-eq (λ h. k.routes h (of_table rm.port_forward_table_id)) ok (remove_routes k)
            listed (rules_removed h) (lists (rules_removed h))))
        (remove_routes-Made k listed (rules_removed h))
