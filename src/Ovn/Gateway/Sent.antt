-- ===== src/Ovn/Gateway/Sent.antt =====
-- What the removal of managed entries in ovn_gateway.go sends, when every operation can be built.
use ovn_route_agent.Base.{
  String, Bool, true, false, ◌≡◌, inl, inr, refl, sym, Option, none, some, List, [], ◌∷◌, In, elem,
  lookup, if◌then◌else◌, Bool-cases, subst,
}
use ovn_route_agent.Ovn.Rows.{NbStaticRoute, NbStaticMacBinding, NbLogicalRouter}
use ovn_route_agent.Ovn.Gateway.Defs.{
  LocalRouterInfo, Op, delete_route, delete_binding, Txn, Database, M, pure, transact_ops,
}
use ovn_route_agent.Ovn.Gateway.Routing.{is_managed_route}
use ovn_route_agent.Ovn.Gateway.Managed.{
  EntryReads, read_routes, read_routers, read_bindings, with_list, removal, remove_route,
  remove_binding, uuids_of, ports_of, local_owner, remove_managed_routes, remove_bindings, on_port,
  remove_managed_nb_entries, is_stale, is_stale_binding, route_to_router, remove_stale_routes,
  has_stale_binding, cleanup_stale_chassis_managed_entries,
}

-- What was sent before is still among what has been sent.
abbrev Grows : M Bool → Type 0
Grows m = (txn : Txn) (h : List Txn) → In txn h → In txn (m h).1

module _ (db : Database) (builds : (op : Op) → db.builds op ≡ true) where
  remove_route-Grows :
      (route : NbStaticRoute) (o : Option NbLogicalRouter) → Grows (remove_route db route o)
  unfolding remove_route transact_ops
  remove_route-Grows route none txn h m = m
  remove_route-Grows route (some router) txn h m = rw (builds (delete_route route.uuid)) (inr m)

  remove_binding-Grows : (b : NbStaticMacBinding) → Grows (remove_binding db b)
  unfolding remove_binding transact_ops
  remove_binding-Grows b txn h m = rw (builds (delete_binding b.uuid)) (inr m)

  if-Grows : (b : Bool) (m : M Bool) → Grows m → Grows (if b then m else pure true)
  if-Grows true m grows txn h i = grows txn h i
  if-Grows false m grows txn h i = i

  remove_bindings-Grows :
      (selected : NbStaticMacBinding → Bool) (bs : List NbStaticMacBinding)
      → Grows (remove_bindings db selected bs)
  unfolding remove_bindings
  remove_bindings-Grows selected [] txn h m = m
  remove_bindings-Grows selected (b ∷ bs) txn h m =
      remove_bindings-Grows selected bs txn _
        (if-Grows (selected b) (remove_binding db b) (remove_binding-Grows b) txn h m)

  pub remove_bindings-In :
      (selected : NbStaticMacBinding → Bool) (bs : List NbStaticMacBinding) (b : NbStaticMacBinding)
      (h : List Txn)
      → In b bs
      → selected b ≡ true
      → In (delete_binding b.uuid ∷ []) (remove_bindings db selected bs h).1
  unfolding remove_bindings remove_binding transact_ops
  remove_bindings-In selected [] b h m s = absurd m
  remove_bindings-In selected (c ∷ bs) b h (inl e) s =
      remove_bindings-Grows selected bs (delete_binding b.uuid ∷ []) _ (
        subst
          (λ d.
            In (delete_binding b.uuid ∷ [])
              ((if selected d then remove_binding db d else pure true) h).1)
          e (rw (s, builds (delete_binding b.uuid)) (inl refl)))
  remove_bindings-In selected (c ∷ bs) b h (inr m) s = remove_bindings-In selected bs b _ m s

  remove_managed_routes-Grows :
      (local : List String) (routers : List NbLogicalRouter) (routes : List NbStaticRoute)
      → Grows (remove_managed_routes db local routers routes)
  unfolding remove_managed_routes
  remove_managed_routes-Grows local routers [] txn h m = m
  remove_managed_routes-Grows local routers (r ∷ rs) txn h m =
      remove_managed_routes-Grows local routers rs txn _ (
        if-Grows (is_managed_route r) (remove_route db r (local_owner local routers r))
          (remove_route-Grows r (local_owner local routers r)) txn h m)

  remove_managed_routes-In :
      (local : List String) (routers : List NbLogicalRouter) (routes : List NbStaticRoute)
      (route : NbStaticRoute) (router : NbLogicalRouter) (h : List Txn)
      → In route routes
      → is_managed_route route ≡ true
      → local_owner local routers route ≡ some router
      → In (removal router.uuid route.uuid) (remove_managed_routes db local routers routes h).1
  unfolding remove_managed_routes remove_route transact_ops
  remove_managed_routes-In local routers [] route router h m s o = absurd m
  remove_managed_routes-In local routers (r ∷ rs) route router h (inl e) s o =
      remove_managed_routes-Grows local routers rs (removal router.uuid route.uuid) _ (
        subst
          (λ d.
            In (removal router.uuid route.uuid)
              ((if is_managed_route d
                  then remove_route db d (local_owner local routers d)
                  else pure true)
                h).1)
          e (rw (s, o, builds (delete_route route.uuid)) (inl refl)))
  remove_managed_routes-In local routers (r ∷ rs) route router h (inr m) s o =
      remove_managed_routes-In local routers rs route router _ m s o

  remove_stale_routes-Grows :
      (stale : List String) (owners : List (String × NbLogicalRouter)) (routes : List NbStaticRoute)
      → Grows (remove_stale_routes db stale owners routes)
  unfolding remove_stale_routes
  remove_stale_routes-Grows stale owners [] txn h m = m
  remove_stale_routes-Grows stale owners (r ∷ rs) txn h m =
      remove_stale_routes-Grows stale owners rs txn _ (
        if-Grows (is_stale stale r) (remove_route db r (lookup r.uuid owners))
          (remove_route-Grows r (lookup r.uuid owners)) txn h m)

  remove_stale_routes-In :
      (stale : List String) (owners : List (String × NbLogicalRouter)) (routes : List NbStaticRoute)
      (route : NbStaticRoute) (router : NbLogicalRouter) (h : List Txn)
      → In route routes
      → is_stale stale route ≡ true
      → lookup route.uuid owners ≡ some router
      → In (removal router.uuid route.uuid) (remove_stale_routes db stale owners routes h).1
  unfolding remove_stale_routes remove_route transact_ops
  remove_stale_routes-In stale owners [] route router h m s o = absurd m
  remove_stale_routes-In stale owners (r ∷ rs) route router h (inl e) s o =
      remove_stale_routes-Grows stale owners rs (removal router.uuid route.uuid) _ (
        subst
          (λ d.
            In (removal router.uuid route.uuid)
              ((if is_stale stale d then remove_route db d (lookup d.uuid owners) else pure true)
                h).1)
          e (rw (s, o, builds (delete_route route.uuid)) (inl refl)))
  remove_stale_routes-In stale owners (r ∷ rs) route router h (inr m) s o =
      remove_stale_routes-In stale owners rs route router _ m s o

  with_list-In :
      {T : Type 0} (txn : Txn) (o : Option (List T)) (k : List T → M Bool) (rows : List T)
      (h : List Txn)
      → o ≡ some rows
      → In txn (k rows h).1
      → In txn (with_list o k h).1
  with_list-In txn o k rows h e m = subst (λ listed. In txn (with_list listed k h).1) (sym e) m

-- Where the operations can be built and the tables are read, the shutdown removes every managed
-- route that a local router holds, also one that carries another chassis' tag, and every MAC binding
-- on a local port, also one that no managed route explains.
pub remove_managed_nb_entries_complete :
    (db : Database) (reads : EntryReads) (lr : LocalRouterInfo) (lrs : List LocalRouterInfo)
    (routes : List NbStaticRoute) (routers : List NbLogicalRouter)
    (bindings : List NbStaticMacBinding)
    → ((op : Op) → db.builds op ≡ true)
    → read_routes reads ≡ some routes
    → read_routers reads ≡ some routers
    → ((h : List Txn) → read_bindings reads h ≡ some bindings)
    → ((route : NbStaticRoute) (router : NbLogicalRouter)
        → In route routes
        → is_managed_route route ≡ true
        → local_owner (uuids_of (lr ∷ lrs)) routers route ≡ some router
        → In (removal router.uuid route.uuid) (remove_managed_nb_entries db reads (lr ∷ lrs) []).1)
      × ((b : NbStaticMacBinding)
          → In b bindings
          → elem b.logical_port (ports_of (lr ∷ lrs)) ≡ true
          → In (delete_binding b.uuid ∷ []) (remove_managed_nb_entries db reads (lr ∷ lrs) []).1)
unfolding remove_managed_nb_entries
remove_managed_nb_entries_complete db reads lr lrs routes routers bindings builds eroutes erouters
      ebindings =
    let selected = on_port (ports_of (lr ∷ lrs)) in
    (
      (λ route router m s o. with_list-In db builds _ (read_routes reads) _ routes [] eroutes (
          with_list-In db builds _ (read_routers reads) _ routers [] erouters (
            with_list-In db builds _ (read_bindings reads _) _ bindings _ (ebindings _) (
              remove_bindings-Grows db builds selected bindings _ _ (
                remove_managed_routes-In db builds (uuids_of (lr ∷ lrs)) routers routes route router
                  [] m s o))))),
      (λ b m s. with_list-In db builds _ (read_routes reads) _ routes [] eroutes (
          with_list-In db builds _ (read_routers reads) _ routers [] erouters (
            with_list-In db builds _ (read_bindings reads _) _ bindings _ (ebindings _)
              (remove_bindings-In db builds selected bindings b _ m s)))),
    )

-- Where the operations can be built and the tables are read, the cleanup of stale chassis removes
-- every managed route with the tag of a stale chassis that a router holds.
pub cleanup_stale_complete :
    (db : Database) (reads : EntryReads) (stale : List String) (routes : List NbStaticRoute)
    (routers : List NbLogicalRouter) (bindings : List NbStaticMacBinding) (route : NbStaticRoute)
    (router : NbLogicalRouter)
    → ((op : Op) → db.builds op ≡ true)
    → read_routes reads ≡ some routes
    → read_routers reads ≡ some routers
    → ((h : List Txn) → read_bindings reads h ≡ some bindings)
    → In route routes
    → is_stale stale route ≡ true
    → lookup route.uuid (route_to_router routers []) ≡ some router
    → In
        (removal router.uuid route.uuid)
        (cleanup_stale_chassis_managed_entries db reads stale []).1
unfolding cleanup_stale_chassis_managed_entries
cleanup_stale_complete db reads stale routes routers bindings route router builds eroutes erouters
      ebindings m s o =
    let owners = route_to_router routers [] in
    let sent = remove_stale_routes-In db builds stale owners routes route router [] m s o in
    with_list-In db builds _ (read_routes reads) _ routes [] eroutes (
      with_list-In db builds _ (read_routers reads) _ routers [] erouters
        (elim (Bool-cases (has_stale_binding stale routes owners)) [
          | inl t ↦ rw t (
              with_list-In db builds _ (read_bindings reads _) _ bindings _ (ebindings _) (
                remove_bindings-Grows db builds (is_stale_binding stale routes owners) bindings _ _
                  sent))
          | inr f ↦ rw f sent
        ]))
