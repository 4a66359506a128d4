-- ===== src/Ovn/Gateway/Removing.antt =====
-- The steps of the removal in ovn_gateway.go add only transactions with a given property.
use ovn_route_agent.Base.{
  String, Bool, true, false, ◌≡◌, inl, inr, refl, sym, Option, none, some, List, [], ◌∷◌, All, In,
  lookup, if◌then◌else◌, Bool-cases, subst,
}
use ovn_route_agent.Ovn.Rows.{NbStaticRoute, NbStaticMacBinding, NbLogicalRouter}
use ovn_route_agent.Ovn.Gateway.Defs.{
  delete_route, delete_binding, Txn, Database, M, pure, transact_ops,
}
use ovn_route_agent.Ovn.Gateway.Routing.{is_managed_route}
use ovn_route_agent.Ovn.Gateway.Managed.{
  with_list, removal, remove_route, remove_binding, local_owner, remove_managed_routes,
  remove_bindings, is_stale, remove_stale_routes,
}

-- The writer adds only transactions with a property.
abbrev pub Keeps : (Txn → Type 0) → M Bool → Type 0
Keeps P m = (h : List Txn) → All P h → All P (m h).1

module _ (P : Txn → Type 0) (db : Database) where
  remove_route-Keeps :
      (route : NbStaticRoute) (o : Option NbLogicalRouter)
      → ((router : NbLogicalRouter) → o ≡ some router → P (removal router.uuid route.uuid))
      → Keeps P (remove_route db route o)
  unfolding remove_route transact_ops
  remove_route-Keeps route none allowed h kept = kept
  remove_route-Keeps route (some router) allowed h kept =
      elim (Bool-cases (db.builds (delete_route route.uuid))) [
        | inl e ↦ rw e (allowed router refl, kept)
        | inr e ↦ rw e kept
      ]

  remove_binding-Keeps :
      (b : NbStaticMacBinding) → P (delete_binding b.uuid ∷ []) → Keeps P (remove_binding db b)
  unfolding remove_binding transact_ops
  remove_binding-Keeps b allowed h kept = elim (Bool-cases (db.builds (delete_binding b.uuid))) [
    | inl e ↦ rw e (allowed, kept)
    | inr e ↦ rw e kept
  ]

  if-Keeps : (b : Bool) (m : M Bool) → (b ≡ true → Keeps P m) → Keeps P (if b then m else pure true)
  if-Keeps true m keeps h kept = keeps refl h kept
  if-Keeps false m keeps h kept = kept

  pub remove_bindings-Keeps :
      (selected : NbStaticMacBinding → Bool) (bs : List NbStaticMacBinding)
      → ((b : NbStaticMacBinding) → In b bs → selected b ≡ true → P (delete_binding b.uuid ∷ []))
      → Keeps P (remove_bindings db selected bs)
  unfolding remove_bindings
  remove_bindings-Keeps selected [] allowed h kept = kept
  remove_bindings-Keeps selected (b ∷ bs) allowed h kept =
      remove_bindings-Keeps selected bs (λ c m. allowed c (inr m)) _
        (if-Keeps (selected b) (remove_binding db b)
          (λ e. remove_binding-Keeps b (allowed b (inl refl) e)) h kept)

  pub remove_managed_routes-Keeps :
      (local : List String) (routers : List NbLogicalRouter) (routes : List NbStaticRoute)
      → ((route : NbStaticRoute) (router : NbLogicalRouter)
          → In route routes
          → is_managed_route route ≡ true
          → local_owner local routers route ≡ some router
          → P (removal router.uuid route.uuid))
      → Keeps P (remove_managed_routes db local routers routes)
  unfolding remove_managed_routes
  remove_managed_routes-Keeps local routers [] allowed h kept = kept
  remove_managed_routes-Keeps local routers (r ∷ rs) allowed h kept =
      remove_managed_routes-Keeps local routers rs (λ route router m. allowed route router (inr m))
        _
        (if-Keeps (is_managed_route r) (remove_route db r (local_owner local routers r))
          (λ e.
            remove_route-Keeps r (local_owner local routers r)
              (λ router. allowed r router (inl refl) e))
          h kept)

  pub remove_stale_routes-Keeps :
      (stale : List String) (owners : List (String × NbLogicalRouter)) (routes : List NbStaticRoute)
      → ((route : NbStaticRoute) (router : NbLogicalRouter)
          → In route routes
          → is_stale stale route ≡ true
          → lookup route.uuid owners ≡ some router
          → P (removal router.uuid route.uuid))
      → Keeps P (remove_stale_routes db stale owners routes)
  unfolding remove_stale_routes
  remove_stale_routes-Keeps stale owners [] allowed h kept = kept
  remove_stale_routes-Keeps stale owners (r ∷ rs) allowed h kept =
      remove_stale_routes-Keeps stale owners rs (λ route router m. allowed route router (inr m)) _
        (if-Keeps (is_stale stale r) (remove_route db r (lookup r.uuid owners))
          (λ e.
            remove_route-Keeps r (lookup r.uuid owners) (λ router. allowed r router (inl refl) e))
          h kept)

  pub with_list-Keeps :
      {T : Type 0} (o : Option (List T)) (k : List T → M Bool)
      → ((rows : List T) → o ≡ some rows → Keeps P (k rows))
      → Keeps P (with_list o k)
  with_list-Keeps none k keeps h kept = kept
  with_list-Keeps (some rows) k keeps h kept = keeps rows refl h kept

  -- The listing is known.
  pub with_known-Keeps :
      {T : Type 0} (o : Option (List T)) (k : List T → M Bool) (rows : List T)
      → o ≡ some rows
      → Keeps P (k rows)
      → Keeps P (with_list o k)
  with_known-Keeps o k rows e keeps h kept =
      subst (λ listed. All P (with_list listed k h).1) (sym e) (keeps h kept)
