-- ===== src/Ovn/Gateway/Untouched.antt =====
-- Which rows `EnsureGatewayRouting` of ovn_gateway.go may write.
use mathlib.Core.Option.{some-injective}
use ovn_route_agent.Base.{
  String, Bool, true, false, ◌&&◌, ◌≡◌, refl, sym, ap, ◌∙◌, Option, none, some, List, [], ◌∷◌, ◌==◌,
  All, In, find, if◌then◌else◌, Bool-cases, inl, inr,
}
use ovn_route_agent.Net.{Ip, ip_text}
use ovn_route_agent.Ovn.Rows.{NbStaticRoute, NbStaticMacBinding, NbLogicalRouter}
use ovn_route_agent.Ovn.Gateway.Defs.{
  LocalRouterInfo, Op, set_route_chassis, set_route_target, insert_route, link_route,
  set_binding_mac, insert_binding, Txn, Database, transact_ops,
}
use ovn_route_agent.Ovn.Gateway.Routing.{
  is_managed_route, chassis_tag, NbCache, write_op, default_route, route_ops, write_ops,
  ensure_route_of, with_rows, ensure_default_route, binding_ops, ensure_static_mac_binding,
  then_binding, ensure_router, ensure_gateway_routing, virtual_gateway_ip,
}
use ovn_route_agent.Ovn.Gateway.Removing.{Keeps}

find-In : {A : Type 0} (p : A → Bool) (xs : List A) → (x : A) → find p xs ≡ some x → In x xs
unfolding find
find-In p [] x e = cc
find-In p (y ∷ ys) x e = elim (Bool-cases (p y)) [
  | inl t ↦ inl (sym (some-injective y x (ap (λ b. if b then some y else find p ys) (sym t) ∙ e)))
  | inr f ↦ inr (find-In p ys x (ap (λ b. if b then some y else find p ys) (sym f) ∙ e))
]

module _ (cache : NbCache) (here mac : String) where
  -- The cache listed a route with this uuid, and it is managed.
  abbrev pub ListedManaged : String → Type 0
  ListedManaged uuid =
      (h : List Txn) × (routes : List NbStaticRoute) × (route : NbStaticRoute)
      × (cache.static_routes h ≡ some routes)
      × In route routes
      × (is_managed_route route ≡ true)
      × (uuid ≡ route.uuid)

  -- Updates of managed routes, new routes with this chassis' tag, and bindings to this MAC.
  abbrev pub Allowed : Op → Type 0
  Allowed (set_route_chassis uuid chassis) = ListedManaged uuid × (chassis ≡ here)
  Allowed (set_route_target uuid nexthop port chassis) = ListedManaged uuid × (chassis ≡ here)
  Allowed (insert_route nexthop port chassis) = chassis ≡ here
  Allowed (link_route router route) = route ≡ "new_route"
  Allowed (set_binding_mac binding m) = m ≡ mac
  Allowed (insert_binding port ip m) = m ≡ mac
  Allowed _ = ⊥

  abbrev pub AllowedTxn : Txn → Type 0
  AllowedTxn txn = All Allowed txn

  module _ (db : Database) where
    write_ops-Keeps : (ops : Txn) → AllowedTxn ops → Keeps AllowedTxn (write_ops db ops)
    unfolding write_ops write_op transact_ops
    write_ops-Keeps [] allowed h kept = kept
    write_ops-Keeps (op ∷ ops) allowed h kept = elim (Bool-cases (db.builds op)) [
      | inl e ↦ rw e (allowed, kept)
      | inr e ↦ rw e kept
    ]

    route_ops-Allowed :
        (vgw : String) (lr : LocalRouterInfo) (o : Option NbStaticRoute)
        → ((r : NbStaticRoute) → o ≡ some r → is_managed_route r ≡ true → ListedManaged r.uuid)
        → AllowedTxn (route_ops here vgw lr o)
    unfolding route_ops
    route_ops-Allowed vgw lr none listed = (refl, (refl, tt))
    route_ops-Allowed vgw lr (some r) listed = elim (Bool-cases (is_managed_route r)) [
      | inr f ↦ rw f tt
      | inl m ↦ elim (Bool-cases (r.nexthop == vgw)) [
        | inr n ↦ rw (m, n) ((listed r refl m, refl), tt)
        | inl n ↦ elim (Bool-cases (chassis_tag r == here)) [
          | inl c ↦ rw (m, n, c) tt
          | inr c ↦ rw (m, n, c) ((listed r refl m, refl), tt)
        ]
      ]
    ]

    ensure_route_of-Keeps :
        (vgw : String) (lr : LocalRouterInfo) (routes : List NbStaticRoute)
        (o : Option NbLogicalRouter) (g : List Txn)
        → cache.static_routes g ≡ some routes
        → Keeps AllowedTxn (ensure_route_of db here vgw lr routes o)
    unfolding default_route
    ensure_route_of-Keeps vgw lr routes none g e h kept = kept
    ensure_route_of-Keeps vgw lr routes (some router) g e h kept =
        write_ops-Keeps (route_ops here vgw lr (default_route router routes))
          (route_ops-Allowed vgw lr (default_route router routes)
            (λ r found m. (g, routes, r, e, find-In _ routes r found, m, refl)))
          h kept

    ensure_default_route-Keeps :
        (lr : LocalRouterInfo) (vgw : String)
        → Keeps AllowedTxn (ensure_default_route db cache here lr vgw)
    unfolding ensure_default_route
    ensure_default_route-Keeps lr vgw h kept = listed (cache.static_routes h) refl
      where
        routed :
            (routes : List NbStaticRoute) (o : Option (List NbLogicalRouter))
            → cache.static_routes h ≡ some routes
            → All AllowedTxn
                (with_rows o
                  (λ routers.
                    ensure_route_of db here vgw lr routes
                      (find (λ r. r.uuid == lr.router_uuid) routers))
                  h).1
        routed routes none e = kept
        routed routes (some routers) e = ensure_route_of-Keeps vgw lr routes _ h e h kept

        listed :
            (o : Option (List NbStaticRoute))
            → cache.static_routes h ≡ o
            → All AllowedTxn
                (with_rows o
                  (λ routes. with_rows (cache.routers h) (λ routers.
                    ensure_route_of db here vgw lr routes
                      (find (λ r. r.uuid == lr.router_uuid) routers)))
                  h).1
        listed none e = kept
        listed (some routes) e = routed routes (cache.routers h) e

    binding_ops-Allowed :
        (port ip : String) (o : Option NbStaticMacBinding) → AllowedTxn (binding_ops port ip mac o)
    unfolding binding_ops
    binding_ops-Allowed port ip none = (refl, tt)
    binding_ops-Allowed port ip (some b) = elim (Bool-cases (b.mac == mac)) [
      | inl e ↦ rw e tt
      | inr e ↦ rw e (refl, tt)
    ]

    ensure_static_mac_binding-Keeps :
        (port ip : String) → Keeps AllowedTxn (ensure_static_mac_binding db cache port ip mac)
    unfolding ensure_static_mac_binding
    ensure_static_mac_binding-Keeps port ip h kept = bound (cache.bindings h)
      where
        bound :
            (o : Option (List NbStaticMacBinding))
            → All AllowedTxn
                (with_rows o
                  (λ bindings. write_ops db (
                    binding_ops port ip mac
                      (find (λ b. b.logical_port == port && b.ip == ip) bindings)))
                  h).1
        bound none = kept
        bound (some bindings) = write_ops-Keeps _ (binding_ops-Allowed port ip _) h kept

    then_binding-Keeps :
        (port ip : String) (b : Bool) → Keeps AllowedTxn (then_binding db cache port ip mac b)
    then_binding-Keeps port ip true h kept = ensure_static_mac_binding-Keeps port ip h kept
    then_binding-Keeps port ip false h kept = kept

    ensure_router-Keeps :
        (lr : LocalRouterInfo) (o : Option Ip)
        → Keeps AllowedTxn (ensure_router db cache here mac lr o)
    ensure_router-Keeps lr none h kept = kept
    ensure_router-Keeps lr (some vgw) h kept =
        then_binding-Keeps lr.lrp_name (ip_text vgw) _ _
          (ensure_default_route-Keeps lr (ip_text vgw) h kept)

    ensure_gateway_routing-Keeps :
        (lrs : List LocalRouterInfo)
        → Keeps AllowedTxn (ensure_gateway_routing db cache here lrs mac)
    unfolding ensure_gateway_routing
    ensure_gateway_routing-Keeps [] h kept = kept
    ensure_gateway_routing-Keeps (lr ∷ lrs) h kept =
        ensure_gateway_routing-Keeps lrs _
          (ensure_router-Keeps lr (virtual_gateway_ip lr.lrp_networks) h kept)

-- Whatever the cache and the database answer, `EnsureGatewayRouting` updates a route only where the
-- cache listed it as managed, creates routes with the tag of this chassis only, writes bindings to
-- the given MAC only, and removes nothing.
pub ensure_gateway_routing-Allowed :
    (db : Database) (cache : NbCache) (here : String) (lrs : List LocalRouterInfo) (mac : String)
    → All (AllowedTxn cache here mac) (ensure_gateway_routing db cache here lrs mac []).1
ensure_gateway_routing-Allowed db cache here lrs mac =
    ensure_gateway_routing-Keeps cache here mac db lrs [] tt
