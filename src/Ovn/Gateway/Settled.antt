-- ===== src/Ovn/Gateway/Settled.antt =====
-- What `EnsureGatewayRouting` of ovn_gateway.go writes, and that one pass is enough.
use ovn_route_agent.Base.{
  String, Bool, true, false, ◌&&◌, ◌≡◌, refl, sym, ap, ◌∙◌, Option, none, some, List, [], ◌∷◌, ◌++◌,
  ◌==◌, map, any, find, elem, lookup, insert, lookup-insert, or_empty, if◌then◌else◌, Bool-cases,
  arith, eq_iff, eq_refl, inl, inr,
}
use ovn_route_agent.Ovn.Rows.{NbStaticRoute, NbLogicalRouter}
use ovn_route_agent.Ovn.Gateway.Defs.{
  LocalRouterInfo, Op, set_route_chassis, set_route_target, insert_route, link_route, Txn,
}
use ovn_route_agent.Ovn.Gateway.Routing.{is_managed_route, chassis_tag, default_route, route_ops}

abbrev new_route : (fresh here vgw port : String) → NbStaticRoute
new_route fresh here vgw port = record {
  uuid = fresh;
  ip_prefix = "0.0.0.0/0";
  nexthop = vgw;
  output_port = some port;
  external_ids = ("ovn-network-agent", "managed") ∷ ("ovn-network-agent-chassis", here) ∷ [];
}

abbrev tagged : (chassis : String) → NbStaticRoute → NbStaticRoute
tagged chassis r = record r {
  external_ids = insert "ovn-network-agent-chassis" chassis r.external_ids;
}

abbrev retargeted : (chassis nexthop port : String) → NbStaticRoute → NbStaticRoute
retargeted chassis nexthop port r = record (tagged chassis r) {
  nexthop = nexthop;
  output_port = some port;
}

abbrev at_uuid : String → (NbStaticRoute → NbStaticRoute) → NbStaticRoute → NbStaticRoute
at_uuid uuid f r = if r.uuid == uuid then f r else r

-- The rows after a committed operation; the server gives an inserted row the uuid `fresh`.
abbrev pub route_rows : (fresh : String) → Op → List NbStaticRoute → List NbStaticRoute
route_rows fresh (set_route_chassis uuid chassis) rows = map (at_uuid uuid (tagged chassis)) rows
route_rows fresh (set_route_target uuid nexthop port chassis) rows =
    map (at_uuid uuid (retargeted chassis nexthop port)) rows
route_rows fresh (insert_route nexthop port chassis) rows =
    rows ++ (new_route fresh chassis nexthop port ∷ [])
route_rows fresh _ rows = rows

abbrev pub router_row : (fresh : String) → Op → NbLogicalRouter → NbLogicalRouter
router_row fresh (link_route uuid route) r =
    if r.uuid == uuid then record r { static_routes = fresh ∷ r.static_routes } else r
router_row fresh _ r = r

unfoldable pub routes_after : (fresh : String) → Txn → List NbStaticRoute → List NbStaticRoute
unfolding insert
routes_after fresh [] rows = rows
routes_after fresh (op ∷ ops) rows = routes_after fresh ops (route_rows fresh op rows)

unfoldable pub router_after : (fresh : String) → Txn → NbLogicalRouter → NbLogicalRouter
router_after fresh [] r = r
router_after fresh (op ∷ ops) r = router_after fresh ops (router_row fresh op r)

abbrev map_some : (NbStaticRoute → NbStaticRoute) → Option NbStaticRoute → Option NbStaticRoute
map_some f none = none
map_some f (some r) = some (f r)

find-map :
    (p : NbStaticRoute → Bool) (f : NbStaticRoute → NbStaticRoute) (rows : List NbStaticRoute)
    → ((r : NbStaticRoute) → p (f r) ≡ p r)
    → find p (map f rows) ≡ map_some f (find p rows)
unfolding find
find-map p f [] kept = refl
find-map p f (r ∷ rows) kept = elim (Bool-cases (p r)) [
  | inl e ↦ rw (kept r, e) refl
  | inr e ↦ rw (kept r, e) (find-map p f rows kept)
]

some-none : (r : NbStaticRoute) → some r ≡ none → ⊥
some-none r e = cc

find-snoc :
    (p q : NbStaticRoute → Bool) (rows : List NbStaticRoute) (new : NbStaticRoute)
    → (fresh : String) → any (λ r. r.uuid == fresh) rows ≡ false
    → ((r : NbStaticRoute) → (r.uuid == fresh) ≡ false → q r ≡ p r)
    → find p rows ≡ none
    → q new ≡ true
    → find q (rows ++ (new ∷ [])) ≡ some new
unfolding find any
find-snoc p q [] new fresh unused same absent e = rw e refl
find-snoc p q (r ∷ rows) new fresh unused same absent e = elim (Bool-cases (p r)) [
  | inl t ↦ absurd (some-none r (ap (λ b. if b then some r else find p rows) (sym t) ∙ absent))
  | inr f ↦ rw (same r (ground arith) ∙ f) (
      find-snoc p q rows new fresh (ground arith) same
        (ap (λ b. if b then some r else find p rows) (sym f) ∙ absent) e)
]

-- The default route after an update that keeps its uuid and its prefix.
default_route-map :
    (router : NbLogicalRouter) (g : NbStaticRoute → NbStaticRoute) (routes : List NbStaticRoute)
    (r : NbStaticRoute)
    → ((x : NbStaticRoute) → (g x).uuid ≡ x.uuid)
    → ((x : NbStaticRoute) → (g x).ip_prefix ≡ x.ip_prefix)
    → default_route router routes ≡ some r
    → default_route router (map (at_uuid r.uuid g) routes) ≡ some (g r)
unfolding default_route
default_route-map router g routes r uuid prefix e =
    find-map (λ x. elem x.uuid router.static_routes && x.ip_prefix == "0.0.0.0/0")
      (at_uuid r.uuid g) routes kept
    ∙ ap (map_some (at_uuid r.uuid g)) e
    ∙ ap some (ap (λ b. if b then g r else r) (eq_refl r.uuid))
  where
    kept :
        (x : NbStaticRoute)
        → (elem (at_uuid r.uuid g x).uuid router.static_routes
            && (at_uuid r.uuid g x).ip_prefix == "0.0.0.0/0")
          ≡ (elem x.uuid router.static_routes && x.ip_prefix == "0.0.0.0/0")
    kept x = elim (Bool-cases (x.uuid == r.uuid)) [
      | inl t ↦ rw (t, uuid x, prefix x) refl
      | inr f ↦ rw f refl
    ]

default_route-snoc :
    (router : NbLogicalRouter) (routes : List NbStaticRoute) (fresh here vgw port : String)
    → any (λ r. r.uuid == fresh) routes ≡ false
    → default_route router routes ≡ none
    → default_route
        (record router { static_routes = fresh ∷ router.static_routes })
        (routes ++ (new_route fresh here vgw port ∷ []))
      ≡ some (new_route fresh here vgw port)
unfolding default_route elem
default_route-snoc router routes fresh here vgw port unused e =
    find-snoc _ _ routes (new_route fresh here vgw port) fresh unused
      (λ r f. ground (arith, f, eq_iff fresh r.uuid, eq_iff r.uuid fresh)) e
      (rw (eq_refl fresh) refl)

-- Nothing changes where the route is the one that is wanted.
route_ops_same :
    (here vgw : String) (lr : LocalRouterInfo) (r : NbStaticRoute)
    → is_managed_route r ≡ true
    → r.nexthop ≡ vgw
    → chassis_tag r ≡ here
    → route_ops here vgw lr (some r) ≡ []
unfolding route_ops
route_ops_same here vgw lr r m n c =
    ground (arith, m, eq_iff r.nexthop vgw, eq_iff (chassis_tag r) here, n, c)

tagged-Same :
    (here : String) (r : NbStaticRoute)
    → (is_managed_route (tagged here r) ≡ is_managed_route r) × (chassis_tag (tagged here r) ≡ here)
tagged-Same here r = (
  ap (λ o. or_empty o == "managed")
      (lookup-insert "ovn-network-agent-chassis" "ovn-network-agent" here r.external_ids),
  ap or_empty
      (lookup-insert "ovn-network-agent-chassis" "ovn-network-agent-chassis" here r.external_ids),
)

new_route-Same :
    (fresh here vgw port : String)
    → (is_managed_route (new_route fresh here vgw port) ≡ true)
      × (chassis_tag (new_route fresh here vgw port) ≡ here)
unfolding lookup
new_route-Same fresh here vgw port = (refl, refl)

settled_of :
    (fresh here vgw : String) (lr : LocalRouterInfo) (router : NbLogicalRouter)
    (routes : List NbStaticRoute) (o : Option NbStaticRoute)
    → router.uuid ≡ lr.router_uuid
    → any (λ r. r.uuid == fresh) routes ≡ false
    → default_route router routes ≡ o
    → route_ops here vgw lr (
        default_route
          (router_after fresh (route_ops here vgw lr o) router)
          (routes_after fresh (route_ops here vgw lr o) routes))
      ≡ []
unfolding route_ops routes_after router_after
settled_of fresh here vgw lr router routes none same unused e =
    let here_it_is : (router.uuid == lr.router_uuid) ≡ true =
      ground (arith, same, eq_iff router.uuid lr.router_uuid) in
    let (m, c) = new_route-Same fresh here vgw lr.lrp_name in
    rw (here_it_is, default_route-snoc router routes fresh here vgw lr.lrp_name unused e)
      (route_ops_same here vgw lr (new_route fresh here vgw lr.lrp_name) m refl c)
settled_of fresh here vgw lr router routes (some r) same unused e =
    elim (Bool-cases (is_managed_route r)) [
      | inr f ↦ rw (f, e) (rw f refl)
      | inl m ↦ elim (Bool-cases (r.nexthop == vgw)) [
        | inl n ↦ elim (Bool-cases (chassis_tag r == here)) [
          | inl c ↦ rw (m, n, c, e) (rw (m, n, c) refl)
          | inr c ↦
              rw (m, n, c)
                (rw (default_route-map router (tagged here) routes r (λ x. refl) (λ x. refl) e) (
                  route_ops_same here vgw lr (tagged here r) ((tagged-Same here r).0 ∙ m)
                    (ground (arith, n, eq_iff r.nexthop vgw)) (tagged-Same here r).1))
        ]
        | inr n ↦
            rw (m, n)
              (rw
                (default_route-map router (retargeted here vgw lr.lrp_name) routes r (λ x. refl)
                  (λ x. refl) e)
                (route_ops_same here vgw lr (retargeted here vgw lr.lrp_name r)
                  ((tagged-Same here r).0 ∙ m) refl (tagged-Same here r).1))
      ]
    ]

-- A second pass over the rows that the first one leaves finds nothing to change, where the router
-- is the one of the port and the server's uuid is new.
pub route_ops_settled :
    (fresh here vgw : String) (lr : LocalRouterInfo) (router : NbLogicalRouter)
    (routes : List NbStaticRoute)
    → router.uuid ≡ lr.router_uuid
    → any (λ r. r.uuid == fresh) routes ≡ false
    → let ops = route_ops here vgw lr (default_route router routes) in
      route_ops here vgw lr
        (default_route (router_after fresh ops router) (routes_after fresh ops routes))
      ≡ []
route_ops_settled fresh here vgw lr router routes same unused =
    settled_of fresh here vgw lr router routes (default_route router routes) same unused refl
