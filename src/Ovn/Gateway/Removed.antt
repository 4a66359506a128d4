-- ===== src/Ovn/Gateway/Removed.antt =====
-- What the removal of managed entries in ovn_gateway.go may send.
use mathlib.Core.Option.{some-injective}
use ovn_route_agent.Base.{
  ||_parts, &&_parts, String, Bool, true, false, ◌≡◌, ◌⊎◌, inl, inr, refl, sym, ap, ◌∙◌, Option,
  none, some, List, [], ◌∷◌, ◌==◌, All, In, any, find, elem, lookup, insert, lookup-insert,
  if◌then◌else◌, Bool-cases, arith, eq_iff, subst,
}
use ovn_route_agent.Ovn.Rows.{NbStaticRoute, NbStaticMacBinding, NbLogicalRouter}
use ovn_route_agent.Ovn.Gateway.Defs.{LocalRouterInfo, delete_binding, Txn, Database}
use ovn_route_agent.Ovn.Gateway.Routing.{is_managed_route}
use ovn_route_agent.Ovn.Gateway.Managed.{
  EntryReads, read_routes, read_routers, read_bindings, removal, uuids_of, ports_of, local_owner,
  on_port, remove_managed_nb_entries, is_stale, is_stale_binding, is_live_port, on_output,
  claim_routes, route_to_router, has_stale_binding, cleanup_stale_chassis_managed_entries,
}
use ovn_route_agent.Ovn.Gateway.Removing.{
  remove_bindings-Keeps, remove_managed_routes-Keeps, remove_stale_routes-Keeps, with_list-Keeps,
  with_known-Keeps,
}

find_sound : {A : Type 0} (p : A → Bool) (xs : List A) (x : A) → find p xs ≡ some x → p x ≡ true
unfolding find
find_sound p [] x e = cc
find_sound p (y ∷ ys) x e = elim (Bool-cases (p y)) [
  | inl t ↦
      subst (λ z. p z ≡ true)
        (some-injective y x (ap (λ b. if b then some y else find p ys) (sym t) ∙ e)) t
  | inr f ↦ find_sound p ys x (ap (λ b. if b then some y else find p ys) (sym f) ∙ e)
]

find-In : {A : Type 0} (p : A → Bool) (xs : List A) (x : A) → find p xs ≡ some x → In x xs
unfolding find
find-In p [] x e = cc
find-In p (y ∷ ys) x e = elim (Bool-cases (p y)) [
  | inl t ↦ inl (sym (some-injective y x (ap (λ b. if b then some y else find p ys) (sym t) ∙ e)))
  | inr f ↦ inr (find-In p ys x (ap (λ b. if b then some y else find p ys) (sym f) ∙ e))
]

any_sound :
    {A : Type 0} (p : A → Bool) (xs : List A) → any p xs ≡ true → (x : A) × In x xs × (p x ≡ true)
unfolding any
any_sound p [] e = cc
any_sound p (y ∷ ys) e = elim (||_parts (p y) (any p ys) e) [
  | inl t ↦ (y, inl refl, t)
  | inr t ↦ let (x, m, px) = any_sound p ys t in (x, inr m, px)
]

-- Each route of the map stands in its router, which is one of the routers.
abbrev Owned : List NbLogicalRouter → List (String × NbLogicalRouter) → Type 0
Owned routers m =
    (uuid : String) (r : NbLogicalRouter)
    → lookup uuid m ≡ some r
    → In r routers × (elem uuid r.static_routes ≡ true)

claim_routes-Owned :
    (routers : List NbLogicalRouter) (router : NbLogicalRouter) (uuids : List String)
    (m : List (String × NbLogicalRouter))
    → In router routers
    → ((uuid : String) → elem uuid uuids ≡ true → elem uuid router.static_routes ≡ true)
    → Owned routers m
    → Owned routers (claim_routes router uuids m)
unfolding claim_routes elem
claim_routes-Owned routers router [] m among held owned = owned
claim_routes-Owned routers router (u ∷ us) m among held owned =
    claim_routes-Owned routers router us (insert u router m) among
      (λ uuid e. held uuid (ground arith)) claimed
  where
    claimed : Owned routers (insert u router m)
    claimed uuid r e = elim (Bool-cases (u == uuid)) [
      | inl t ↦
          subst (λ z. In z routers × (elem uuid z.static_routes ≡ true))
            (some-injective router r (
              ap (λ b. if b then some router else lookup uuid m) (sym t)
              ∙ sym (lookup-insert u uuid router m)
              ∙ e))
            (among, held uuid (ground arith))
      | inr f ↦ owned uuid r (
          ap (λ b. if b then some router else lookup uuid m) (sym f)
          ∙ sym (lookup-insert u uuid router m)
          ∙ e)
    ]

route_to_router-Owned :
    (all routers : List NbLogicalRouter) (m : List (String × NbLogicalRouter))
    → ((r : NbLogicalRouter) → In r routers → In r all)
    → Owned all m
    → Owned all (route_to_router routers m)
unfolding route_to_router
route_to_router-Owned all [] m among owned = owned
route_to_router-Owned all (r ∷ rs) m among owned =
    route_to_router-Owned all rs (claim_routes r r.static_routes m) (λ x i. among x (inr i))
      (claim_routes-Owned all r r.static_routes m (among r (inl refl)) (λ uuid e. e) owned)

-- The listing shows this row.
abbrev pub IsListed : {T : Type 0} → Option (List T) → T → Type 0
IsListed listing row = (rows : List _) × (listing ≡ some rows) × In row rows

-- A transaction that removes a managed route of the listing of routes from a router of the listing of
-- routers that holds it, where the route has a property, or one that removes a MAC binding that a
-- listing of the bindings shows and that has another.
abbrev pub IsRemoval :
    EntryReads
    → (NbStaticRoute → NbLogicalRouter → Type 0)
    → (NbStaticMacBinding → Type 0)
    → Txn
    → Type 0
IsRemoval reads Route Binding txn =
    ((route : NbStaticRoute) × (router : NbLogicalRouter) × IsListed (read_routes reads) route
      × IsListed (read_routers reads) router
      × (is_managed_route route ≡ true)
      × (elem route.uuid router.static_routes ≡ true)
      × Route route router
      × (txn ≡ removal router.uuid route.uuid))
    ⊎ ((b : NbStaticMacBinding) × ((h : List Txn) × IsListed (read_bindings reads h) b)
        × Binding b
        × (txn ≡ delete_binding b.uuid ∷ []))

-- The binding belongs to a stale route on whose port no other chassis has a route.
abbrev pub StaleBinding : (stale : List String) → List NbStaticRoute → NbStaticMacBinding → Type 0
StaleBinding stale routes b =
    (is_live_port stale routes b.logical_port ≡ false)
    × ((route : NbStaticRoute) × In route routes
        × (is_stale stale route ≡ true)
        × (route.output_port ≡ some b.logical_port)
        × (route.nexthop ≡ b.ip))

on_output-eq : (port : String) (o : Option String) → on_output port o ≡ true → o ≡ some port
on_output-eq port none e = cc
on_output-eq port (some p) e = ap some (ground (arith, eq_iff p port))

is_stale_binding-StaleBinding :
    (stale : List String) (routes : List NbStaticRoute) (owners : List (String × NbLogicalRouter))
    (b : NbStaticMacBinding)
    → is_stale_binding stale routes owners b ≡ true
    → StaleBinding stale routes b
unfolding is_stale_binding
is_stale_binding-StaleBinding stale routes owners b e =
    let (r, m, t) = any_sound _ routes e in
    (
      ground arith,
      (
        r,
        m,
        ground arith,
        on_output-eq b.logical_port r.output_port (ground arith),
        ground (arith, eq_iff r.nexthop b.ip),
      ),
    )

local_owner_sound :
    (local : List String) (routers : List NbLogicalRouter) (route : NbStaticRoute)
    (router : NbLogicalRouter)
    → local_owner local routers route ≡ some router
    → In router routers
      × (elem router.uuid local ≡ true)
      × (elem route.uuid router.static_routes ≡ true)
unfolding local_owner
local_owner_sound local routers route router e =
    let (here, held) = &&_parts _ _ (find_sound _ routers router e) in
    (find-In _ routers router e, here, held)

-- The shutdown removes a route only where the routes that it read show it, it is managed and a router
-- that was read, is local and holds it is the one it is taken out of; and it removes a MAC binding only
-- where the bindings that were read show it and its port is local, whatever the reads and the database
-- answer.
pub remove_managed_nb_entries-IsRemoval :
    (db : Database) (reads : EntryReads) (lrs : List LocalRouterInfo)
    → All
        (IsRemoval reads
          (λ route router. elem router.uuid (uuids_of lrs) ≡ true)
          (λ b. elem b.logical_port (ports_of lrs) ≡ true))
        (remove_managed_nb_entries db reads lrs []).1
unfolding remove_managed_nb_entries
remove_managed_nb_entries-IsRemoval db reads [] = tt
remove_managed_nb_entries-IsRemoval db reads (lr ∷ lrs) =
    let local = uuids_of (lr ∷ lrs) in
    let P =
      IsRemoval reads (λ route router. elem router.uuid (uuids_of (lr ∷ lrs)) ≡ true)
        (λ b. elem b.logical_port (ports_of (lr ∷ lrs)) ≡ true) in
    with_list-Keeps P db (read_routes reads) _
      (λ routes read_r. with_list-Keeps P db (read_routers reads) _ (λ routers read_o h kept.
        with_list-Keeps P db (read_bindings reads _) _
          (λ bindings read_b.
            remove_bindings-Keeps P db (on_port (ports_of (lr ∷ lrs))) bindings
              (λ b i e. inr (b, (_, (bindings, read_b, i)), e, refl)))
          _
          (remove_managed_routes-Keeps P db local routers routes
            (λ route router m e f.
              let (among, here, held) = local_owner_sound local routers route router f in
              inl
                (route, router, (routes, read_r, m), (routers, read_o, among), e, held, here, refl))
            h kept)))
      [] tt

pub cleanup_stale-IsRemoval :
    (db : Database) (reads : EntryReads) (stale : List String) (routes : List NbStaticRoute)
    → read_routes reads ≡ some routes
    → All
        (IsRemoval reads
          (λ route router. In route routes × (is_stale stale route ≡ true))
          (StaleBinding stale routes))
        (cleanup_stale_chassis_managed_entries db reads stale []).1
unfolding cleanup_stale_chassis_managed_entries
cleanup_stale-IsRemoval db reads stale routes e =
    let P =
      IsRemoval reads (λ route router. In route routes × (is_stale stale route ≡ true))
        (StaleBinding stale routes) in
    with_known-Keeps P db (read_routes reads) _ routes e
      (with_list-Keeps P db (read_routers reads) _ (λ routers read_o h kept.
        let owners = route_to_router routers [] in
        let removed =
          remove_stale_routes-Keeps P db stale owners routes
            (λ route router m s f.
              let (among, held) =
                route_to_router-Owned routers routers [] (λ r i. i) (λ u r g. cc) route.uuid router
                  f in
              inl (
                route,
                router,
                (routes, e, m),
                (routers, read_o, among),
                ground arith,
                held,
                (m, s),
                refl,
              ))
            h kept in
        elim (Bool-cases (has_stale_binding stale routes owners)) [
          | inl t ↦ rw t (
              with_list-Keeps P db (read_bindings reads _) _
                (λ bindings read_b.
                  remove_bindings-Keeps P db (is_stale_binding stale routes owners) bindings
                    (λ b i s. inr (
                      b,
                      (_, (bindings, read_b, i)),
                      is_stale_binding-StaleBinding stale routes owners b s,
                      refl,
                    )))
                _ removed)
          | inr f ↦ rw f removed
        ]))
      [] tt
