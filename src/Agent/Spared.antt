-- ===== src/Agent/Spared.antt =====
-- `cleanupStaleChassis` of agent.go together with the NB cleanup of ovn_gateway.go.
use ovn_route_agent.Base.{
  ℕ, ℤ, String, true, false, ◌≡◌, inl, inr, Option, none, some, List, [], ◌∷◌, All, All-map, In,
  elem, arith,
}
use ovn_route_agent.Ovn.Rows.{NbStaticRoute, NbStaticMacBinding}
use ovn_route_agent.Ovn.Gateway.Defs.{Txn, Database}
use ovn_route_agent.Ovn.Gateway.Routing.{is_managed_route, chassis_tag}
use ovn_route_agent.Ovn.Gateway.Managed.{
  EntryReads, read_routes, list_managed_route_chassis, cleanup_stale_chassis_managed_entries,
  is_stale,
}
use ovn_route_agent.Ovn.Gateway.Removed.{IsRemoval, StaleBinding, cleanup_stale-IsRemoval}
use ovn_route_agent.Agent.Stale.{Missing, cleanup_stale_chassis}
use ovn_route_agent.Agent.Overdue.{IsDue, cleanup_stale_chassis_iff}

-- The NB cleanup runs where some chassis is due.
abbrev sent_for : Database → EntryReads → List String → List Txn
sent_for db reads [] = []
sent_for db reads (name ∷ names) =
    (cleanup_stale_chassis_managed_entries db reads (name ∷ names) []).1

-- The chassis that a cycle cleans up: `listing` are the reads of `ListManagedRouteChassis`, and
-- `reads` those of the cleanup.
abbrev pub cleaned :
    Database
    → (listing reads : EntryReads) → (now : ℕ) (period : ℤ) (jitter : ℕ) (alive : List String)
    → Missing
    → List String
cleaned db listing reads now period jitter alive m =
    (cleanup_stale_chassis (λ names. (cleanup_stale_chassis_managed_entries db reads names []).0)
      now period jitter alive (list_managed_route_chassis listing) m).0

abbrev pub stale_cycle :
    Database
    → (listing reads : EntryReads) → (now : ℕ) (period : ℤ) (jitter : ℕ) (alive : List String)
    → Missing
    → List Txn
stale_cycle db listing reads now period jitter alive m =
    sent_for db reads (cleaned db listing reads now period jitter alive m)

-- The tag of the route names a chassis that is not alive.
abbrev pub IsOrphan : (alive : List String) → NbStaticRoute → Type 0
IsOrphan alive route = (is_managed_route route ≡ true) × (elem (chassis_tag route) alive ≡ false)

abbrev pub OrphanBinding : (alive : List String) → List NbStaticRoute → NbStaticMacBinding → Type 0
OrphanBinding alive routes b =
    (route : NbStaticRoute) × In route routes
    × IsOrphan alive route
    × (route.output_port ≡ some b.logical_port)
    × (route.nexthop ≡ b.ip)

due_dead :
    (now : ℕ) (period : ℤ) (jitter : ℕ) (alive : List String) (o : Option (List String))
    (m : Missing) (name : String)
    → IsDue now period jitter alive o m name
    → elem name alive ≡ false
due_dead now period jitter alive none m name due = absurd due
due_dead now period jitter alive (some referenced) m name due = due.2

sent_for-IsRemoval :
    (db : Database) (reads : EntryReads) (routes : List NbStaticRoute) (alive names : List String)
    → read_routes reads ≡ some routes
    → ((name : String) → elem name names ≡ true → elem name alive ≡ false)
    → All
        (IsRemoval reads (λ route router. IsOrphan alive route) (OrphanBinding alive routes))
        (sent_for db reads names)
sent_for-IsRemoval db reads routes alive [] e dead = tt
sent_for-IsRemoval db reads routes alive (name ∷ names) e dead =
    let stale = name ∷ names in
    All-map
      (IsRemoval reads (λ route router. In route routes × (is_stale stale route ≡ true))
        (StaleBinding stale routes))
      (IsRemoval reads (λ route router. IsOrphan alive route) (OrphanBinding alive routes))
      (cleanup_stale_chassis_managed_entries db reads stale []).1 orphan
      (cleanup_stale-IsRemoval db reads stale routes e)
  where
    orphan_route :
        (route : NbStaticRoute) → is_stale (name ∷ names) route ≡ true → IsOrphan alive route
    orphan_route route s = (ground arith, dead (chassis_tag route) (ground arith))

    orphan :
        (txn : Txn)
        → IsRemoval reads
            (λ route router. In route routes × (is_stale (name ∷ names) route ≡ true))
            (StaleBinding (name ∷ names) routes)
            txn
        → IsRemoval reads (λ route router. IsOrphan alive route) (OrphanBinding alive routes) txn
    orphan txn (inl (route, router, lr, lo, m, h, r, t)) =
        inl (route, router, lr, lo, m, h, orphan_route route r.1, t)
    orphan txn (inr (b, lb, s, t)) =
        let (r, i, d, p, n) = s.1 in inr (b, lb, (r, i, orphan_route r d, p, n), t)

-- A cycle of the agent removes from the NB database only managed routes of the listing it read whose
-- tag names no chassis that is alive, out of a router that was read and holds the route, and MAC
-- bindings that were read and fit such a route, whatever the database answers and whatever the tracker
-- holds.
pub stale_cycle-IsRemoval :
    (db : Database) (listing reads : EntryReads) (now : ℕ) (period : ℤ) (jitter : ℕ)
    (alive : List String) (m : Missing) (routes : List NbStaticRoute)
    → read_routes reads ≡ some routes
    → All
        (IsRemoval reads (λ route router. IsOrphan alive route) (OrphanBinding alive routes))
        (stale_cycle db listing reads now period jitter alive m)
stale_cycle-IsRemoval db listing reads now period jitter alive m routes e =
    sent_for-IsRemoval db reads routes alive (cleaned db listing reads now period jitter alive m) e
      (λ name found. due_dead now period jitter alive (list_managed_route_chassis listing) m name (
        (cleanup_stale_chassis_iff
            (λ names. (cleanup_stale_chassis_managed_entries db reads names []).0) now period jitter
            alive (list_managed_route_chassis listing) m name).0
          found))
