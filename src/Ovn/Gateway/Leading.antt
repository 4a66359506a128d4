-- ===== src/Ovn/Gateway/Leading.antt =====
-- What `EnsureActivePriorityLead` writes: only boosts of this chassis over all of its peers.
use ovn_route_agent.Base.{
  ℤ, pos, ◌≤ℤ◌, ◌<ℤ◌, ◌+ℤ◌, ltb_ℤ, leb_ℤ, String, Bool, true, false, ◌&&◌, ◌||◌, ◌≡◌, ◌⊎◌, refl,
  sym, ◌∙◌, Option, none, some, List, [], ◌∷◌, ◌==◌, arith, eq_iff, elem, lookup, or_empty, keys,
  All, All-map, All-filter_of_All, Bool-cases, inl, inr, if◌then◌else◌,
}
use ovn_route_agent.Ovn.Rows.{NbGatewayChassis}
use ovn_route_agent.Ovn.Gateway.Defs.{
  LocalRouterInfo, Op, set_priority, Txn, Database, built, transact_ops, transact_if_any,
}
use ovn_route_agent.Ovn.Gateway.Lead.{
  LeadReads, HaGroup, lrp_of, lead_over, collect_groups, select_cr_port_chassis, bound_elsewhere,
  boost, boost_group, boost_at, boost_ops, lrp_names, cr_port_by_lrp, lead_rows, lead_ops,
  ensure_active_priority_lead, cons_some, min_active_priority,
}
use ovn_route_agent.Ovn.Gateway.Groups.{
  fold_group, lookup-collect_groups, IsPeer, IsLocal, fold_group-max_peer, fold_group-IsLocal,
}

-- The port's chassisredirect binding is known to be with another chassis.
abbrev pub moved : String → LeadReads → List LocalRouterInfo → String → Bool
moved here reads lrs lrp =
    bound_elsewhere here (select_cr_port_chassis reads.chassis reads.port_bindings)
      (or_empty (lookup lrp (cr_port_by_lrp lrs [])))

-- An operation that raises the priority of a row of this chassis, at a port of the local routers
-- that is not known to have moved, to at least 2 and above every peer row of the port.
abbrev pub IsBoost : String → LeadReads → List LocalRouterInfo → List NbGatewayChassis → Op → Type 0
IsBoost here reads lrs rows (set_priority r p) =
    ((r.chassis_name == here) ≡ true)
    × (elem (lrp_of r) (lrp_names lrs) ≡ true)
    × (moved here reads lrs (lrp_of r) ≡ false)
    × (min_active_priority ≤ℤ p)
    × (r.priority <ℤ p)
    × All (λ q. IsPeer here (lrp_of r) q → q.priority <ℤ p) rows
IsBoost here reads lrs rows _ = ⊥

lead_over_min : (m : ℤ) → min_active_priority ≤ℤ lead_over m
lead_over_min m = ground arith

lead_over_peer : (m q : ℤ) → q ≤ℤ m → q <ℤ lead_over m
unfolding ◌+ℤ◌
lead_over_peer m q h = ground arith

boost_raises :
    (m old : ℤ) (elsewhere : Bool)
    → (ltb_ℤ m (pos 0) || (ltb_ℤ m old && leb_ℤ min_active_priority old) || elsewhere) ≡ false
    → old <ℤ lead_over m
unfolding ◌+ℤ◌
boost_raises m old elsewhere h = ground arith

module _ (here : String) (reads : LeadReads) (lrs : List LocalRouterInfo)
    (rows : List NbGatewayChassis) where
  abbrev OnSome : Option Op → Type 0
  OnSome none = Unit
  OnSome (some op) = IsBoost here reads lrs rows op

  boost-IsBoost :
      (lrp : String) (elsewhere : Bool) (local : Option NbGatewayChassis) (m : ℤ)
      → elem lrp (lrp_names lrs) ≡ true
      → moved here reads lrs lrp ≡ elsewhere
      → IsLocal here lrp local
      → All (λ q. IsPeer here lrp q → q.priority ≤ℤ m) rows
      → OnSome (boost elsewhere local m)
  unfolding boost
  boost-IsBoost lrp elsewhere none m active mv l peers = tt
  boost-IsBoost lrp elsewhere (some r) m active mv l peers =
      elim (Bool-cases (
        ltb_ℤ m (pos 0)
        || (ltb_ℤ m r.priority && leb_ℤ min_active_priority r.priority)
        || elsewhere)) [
          | inl skip ↦ rw skip tt
          | inr act ↦
              let same : lrp ≡ lrp_of r = sym ((eq_iff (lrp_of r) lrp).0 l.1) in
              rw act (
                l.0,
                rw (← same) active,
                rw (← same) (ground arith),
                lead_over_min m,
                boost_raises m r.priority elsewhere act,
                All-map (λ q. IsPeer here lrp q → q.priority ≤ℤ m) _ rows
                    (λ q f (of, other). lead_over_peer m q.priority (f (rw same of, other))) peers,
              )
        ]

  boost_at-IsBoost :
      (lrp : String)
      → OnSome (
          boost_at here
            (select_cr_port_chassis reads.chassis reads.port_bindings)
            (cr_port_by_lrp lrs [])
            (collect_groups here (lrp_names lrs) rows [])
            lrp)
  unfolding lookup
  boost_at-IsBoost lrp =
      go (elem lrp (lrp_names lrs)) refl (fold_group here lrp none rows) refl
        (lookup lrp (collect_groups here (lrp_names lrs) rows []))
        (lookup-collect_groups here lrp (lrp_names lrs) rows [])
    where
      go :
          (b : Bool)
          → elem lrp (lrp_names lrs) ≡ b
          → (f : Option HaGroup) → fold_group here lrp none rows ≡ f
          → (o : Option HaGroup) → o ≡ (if b then f else none)
          → OnSome (boost_group (moved here reads lrs lrp) o)
      go b e f ef none eo = tt
      go false e f ef (some g) eo = cc
      go true e f ef (some g) eo =
          let found : fold_group here lrp none rows ≡ some g = ef ∙ sym eo in
          boost-IsBoost lrp (moved here reads lrs lrp) g.local g.max_peer e refl
            (fold_group-IsLocal here lrp none rows g tt found)
            (fold_group-max_peer here lrp none rows g found)

  cons_some-All :
      (o : Option Op) (ops : List Op)
      → OnSome o
      → All (IsBoost here reads lrs rows) ops
      → All (IsBoost here reads lrs rows) (cons_some o ops)
  cons_some-All none ops h t = t
  cons_some-All (some op) ops h t = (h, t)

  boost_ops-IsBoost :
      (lrps : List String)
      → All (IsBoost here reads lrs rows) (
          boost_ops here
            (select_cr_port_chassis reads.chassis reads.port_bindings)
            (cr_port_by_lrp lrs [])
            (collect_groups here (lrp_names lrs) rows [])
            lrps)
  unfolding boost_ops
  boost_ops-IsBoost [] = tt
  boost_ops-IsBoost (lrp ∷ lrps) = cons_some-All _ _ (boost_at-IsBoost lrp) (boost_ops-IsBoost lrps)

  lead_ops-IsBoost : All (IsBoost here reads lrs rows) (lead_ops here reads lrs rows)
  unfolding lead_ops
  lead_ops-IsBoost = boost_ops-IsBoost (keys (collect_groups here (lrp_names lrs) rows []))

-- What one call may append to the transactions sent: nothing, or one transaction of boosts.
abbrev pub Boosts :
    String → LeadReads → List LocalRouterInfo → List NbGatewayChassis → List Txn → List Txn → Type 0
Boosts here reads lrs rows before after =
    (after ≡ before)
    ⊎ ((ops : Txn) × (after ≡ ops ∷ before) × All (IsBoost here reads lrs rows) ops)

transact-Boosts :
    (db : Database) (here : String) (reads : LeadReads) (lrs : List LocalRouterInfo)
    (rows : List NbGatewayChassis) (ops : List Op) (sent : List Txn)
    → All (IsBoost here reads lrs rows) ops
    → Boosts here reads lrs rows sent (transact_if_any db ops sent).1
unfolding transact_if_any transact_ops
transact-Boosts db here reads lrs rows [] sent h = inl refl
transact-Boosts db here reads lrs rows (op ∷ ops) sent h = inr (op ∷ ops, refl, h)

-- Let `rows` be the Gateway_Chassis rows that the reads give. Whatever the other reads return and
-- the database answers, `EnsureActivePriorityLead` sends at most one transaction, and each of its
-- operations raises a row of this chassis, at a port of a local router whose chassisredirect binding
-- is not known to be elsewhere, to a priority of at least 2 that is strictly above its old one and
-- above every row of another chassis at that port.
pub ensure_active_priority_lead-Boosts :
    (db : Database) (reads : LeadReads) (lrs : List LocalRouterInfo) (here : String)
    (rows : List NbGatewayChassis) (sent : List Txn)
    → lead_rows here reads ≡ some rows
    → Boosts here reads lrs rows sent (ensure_active_priority_lead db reads lrs here sent).1
unfolding ensure_active_priority_lead built
ensure_active_priority_lead-Boosts db reads [] here rows sent h = inl refl
ensure_active_priority_lead-Boosts db reads (lr ∷ lrs) here rows sent h = rw h (
    transact-Boosts db here reads (lr ∷ lrs) rows _ sent
      (All-filter_of_All _ db.builds _ (lead_ops-IsBoost here reads (lr ∷ lrs) rows)))
