-- ===== src/Ovn/State/Owners.antt =====
-- Which NAT entries belong to a router that is active here.
use ovn_route_agent.Base.{
  String, Bool, false, not, ◌&&◌, ◌||◌, ◌≡◌, refl, ◌∙◌, Option, none, some, List, [], ◌∷◌, ◌==◌,
  arith, any, elem, lookup, insert, lookup-insert, is_some, Bool-cases, inl, inr,
}
use ovn_route_agent.Ovn.Rows.{NbLogicalRouter, NbLogicalRouterPort}
use ovn_route_agent.Ovn.State.Routers.{
  RouterAcc, matched_lrp, own_nats, join_router, collect_routers,
}

abbrev pub has_mac : Option NbLogicalRouterPort → Bool
has_mac none = false
has_mac (some p) = not (p.mac == "")

lookup-own_nats :
    (uuid mac : String) (uuids : List String) (m : List (String × String))
    → is_some (lookup uuid (own_nats mac uuids m))
      ≡ ((not (mac == "") && elem uuid uuids) || is_some (lookup uuid m))
unfolding own_nats elem
lookup-own_nats uuid mac [] m = ground arith
lookup-own_nats uuid mac (u ∷ us) m = elim (Bool-cases (mac == "")) [
  | inl e ↦ rw e (lookup-own_nats uuid mac us m ∙ rw e refl)
  | inr e ↦ rw e (
      lookup-own_nats uuid mac us (insert u mac m)
      ∙ rw (e, lookup-insert u uuid mac m) (ground arith))
]

module _ (names : List (String × String)) (local_uuids : List String)
    (ports : List (String × NbLogicalRouterPort)) (uuid : String) where
  -- The router has a port that is active here, with a MAC, and owns the NAT entry.
  abbrev pub owns : NbLogicalRouter → Bool
  owns router = has_mac (matched_lrp local_uuids ports router) && elem uuid router.nat

  lookup-join_router :
      (router : NbLogicalRouter) (o : Option NbLogicalRouterPort) (acc : RouterAcc)
      → is_some (lookup uuid (join_router names router o acc).nat_macs)
        ≡ ((has_mac o && elem uuid router.nat) || is_some (lookup uuid acc.nat_macs))
  lookup-join_router router none acc = refl
  lookup-join_router router (some p) acc = lookup-own_nats uuid p.mac router.nat acc.nat_macs

  pub lookup-collect_routers :
      (routers : List NbLogicalRouter) (acc : RouterAcc)
      → is_some (lookup uuid (collect_routers names local_uuids ports routers acc).nat_macs)
        ≡ (any owns routers || is_some (lookup uuid acc.nat_macs))
  unfolding collect_routers any
  lookup-collect_routers [] acc = refl
  lookup-collect_routers (router ∷ routers) acc =
      let o = matched_lrp local_uuids ports router in
      lookup-collect_routers routers (join_router names router o acc)
      ∙ rw (lookup-join_router router o acc) (ground arith)
