-- ===== src/Ovn/Gateway/Groups.antt =====
-- The groups that `EnsureActivePriorityLead` collects: for one router port, what its rows come to.
use ovn_route_agent.Base.{
  ◌≤ℤ◌, ltb_ℤ, String, true, false, ◌≡◌, subst, Option, none, some, List, [], ◌∷◌, ◌==◌, arith,
  eq_iff, elem, lookup, insert, lookup-insert, All, Bool-cases, inl, inr, if◌then◌else◌,
}
use ovn_route_agent.Ovn.Rows.{NbGatewayChassis}
use ovn_route_agent.Ovn.Gateway.Lead.{HaGroup, lrp_of, join_group, group_or_new, collect_groups}

-- The rows of one port, from left to right.
unfoldable pub fold_group :
    String → String → Option HaGroup → List NbGatewayChassis → Option HaGroup
fold_group here lrp o [] = o
fold_group here lrp o (r ∷ rs) =
    fold_group here lrp (if lrp_of r == lrp then some (join_group here r (group_or_new o)) else o)
      rs

-- Each active port has the group of its rows, and no other port has one.
pub lookup-collect_groups :
    (here lrp : String) (active : List String) (rows : List NbGatewayChassis)
    (m : List (String × HaGroup))
    → lookup lrp (collect_groups here active rows m)
      ≡ (if elem lrp active then fold_group here lrp (lookup lrp m) rows else lookup lrp m)
unfolding collect_groups fold_group
lookup-collect_groups here lrp active [] m = ground arith
lookup-collect_groups here lrp active (r ∷ rs) m =
    let next =
      (if elem (lrp_of r) active
        then insert (lrp_of r) (join_group here r (group_or_new (lookup (lrp_of r) m))) m
        else m) in
    ground (
      arith,
      lookup-collect_groups here lrp active rs next,
      lookup-insert (lrp_of r) lrp (join_group here r (group_or_new (lookup (lrp_of r) m))) m,
      eq_iff (lrp_of r) lrp,
    )

module _ (here lrp : String) where
  join_group_mono :
      (r : NbGatewayChassis) (g : HaGroup) → g.max_peer ≤ℤ (join_group here r g).max_peer
  unfolding join_group
  join_group_mono r g = ground arith

  join_group_peer :
      (r : NbGatewayChassis) (g : HaGroup)
      → (r.chassis_name == here) ≡ false
      → r.priority ≤ℤ (join_group here r g).max_peer
  unfolding join_group
  join_group_peer r g h = ground arith

  fold_group_mono :
      (o : Option HaGroup) (rows : List NbGatewayChassis) (g : HaGroup)
      → fold_group here lrp o rows ≡ some g
      → (group_or_new o).max_peer ≤ℤ g.max_peer
  unfolding fold_group
  fold_group_mono o [] g h = ground arith
  fold_group_mono o (r ∷ rs) g h = elim (Bool-cases (lrp_of r == lrp)) [
    | inl mine ↦
        let ih = fold_group_mono (some (join_group here r (group_or_new o))) rs g (rw mine at h) in
        omega (arith, join_group_mono r (group_or_new o))
    | inr other ↦ fold_group_mono o rs g (rw other at h)
  ]

  -- A row of the port that belongs to another chassis.
  abbrev pub IsPeer : NbGatewayChassis → Type 0
  IsPeer r = ((lrp_of r == lrp) ≡ true) × ((r.chassis_name == here) ≡ false)

  pub fold_group-max_peer :
      (o : Option HaGroup) (rows : List NbGatewayChassis) (g : HaGroup)
      → fold_group here lrp o rows ≡ some g
      → All (λ r. IsPeer r → r.priority ≤ℤ g.max_peer) rows
  unfolding fold_group
  fold_group-max_peer o [] g h = tt
  fold_group-max_peer o (r ∷ rs) g h = elim (Bool-cases (lrp_of r == lrp)) [
    | inl mine ↦
        let rest : fold_group here lrp (some (join_group here r (group_or_new o))) rs ≡ some g =
          rw mine at h in
        let bound = fold_group_mono (some (join_group here r (group_or_new o))) rs g rest in
        (
          λ p. omega (arith, join_group_peer r (group_or_new o) p.1),
          fold_group-max_peer (some (join_group here r (group_or_new o))) rs g rest,
        )
    | inr other ↦
        let rest : fold_group here lrp o rs ≡ some g = rw other at h in
        ((λ p. cc), fold_group-max_peer o rs g rest)
  ]

  -- The local row of a group is one of this chassis and of this port.
  abbrev pub IsLocal : Option NbGatewayChassis → Type 0
  IsLocal none = Unit
  IsLocal (some r) = ((r.chassis_name == here) ≡ true) × ((lrp_of r == lrp) ≡ true)

  join_group-IsLocal :
      (r : NbGatewayChassis) (g : HaGroup)
      → (lrp_of r == lrp) ≡ true
      → IsLocal g.local
      → IsLocal (join_group here r g).local
  unfolding join_group
  join_group-IsLocal r g mine h = elim (Bool-cases (r.chassis_name == here)) [
    | inl e ↦ rw e (e, mine)
    | inr e ↦ elim (Bool-cases (ltb_ℤ g.max_peer r.priority)) [
      | inl f ↦ rw (e, f) h
      | inr f ↦ rw (e, f) h
    ]
  ]

  pub fold_group-IsLocal :
      (o : Option HaGroup) (rows : List NbGatewayChassis) (g : HaGroup)
      → IsLocal (group_or_new o).local
      → fold_group here lrp o rows ≡ some g
      → IsLocal g.local
  unfolding fold_group
  fold_group-IsLocal o [] g l h = subst (λ p. IsLocal (group_or_new p).local) h l
  fold_group-IsLocal o (r ∷ rs) g l h = elim (Bool-cases (lrp_of r == lrp)) [
    | inl mine ↦
        fold_group-IsLocal (some (join_group here r (group_or_new o))) rs g
          (join_group-IsLocal r (group_or_new o) mine l) (rw mine at h)
    | inr other ↦ fold_group-IsLocal o rs g l (rw other at h)
  ]
