-- ===== src/Ovn/Gateway/Complete.antt =====
-- `EnsureActivePriorityLead` boosts wherever this chassis does not lead.
use ovn_route_agent.Base.{
  ℤ, pos, ◌≤ℤ◌, ◌<ℤ◌, String, true, false, ◌≡◌, ◌⊎◌, refl, sym, ◌∙◌, ap, subst, Option, none, some,
  List, [], ◌∷◌, ◌==◌, arith, eq_iff, ||_parts, elem, elem-keys, lookup, keys, All, All-In, In,
  Bool-cases, inl, inr, if◌then◌else◌,
}
use ovn_route_agent.Ovn.Rows.{NbGatewayChassis}
use ovn_route_agent.Ovn.Gateway.Defs.{LocalRouterInfo, Op, set_priority}
use ovn_route_agent.Ovn.Gateway.Lead.{
  LeadReads, HaGroup, lrp_of, lead_over, join_group, group_or_new, collect_groups,
  select_cr_port_chassis, boost, boost_at, boost_ops, lrp_names, cr_port_by_lrp, lead_ops,
  cons_some, min_active_priority,
}
use ovn_route_agent.Ovn.Gateway.Groups.{
  fold_group, lookup-collect_groups, IsPeer, fold_group-max_peer,
}
use ovn_route_agent.Ovn.Gateway.Leading.{moved}

module _ (here lrp : String) (r : NbGatewayChassis) where
  -- A row of this chassis at the port.
  abbrev pub IsOwn : NbGatewayChassis → Type 0
  IsOwn s = ((lrp_of s == lrp) ≡ true) × ((s.chassis_name == here) ≡ true)

  -- What the loop has found of `r` so far.
  abbrev Found : Option HaGroup → Type 0
  Found none = ⊥
  Found (some g) = g.local ≡ some r

  join_group-Found :
      (s : NbGatewayChassis) (o : Option HaGroup)
      → (IsOwn s → s ≡ r)
      → (lrp_of s == lrp) ≡ true
      → Found o
      → Found (some (join_group here s (group_or_new o)))
  unfolding join_group
  join_group-Found s none u mine f = absurd f
  join_group-Found s (some g) u mine f = elim (Bool-cases (s.chassis_name == here)) [
    | inl e ↦ rw e (ap some (u (mine, e)))
    | inr e ↦ ground arith
  ]

  join_group-own :
      (o : Option HaGroup) → IsOwn r → Found (some (join_group here r (group_or_new o)))
  unfolding join_group
  join_group-own o own = rw (own.1)

  fold_group-Found :
      (o : Option HaGroup) (rows : List NbGatewayChassis)
      → IsOwn r
      → All (λ s. IsOwn s → s ≡ r) rows
      → In r rows ⊎ Found o
      → Found (fold_group here lrp o rows)
  unfolding fold_group
  fold_group-Found o [] own u (inl m) = absurd m
  fold_group-Found o [] own u (inr f) = f
  fold_group-Found o (s ∷ rows) own u (inl (inl e)) =
      rw (ap (λ (t : NbGatewayChassis). lrp_of t == lrp) (sym e) ∙ own.0) (
        fold_group-Found (some (join_group here s (group_or_new o))) rows own u.1 (
          inr (
            subst (λ t. Found (some (join_group here t (group_or_new o)))) e
              (join_group-own o own))))
  fold_group-Found o (s ∷ rows) own u (inl (inr m)) = fold_group-Found _ rows own u.1 (inl m)
  fold_group-Found o (s ∷ rows) own u (inr f) = elim (Bool-cases (lrp_of s == lrp)) [
    | inl mine ↦ rw mine (
        fold_group-Found (some (join_group here s (group_or_new o))) rows own u.1
          (inr (join_group-Found s o u.0 mine f)))
    | inr other ↦ rw other (fold_group-Found o rows own u.1 (inr f))
  ]

boost-In :
    (r q : NbGatewayChassis) (m : ℤ)
    → pos 0 ≤ℤ q.priority
    → q.priority ≤ℤ m
    → (r.priority ≤ℤ q.priority) ⊎ (r.priority <ℤ min_active_priority)
    → boost false (some r) m ≡ some (set_priority r (lead_over m))
unfolding boost
boost-In r q m h k b = ground arith

In-cons_some : (op : Op) (o : Option Op) (ops : List Op) → In op ops → In op (cons_some o ops)
In-cons_some op none ops m = m
In-cons_some op (some p) ops m = inr m

boost_ops-In :
    (here : String) (bound : Option (List (String × String))) (ports : List (String × String))
    (groups : List (String × HaGroup)) (lrp : String) (op : Op) (lrps : List String)
    → boost_at here bound ports groups lrp ≡ some op
    → elem lrp lrps ≡ true
    → In op (boost_ops here bound ports groups lrps)
unfolding boost_ops elem
boost_ops-In here bound ports groups lrp op [] h m = cc
boost_ops-In here bound ports groups lrp op (x ∷ lrps) h m =
    elim (||_parts (x == lrp) (elem lrp lrps) m) [
      | inl e ↦
          let same : x ≡ lrp = (eq_iff x lrp).0 e in
          rw (ap (boost_at here bound ports groups) same ∙ h) (inl refl)
      | inr rest ↦ In-cons_some op _ _ (boost_ops-In here bound ports groups lrp op lrps h rest)
    ]

-- Let a local router's port not be known to have moved, let `r` be the one row of this chassis at
-- that port, and let a peer row with a priority that is not negative stand there. If `r` does not
-- lie strictly above that peer, or lies below 2, then `r` is boosted.
pub lead_ops_complete :
    (here : String) (reads : LeadReads) (lrs : List LocalRouterInfo) (rows : List NbGatewayChassis)
    (lrp : String) (r q : NbGatewayChassis)
    → elem lrp (lrp_names lrs) ≡ true
    → moved here reads lrs lrp ≡ false
    → In r rows
    → IsOwn here lrp r r
    → All (λ s. IsOwn here lrp r s → s ≡ r) rows
    → In q rows
    → IsPeer here lrp q
    → pos 0 ≤ℤ q.priority
    → (r.priority ≤ℤ q.priority) ⊎ (r.priority <ℤ min_active_priority)
    → (p : ℤ) × In (set_priority r p) (lead_ops here reads lrs rows)
unfolding lead_ops lookup
lead_ops_complete here reads lrs rows lrp r q active still mr own unique mq peer nonneg behind =
    go (fold_group here lrp none rows) refl
      (fold_group-Found here lrp r none rows own unique (inl mr))
  where
    groups : List (String × HaGroup)
    groups = collect_groups here (lrp_names lrs) rows []

    go :
        (f : Option HaGroup)
        → fold_group here lrp none rows ≡ f
        → Found here lrp r f
        → (p : ℤ) × In (set_priority r p) (
            boost_ops here
              (select_cr_port_chassis reads.chassis reads.port_bindings)
              (cr_port_by_lrp lrs [])
              groups
              (keys groups))
    go none e found = absurd found
    go (some g) e found =
        let known : lookup lrp groups ≡ some g =
          (lookup-collect_groups here lrp (lrp_names lrs) rows []
            ∙ ap (λ b. if b then fold_group here lrp none rows else none) active
            ∙ e) in
        let below = All-In _ rows q (fold_group-max_peer here lrp none rows g e) mq peer in
        (
          lead_over g.max_peer,
          boost_ops-In here _ _ groups lrp _ (keys groups)
              (rw (known, still, found) (boost-In r q g.max_peer nonneg below behind))
              (elem-keys lrp groups known),
        )
