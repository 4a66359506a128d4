-- ===== src/Ovn/Gateway/Migrated.antt =====
-- When a drain reports that the gateways have migrated, and what it writes before it polls.
use mathlib.Core.Bool.{false≢true}
use ovn_route_agent.Base.{
  ℕ, zero, suc, pos, ◌<ℤ◌, ltb_ℤ, String, Bool, true, false, not, ◌&&◌, ◌≡◌, ◌⊎◌, refl, Option,
  none, some, List, [], ◌∷◌, ◌==◌, ◌||◌, or_empty, lookup, insert, lookup-insert, eq_iff, ap, sym,
  ◌∙◌, All-map, if◌then◌else◌, arith, All, All-filter, All-filter_of_All, In, map, Bool-cases,
  &&_parts, ltb_ℤ→lt, inl, inr,
}
use ovn_route_agent.Ovn.Rows.{NbGatewayChassis, SbPortBinding, SbChassis, Row}
use ovn_route_agent.Ovn.Gateway.Defs.{
  Op, set_priority, Txn, Database, built, transact_ops, transact_if_any,
}
use ovn_route_agent.Ovn.Gateway.Lead.{hosts_by_ref, select_local_gateway_chassis}
use ovn_route_agent.Ovn.Gateway.Drain.{
  is_local, filter_drain_candidates, with_fallback, set_to, counts, count_if, PollReads,
  polled_bindings, polled_chassis, count_ports, count_local_cr_ports, Drained, migrated, poll_step,
  poll_drain, poll_if, drain_rows, drain_gateways,
}

count_if-zero :
    (p : SbPortBinding → Bool) (xs : List SbPortBinding)
    → count_if p xs ≡ 0
    → All (λ x. p x ≡ false) xs
unfolding count_if
count_if-zero p [] h = tt
count_if-zero p (x ∷ xs) h = elim (Bool-cases (p x)) [
  | inl e ↦ let no : suc (count_if p xs) ≡ 0 = rw e at h in absurd (omega arith)
  | inr e ↦ (e, count_if-zero p xs (rw e at h))
]

module _ (fold : String → String → Bool) (gateway_port here : String) where
  -- The host name of the last chassis row with this name or identifier.
  abbrev pub host_of : (ref : String) → List SbChassis → Option String
  host_of ref [] = none
  host_of ref (c ∷ cs) = elim (host_of ref cs) [
    | some host ↦ some host
    | none ↦ if c.name == ref || c.uuid == ref then some c.hostname else none
  ]

  -- The port is a chassisredirect port that passes the gateway port filter and is bound to a chassis
  -- whose host name is that of the agent.
  abbrev pub IsHere : List SbChassis → SbPortBinding → Type 0
  IsHere cs pb =
      (pb.type ≡ "chassisredirect")
      × ((gateway_port ≡ "") ⊎ (pb.logical_port ≡ gateway_port))
      × ((ref : String) × (pb.chassis ≡ some ref)
          × ((ref == "") ≡ false)
          × (fold (or_empty (host_of ref cs)) here ≡ true))

  abbrev first_some : Option String → Option String → Option String
  first_some (some host) other = some host
  first_some none other = other

  lookup-hosts_by_ref :
      (ref : String) (cs : List SbChassis) (m : List (String × String))
      → lookup ref (hosts_by_ref cs m) ≡ first_some (host_of ref cs) (lookup ref m)
  unfolding hosts_by_ref lookup
  lookup-hosts_by_ref ref [] m = refl
  lookup-hosts_by_ref ref (c ∷ cs) m =
      lookup-hosts_by_ref ref cs (insert c.name c.hostname (insert c.uuid c.hostname m))
      ∙ go (host_of ref cs)
    where
      inner :
          lookup ref (insert c.name c.hostname (insert c.uuid c.hostname m))
          ≡ (if c.name == ref || c.uuid == ref then some c.hostname else lookup ref m)
      inner =
          lookup-insert c.name ref c.hostname (insert c.uuid c.hostname m)
          ∙ ground (arith, lookup-insert c.uuid ref c.hostname m)

      go :
          (o : Option String)
          → first_some o (lookup ref (insert c.name c.hostname (insert c.uuid c.hostname m)))
            ≡ first_some
                (elim o [
                  | some host ↦ some host
                  | none ↦ if c.name == ref || c.uuid == ref then some c.hostname else none
                ])
                (lookup ref m)
      go (some host) = refl
      go none = inner ∙ ground arith

  IsHere-counts :
      (cs : List SbChassis) (pb : SbPortBinding)
      → IsHere cs pb
      → counts fold gateway_port here (hosts_by_ref cs []) pb ≡ true
  unfolding counts lookup
  IsHere-counts cs pb (redirect, passes, (ref, bound, named, equal)) =
      rw (redirect, bound, named) (ground (arith, passed, found))
    where
      none_last : (o : Option String) → first_some o none ≡ o
      none_last none = refl
      none_last (some host) = refl

      found : fold (or_empty (lookup ref (hosts_by_ref cs []))) here ≡ true
      found =
          ap (λ o. fold (or_empty o) here)
            (lookup-hosts_by_ref ref cs [] ∙ none_last (host_of ref cs))
          ∙ equal

      passed : (not (gateway_port == "") && not (pb.logical_port == gateway_port)) ≡ false
      passed = ground (arith, eq_iff gateway_port "", eq_iff pb.logical_port gateway_port, passes)

  -- The reads of a poll show no port of the agent's gateways with this chassis.
  abbrev pub AllGone : PollReads → Type 0
  AllGone poll =
      (pbs : List SbPortBinding) × (cs : List SbChassis) × (polled_bindings poll ≡ some pbs)
      × (polled_chassis poll ≡ some cs)
      × All (λ pb. ¬ (IsHere cs pb)) pbs

  some-injective : {m n : ℕ} → some m ≡ some n → m ≡ n
  some-injective h = cc

  count_ports-AllGone :
      (pbs : Option (List SbPortBinding)) (cs : Option (List SbChassis))
      → count_ports fold gateway_port here pbs cs ≡ some 0
      → (xs : List SbPortBinding) × (ys : List SbChassis) × (pbs ≡ some xs)
        × (cs ≡ some ys)
        × All (λ pb. ¬ (IsHere ys pb)) xs
  unfolding count_ports
  count_ports-AllGone none cs h = cc
  count_ports-AllGone (some xs) none h = cc
  count_ports-AllGone (some xs) (some ys) h = (
    xs,
    ys,
    refl,
    refl,
    All-map (λ pb. counts fold gateway_port here (hosts_by_ref ys []) pb ≡ false)
        (λ pb. ¬ (IsHere ys pb)) xs
        (λ pb off is_here. false≢true (sym off ∙ IsHere-counts ys pb is_here))
        (count_if-zero _ xs (some-injective h)),
  )

  -- How the loop came to `migrated`: one of the polls shows that all ports are gone.
  poll_step-migrated :
      (n : Option ℕ) (rest : ℕ → Drained)
      → poll_step n rest ≡ migrated
      → (n ≡ some 0) ⊎ ((m : ℕ) × (rest m ≡ migrated))
  poll_step-migrated none rest h = cc
  poll_step-migrated (some zero) rest h = inl refl
  poll_step-migrated (some (suc n)) rest h = inr (suc n, h)

  poll_drain-migrated :
      (poll : PollReads) (more : List PollReads)
      → poll_drain fold gateway_port here poll more ≡ migrated
      → (last : PollReads) × In last (poll ∷ more) × AllGone last
  unfolding poll_drain count_local_cr_ports
  poll_drain-migrated poll [] h = elim (poll_step-migrated _ _ h) [
    | inl zero_left ↦ (poll, inl refl, count_ports-AllGone _ _ zero_left)
    | inr (m, e) ↦ cc
  ]
  poll_drain-migrated poll (next ∷ more) h = elim (poll_step-migrated _ _ h) [
    | inl zero_left ↦ (poll, inl refl, count_ports-AllGone _ _ zero_left)
    | inr (m, e) ↦ let (last, one, gone) = poll_drain-migrated next more e in (last, inr one, gone)
  ]

  drain_rows-migrated :
      (db : Database) (rows : Option (List NbGatewayChassis)) (polls : Drained) (sent : List Txn)
      → (drain_rows db rows polls sent).0 ≡ migrated
      → polls ≡ migrated
  unfolding drain_rows
  drain_rows-migrated db none polls sent h = cc
  drain_rows-migrated db (some []) polls sent h = cc
  drain_rows-migrated db (some (r ∷ rs)) polls sent h =
      go (transact_if_any db (built db (map (set_to (pos 0)) (r ∷ rs))) sent).0 h
    where
      go : (done : Bool) → poll_if done polls ≡ migrated → polls ≡ migrated
      go true e = e
      go false e = cc

  -- Where `DrainGateways` reports that the gateways have migrated, one of its polls read all port
  -- bindings and chassis, and in what it read no chassisredirect port that passes the gateway port
  -- filter is bound to a chassis, by its name or its identifier, with the host name of the agent, where
  -- of several rows with the same reference the last one counts.
  pub drain_gateways-AllGone :
      (db : Database) (cached : Option (List NbGatewayChassis))
      (selected : Option (List (List Row))) (poll : PollReads) (more : List PollReads)
      (sent : List Txn)
      → (drain_gateways db fold gateway_port cached selected poll more here sent).0 ≡ migrated
      → (last : PollReads) × In last (poll ∷ more) × AllGone last
  unfolding drain_gateways
  drain_gateways-AllGone db cached selected poll more sent h =
      poll_drain-migrated poll more (drain_rows-migrated db _ _ sent h)

-- An operation that puts a row of this chassis with a positive priority to 0.
abbrev pub IsDrain : String → Op → Type 0
IsDrain here (set_priority r p) =
    ((r.chassis_name == here) ≡ true) × (pos 0 <ℤ r.priority) × (p ≡ pos 0)
IsDrain here _ = ⊥

candidates-IsDrain :
    (here : String) (rows : List NbGatewayChassis)
    → All (λ r. IsDrain here (set_to (pos 0) r)) (filter_drain_candidates rows here).0
unfolding filter_drain_candidates
candidates-IsDrain here rows =
    All-filter _ (λ r. is_local here r && ltb_ℤ (pos 0) r.priority) rows
      (λ r e. let (own, high) = &&_parts _ _ e in (own, ltb_ℤ→lt (pos 0) r.priority high, refl))

abbrev AllDrain : String → Option (List NbGatewayChassis) → Type 0
AllDrain here none = Unit
AllDrain here (some rows) = All (λ r. IsDrain here (set_to (pos 0) r)) rows

with_fallback-IsDrain :
    (here : String) (cached : Option (List NbGatewayChassis)) (selected : Option (List (List Row)))
    → AllDrain here (with_fallback filter_drain_candidates here cached selected)
unfolding with_fallback
with_fallback-IsDrain here none selected = tt
with_fallback-IsDrain here (some rows) selected =
    go ((filter_drain_candidates rows here).1) (select_local_gateway_chassis selected)
  where
    go :
        (b : Bool) (more : Option (List NbGatewayChassis))
        → AllDrain here (
            if b
            then some (filter_drain_candidates rows here).0
            else elim more [ none ↦ none | some rs ↦ some (filter_drain_candidates rs here).0 ])
    go true more = candidates-IsDrain here rows
    go false none = tt
    go false (some rs) = candidates-IsDrain here rs

map-All :
    (P : Op → Type 0) (f : NbGatewayChassis → Op) (rs : List NbGatewayChassis)
    → All (λ r. P (f r)) rs
    → All P (map f rs)
map-All P f [] h = tt
map-All P f (r ∷ rs) h = (h.0, map-All P f rs h.1)

-- What one call may append to the transactions sent: nothing, or one transaction of drains.
abbrev pub Drains : String → List Txn → List Txn → Type 0
Drains here before after =
    (after ≡ before) ⊎ ((ops : Txn) × (after ≡ ops ∷ before) × All (IsDrain here) ops)

transact-Drains :
    (db : Database) (here : String) (ops : List Op) (sent : List Txn)
    → All (IsDrain here) ops
    → Drains here sent (transact_if_any db ops sent).1
unfolding transact_if_any transact_ops
transact-Drains db here [] sent h = inl refl
transact-Drains db here (op ∷ ops) sent h = inr (op ∷ ops, refl, h)

drain_rows-Drains :
    (db : Database) (here : String) (rows : Option (List NbGatewayChassis)) (polls : Drained)
    (sent : List Txn)
    → AllDrain here rows
    → Drains here sent (drain_rows db rows polls sent).1
unfolding drain_rows built
drain_rows-Drains db here none polls sent h = inl refl
drain_rows-Drains db here (some []) polls sent h = inl refl
drain_rows-Drains db here (some (r ∷ rs)) polls sent h = transact-Drains db here _ sent (
    All-filter_of_All (IsDrain here) db.builds (map (set_to (pos 0)) (r ∷ rs))
      (map-All (IsDrain here) (set_to (pos 0)) (r ∷ rs) h))

-- Whatever the reads return and the database answers, `DrainGateways` sends at most one
-- transaction, and each of its operations puts a Gateway_Chassis row of this chassis from a
-- positive priority to 0.
pub drain_gateways-Drains :
    (db : Database) (fold : String → String → Bool) (gateway_port here : String)
    (cached : Option (List NbGatewayChassis)) (selected : Option (List (List Row)))
    (poll : PollReads) (more : List PollReads) (sent : List Txn)
    → Drains here sent (drain_gateways db fold gateway_port cached selected poll more here sent).1
unfolding drain_gateways
drain_gateways-Drains db fold gateway_port here cached selected poll more sent =
    drain_rows-Drains db here _ _ sent (with_fallback-IsDrain here cached selected)
