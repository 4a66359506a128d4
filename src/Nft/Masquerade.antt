-- ===== src/Nft/Masquerade.antt =====
-- The masquerading of the rule set: which backends and which sources.
use ovn_route_agent.Base.{
  ℤ, String, Bool, true, false, List, [], ◌∷◌, ◌++◌, ◌≡◌, ◌≢◌, ◌⊎◌, ◌↔◌, inl, inr, refl, sym, ap,
  ◌∙◌, subst, map, In, In-append, In-append_left, In-append_right, Bool-cases, sort_strings,
  compact, if◌then◌else◌,
}
use ovn_route_agent.Net.{IpNet, net_text}
use ovn_route_agent.Config.{PortForwardRule, PortForwardVip, effective_masquerade, all_dest_addrs}
use ovn_route_agent.Nft.Rules.{Rule, masquerade_backend, masquerade_sources}
use ovn_route_agent.Nft.Chains.{
  target_port, snat_for, vip_snats, snat_entries, vips_where, each_vip, from_sources, snat_rules,
  snat_chain, nft_chains,
}
use ovn_route_agent.Nft.Translations.{rules_of}

-- The backends of the rules that masquerade.
abbrev pub ForBackend : List PortForwardVip → Rule → Type 0
ForBackend forwards rule =
    (pf : PortForwardVip) × (r : PortForwardRule) × (addr : String) × In pf forwards
    × In r pf.rules
    × In addr (all_dest_addrs r)
    × (effective_masquerade r pf.masquerade ≡ true)
    × (rule ≡ masquerade_backend addr r.proto (target_port r))

-- The VIPs with a flag, for these sources.
abbrev pub ForSources :
    (PortForwardVip → Bool) → List PortForwardVip → (sources : List String) → Rule → Type 0
ForSources p forwards sources rule =
    (pf : PortForwardVip) × In pf forwards
    × (p pf ≡ true)
    × (sources ≢ [])
    × (rule ≡ masquerade_sources sources pf.vip)

snat_for-In :
    (r : PortForwardRule) (addrs : List String) (rule : Rule)
    → In rule (snat_for r addrs)
      ↔ ((addr : String) × In addr addrs × (rule ≡ masquerade_backend addr r.proto (target_port r)))
snat_for-In r [] rule = (λ m. absurd m, λ (addr, m, e). absurd m)
snat_for-In r (a ∷ addrs) rule = (
  λ m. elim m [
    | inl e ↦ (a, inl refl, e)
    | inr n ↦ let (addr, i, e) = (snat_for-In r addrs rule).0 n in (addr, inr i, e)
  ],
  λ (addr, m, e). elim m [
    | inl f ↦ inl (e ∙ ap (λ x. masquerade_backend x r.proto (target_port r)) f)
    | inr n ↦ inr ((snat_for-In r addrs rule).1 (addr, n, e))
  ],
)

-- What a rule of a VIP contributes.
abbrev OfRules : (masquerade : Bool) → List PortForwardRule → Rule → Type 0
OfRules masquerade rs rule =
    (r : PortForwardRule) × (addr : String) × In r rs
    × In addr (all_dest_addrs r)
    × (effective_masquerade r masquerade ≡ true)
    × (rule ≡ masquerade_backend addr r.proto (target_port r))

if_In :
    (b : Bool) (rules : List Rule) (rule : Rule)
    → In rule (if b then rules else [])
    → (b ≡ true) × In rule rules
if_In true rules rule m = (refl, m)
if_In false rules rule m = absurd m

vip_snats-In :
    (masquerade : Bool) (rs : List PortForwardRule) (rule : Rule)
    → In rule (vip_snats masquerade rs) ↔ OfRules masquerade rs rule
vip_snats-In masquerade [] rule = (λ m. absurd m, λ (r, addr, m, i, e, q). absurd m)
vip_snats-In masquerade (r ∷ rs) rule =
    let here = snat_for r (all_dest_addrs r) in
    let first = if effective_masquerade r masquerade then here else [] in
    (
      λ m. elim (In-append first (vip_snats masquerade rs) rule m) [
        | inl l ↦
            let (e, k) = if_In (effective_masquerade r masquerade) here rule l in
            let (addr, i, q) = (snat_for-In r (all_dest_addrs r) rule).0 k in
            (r, addr, inl refl, i, e, q)
        | inr l ↦
            let (s, addr, i, j, e, q) = (vip_snats-In masquerade rs rule).0 l in
            (s, addr, inr i, j, e, q)
      ],
      λ (s, addr, m, i, e, q). elim m [
        | inl f ↦
            In-append_left first (vip_snats masquerade rs) rule
              (rw (← f, e) ((snat_for-In s (all_dest_addrs s) rule).1 (addr, i, q)))
        | inr n ↦
            In-append_right first (vip_snats masquerade rs) rule
              ((vip_snats-In masquerade rs rule).1 (s, addr, n, i, e, q))
      ],
    )

snat_entries-In :
    (forwards : List PortForwardVip) (rule : Rule)
    → In rule (snat_entries forwards) ↔ ForBackend forwards rule
unfolding snat_entries
snat_entries-In [] rule = (λ m. absurd m, λ (pf, r, addr, m, i, j, e, q). absurd m)
snat_entries-In (pf ∷ pfs) rule =
    let here = vip_snats pf.masquerade pf.rules in
    (
      λ m. elim (In-append here (snat_entries pfs) rule m) [
        | inl l ↦
            let (r, addr, i, j, e, q) = (vip_snats-In pf.masquerade pf.rules rule).0 l in
            (pf, r, addr, inl refl, i, j, e, q)
        | inr l ↦
            let (qf, r, addr, i, j, k, e, q) = (snat_entries-In pfs rule).0 l in
            (qf, r, addr, inr i, j, k, e, q)
      ],
      λ (qf, r, addr, m, j, k, e, q). elim m [
        | inl f ↦
            In-append_left here (snat_entries pfs) rule
              ((vip_snats-In pf.masquerade pf.rules rule).1 (r, addr, rw f at j, k, rw f at e, q))
        | inr n ↦
            In-append_right here (snat_entries pfs) rule
              ((snat_entries-In pfs rule).1 (qf, r, addr, n, j, k, e, q))
      ],
    )

each_vip-In :
    (p : PortForwardVip → Bool) (sources : List String) (forwards : List PortForwardVip)
    (rule : Rule)
    → sources ≢ []
    → In rule (each_vip sources (vips_where p forwards)) ↔ ForSources p forwards sources rule
unfolding vips_where
each_vip-In p sources [] rule some_source = (λ m. absurd m, λ (pf, m, e, s, q). absurd m)
each_vip-In p sources (pf ∷ pfs) rule some_source =
    let (to, from) = each_vip-In p sources pfs rule some_source in
    elim (Bool-cases (p pf)) [
      | inl e ↦ rw e (
        λ m. elim m [
          | inl q ↦ (pf, inl refl, e, some_source, q)
          | inr n ↦ let (qf, i, f, s, q) = to n in (qf, inr i, f, s, q)
        ],
        λ (qf, m, f, s, q). elim m [
          | inl g ↦ inl (q ∙ ap (λ x. masquerade_sources sources x.vip) g)
          | inr n ↦ inr (from (qf, n, f, s, q))
        ],
      )
      | inr e ↦ rw e (
        λ m. let (qf, i, f, s, q) = to m in (qf, inr i, f, s, q),
        λ (qf, m, f, s, q). elim m [ inl g ↦ cc | inr n ↦ from (qf, n, f, s, q) ],
      )
    ]

from_sources-In :
    (p : PortForwardVip → Bool) (sources : List String) (forwards : List PortForwardVip)
    (rule : Rule)
    → In rule (from_sources sources (vips_where p forwards)) ↔ ForSources p forwards sources rule
from_sources-In p [] forwards rule = (λ m. absurd m, λ (pf, i, e, s, q). absurd (s refl))
from_sources-In p (s ∷ sources) forwards rule = each_vip-In p (s ∷ sources) forwards rule λ e. cc

rules_of-snat_chain : (rules : List Rule) → rules_of "postrouting_snat" (snat_chain rules) ≡ rules
rules_of-snat_chain [] = refl
rules_of-snat_chain (r ∷ rs) = refl

-- The sources of router masquerade: the SNAT addresses, sorted and once each.
abbrev pub router_sources : List String → List String
router_sources snat_ips = compact (sort_strings snat_ips)

snat_rules-In :
    (forwards : List PortForwardVip) (networks snat_ips : List String) (rule : Rule)
    → In rule (snat_rules forwards networks snat_ips) ↔ (
        ForBackend forwards rule
        ⊎ (ForSources (λ pf. pf.hairpin_masquerade) forwards networks rule
            ⊎ ForSources (λ pf. pf.router_masquerade) forwards (router_sources snat_ips) rule))
unfolding snat_rules
snat_rules-In forwards networks snat_ips rule =
    let hairpins = from_sources networks (vips_where (λ pf. pf.hairpin_masquerade) forwards) in
    let routers =
      from_sources (router_sources snat_ips) (vips_where (λ pf. pf.router_masquerade) forwards) in
    let by_backend = snat_entries-In forwards rule in
    let by_hairpin = from_sources-In (λ pf. pf.hairpin_masquerade) networks forwards rule in
    let by_router =
      from_sources-In (λ pf. pf.router_masquerade) (router_sources snat_ips) forwards rule in
    (
      λ m. elim (In-append (snat_entries forwards) (hairpins ++ routers) rule m) [
        | inl l ↦ inl (by_backend.0 l)
        | inr r ↦ elim (In-append hairpins routers rule r) [
          | inl l ↦ inr (inl (by_hairpin.0 l))
          | inr k ↦ inr (inr (by_router.0 k))
        ]
      ],
      λ m. elim m [
        | inl l ↦ In-append_left (snat_entries forwards) (hairpins ++ routers) rule (by_backend.1 l)
        | inr r ↦ In-append_right (snat_entries forwards) (hairpins ++ routers) rule (elim r [
          | inl l ↦ In-append_left hairpins routers rule (by_hairpin.1 l)
          | inr k ↦ In-append_right hairpins routers rule (by_router.1 k)
        ])
      ],
    )

-- The SNAT chain of the rule set holds exactly these rules: one for each backend of a rule that
-- masquerades by its own setting or else by that of its VIP; one for each VIP with hairpin
-- masquerading, from all provider networks, if there are any; and one for each VIP with router
-- masquerading, from all SNAT addresses, if there are any.
pub masquerade_iff :
    (forwards : List PortForwardVip) (networks : List IpNet) (snat_ips : List String) (zone : ℤ)
    (rule : Rule)
    → In rule (rules_of "postrouting_snat" (nft_chains forwards networks snat_ips zone)) ↔ (
        ForBackend forwards rule
        ⊎ (ForSources (λ pf. pf.hairpin_masquerade) forwards (map net_text networks) rule
            ⊎ ForSources (λ pf. pf.router_masquerade) forwards (router_sources snat_ips) rule))
unfolding nft_chains
masquerade_iff forwards networks snat_ips zone rule =
    let rules = snat_rules forwards (map net_text networks) snat_ips in
    let (to, from) = snat_rules-In forwards (map net_text networks) snat_ips rule in
    (
      λ m. to (subst (In rule) (rules_of-snat_chain rules) m),
      λ m. subst (In rule) (sym (rules_of-snat_chain rules)) (from m),
    )
