-- ===== src/Nft/Zones.antt =====
-- The conntrack zones of the rule set: both directions of what the DNAT rules translate.
use ovn_route_agent.Base.{
  ℤ, String, List, [], ◌∷◌, ◌++◌, ◌≡◌, ◌⊎◌, inl, inr, refl, sym, ap, subst, In, In-append,
  In-append_left, In-append_right,
}
use ovn_route_agent.Net.{IpNet}
use ovn_route_agent.Config.{PortForwardRule, PortForwardVip, all_dest_addrs}
use ovn_route_agent.Nft.Rules.{Rule, zone_original, zone_reply}
use ovn_route_agent.Nft.Chains.{ct_zone_rules, reply_zones, zones_for, vip_zones, nft_chains}
use ovn_route_agent.Nft.Translations.{
  Translation, rules_of, translations, to_backends, by_rules, configured, translations-dnat_rules,
}

-- The packet that a client sends.
abbrev pub original_of : Translation → (zone : ℤ) → Rule
original_of t zone = zone_original t.vip t.proto t.port zone

-- The packet that the backend sends back.
abbrev pub reply_of : Translation → (zone : ℤ) → Rule
reply_of t zone = zone_reply t.addr t.proto t.dest_port zone

abbrev pub BothIn : (zone : ℤ) → List Rule → Translation → Type 0
BothIn zone rules t = In (original_of t zone) rules × In (reply_of t zone) rules

-- A rule of the zone chains belongs to one of these translations.
abbrev pub Belongs : (zone : ℤ) → List Translation → Rule → Type 0
Belongs zone ts rule =
    (t : Translation) × In t ts × ((rule ≡ original_of t zone) ⊎ (rule ≡ reply_of t zone))

module _ (zone : ℤ) where
  BothIn-append_left :
      (xs ys : List Rule) (t : Translation) → BothIn zone xs t → BothIn zone (xs ++ ys) t
  BothIn-append_left xs ys t (a, b) = (In-append_left xs ys _ a, In-append_left xs ys _ b)

  BothIn-append_right :
      (xs ys : List Rule) (t : Translation) → BothIn zone ys t → BothIn zone (xs ++ ys) t
  BothIn-append_right xs ys t (a, b) = (In-append_right xs ys _ a, In-append_right xs ys _ b)

  Belongs-append_left :
      (xs ys : List Translation) (rule : Rule) → Belongs zone xs rule → Belongs zone (xs ++ ys) rule
  Belongs-append_left xs ys rule (t, m, e) = (t, In-append_left xs ys t m, e)

  Belongs-append_right :
      (xs ys : List Translation) (rule : Rule) → Belongs zone ys rule → Belongs zone (xs ++ ys) rule
  Belongs-append_right xs ys rule (t, m, e) = (t, In-append_right xs ys t m, e)

  reply_zones-In :
      (vip : String) (r : PortForwardRule) (addrs : List String) (t : Translation)
      → In t (to_backends vip r addrs)
      → (original_of t zone ≡ zone_original vip r.proto r.port zone)
        × In (reply_of t zone) (reply_zones r zone addrs)
  reply_zones-In vip r [] t m = absurd m
  reply_zones-In vip r (a ∷ addrs) t (inl e) =
      (ap (λ t. original_of t zone) e, inl (ap (λ t. reply_of t zone) e))
  reply_zones-In vip r (a ∷ addrs) t (inr m) =
      let (o, i) = reply_zones-In vip r addrs t m in (o, inr i)

  zones_for-BothIn :
      (vip : String) (r : PortForwardRule) (addrs : List String) (t : Translation)
      → In t (to_backends vip r addrs)
      → BothIn zone (zones_for vip r zone addrs) t
  zones_for-BothIn vip r [] t m = absurd m
  zones_for-BothIn vip r (a ∷ addrs) t m =
      let (o, i) = reply_zones-In vip r (a ∷ addrs) t m in (inl o, inr i)

  vip_zones-BothIn :
      (vip : String) (rs : List PortForwardRule) (t : Translation)
      → In t (by_rules vip rs)
      → BothIn zone (vip_zones vip zone rs) t
  vip_zones-BothIn vip [] t m = absurd m
  vip_zones-BothIn vip (r ∷ rs) t m =
      let here = zones_for vip r zone (all_dest_addrs r) in
      elim (In-append (to_backends vip r (all_dest_addrs r)) (by_rules vip rs) t m) [
        | inl l ↦
            BothIn-append_left here (vip_zones vip zone rs) t
              (zones_for-BothIn vip r (all_dest_addrs r) t l)
        | inr l ↦ BothIn-append_right here (vip_zones vip zone rs) t (vip_zones-BothIn vip rs t l)
      ]

  ct_zone_rules-BothIn :
      (forwards : List PortForwardVip) (t : Translation)
      → In t (configured forwards)
      → BothIn zone (ct_zone_rules forwards zone) t
  unfolding ct_zone_rules configured
  ct_zone_rules-BothIn [] t m = absurd m
  ct_zone_rules-BothIn (pf ∷ pfs) t m =
      let here = vip_zones pf.vip zone pf.rules in
      elim (In-append (by_rules pf.vip pf.rules) (configured pfs) t m) [
        | inl l ↦
            BothIn-append_left here (ct_zone_rules pfs zone) t
              (vip_zones-BothIn pf.vip pf.rules t l)
        | inr l ↦ BothIn-append_right here (ct_zone_rules pfs zone) t (ct_zone_rules-BothIn pfs t l)
      ]

  reply_zones-Belongs :
      (vip : String) (r : PortForwardRule) (addrs : List String) (rule : Rule)
      → In rule (reply_zones r zone addrs)
      → Belongs zone (to_backends vip r addrs) rule
  reply_zones-Belongs vip r [] rule m = absurd m
  reply_zones-Belongs vip r (a ∷ addrs) rule (inl e) = (_, inl refl, inr e)
  reply_zones-Belongs vip r (a ∷ addrs) rule (inr m) =
      let (t, i, e) = reply_zones-Belongs vip r addrs rule m in (t, inr i, e)

  zones_for-Belongs :
      (vip : String) (r : PortForwardRule) (addrs : List String) (rule : Rule)
      → In rule (zones_for vip r zone addrs)
      → Belongs zone (to_backends vip r addrs) rule
  zones_for-Belongs vip r [] rule m = absurd m
  zones_for-Belongs vip r (a ∷ addrs) rule (inl e) = (_, inl refl, inl e)
  zones_for-Belongs vip r (a ∷ addrs) rule (inr m) = reply_zones-Belongs vip r (a ∷ addrs) rule m

  vip_zones-Belongs :
      (vip : String) (rs : List PortForwardRule) (rule : Rule)
      → In rule (vip_zones vip zone rs)
      → Belongs zone (by_rules vip rs) rule
  vip_zones-Belongs vip [] rule m = absurd m
  vip_zones-Belongs vip (r ∷ rs) rule m =
      let here = to_backends vip r (all_dest_addrs r) in
      elim (In-append (zones_for vip r zone (all_dest_addrs r)) (vip_zones vip zone rs) rule m) [
        | inl l ↦
            Belongs-append_left here (by_rules vip rs) rule
              (zones_for-Belongs vip r (all_dest_addrs r) rule l)
        | inr l ↦ Belongs-append_right here (by_rules vip rs) rule (vip_zones-Belongs vip rs rule l)
      ]

  ct_zone_rules-Belongs :
      (forwards : List PortForwardVip) (rule : Rule)
      → In rule (ct_zone_rules forwards zone)
      → Belongs zone (configured forwards) rule
  unfolding ct_zone_rules configured
  ct_zone_rules-Belongs [] rule m = absurd m
  ct_zone_rules-Belongs (pf ∷ pfs) rule m =
      let here = by_rules pf.vip pf.rules in
      elim (In-append (vip_zones pf.vip zone pf.rules) (ct_zone_rules pfs zone) rule m) [
        | inl l ↦
            Belongs-append_left here (configured pfs) rule
              (vip_zones-Belongs pf.vip pf.rules rule l)
        | inr l ↦ Belongs-append_right here (configured pfs) rule (ct_zone_rules-Belongs pfs rule l)
      ]

-- Whatever a DNAT rule of the rule set translates, both zone chains put the packets of the client and
-- those that the backend sends back into the configured conntrack zone; and each rule of the two
-- chains is for one direction of something that a DNAT rule translates.
pub zones-translations :
    (forwards : List PortForwardVip) (networks : List IpNet) (snat_ips : List String) (zone : ℤ)
    → let chains = nft_chains forwards networks snat_ips zone in
      let dnats = translations (rules_of "prerouting_dnat" chains) in
      ((t : Translation)
        → In t dnats
        → BothIn zone (rules_of "prerouting_ctzone" chains) t
          × BothIn zone (rules_of "output_ctzone" chains) t)
      × ((rule : Rule)
          → In rule (rules_of "prerouting_ctzone" chains)
            ⊎ In rule (rules_of "output_ctzone" chains)
          → Belongs zone dnats rule)
unfolding nft_chains
zones-translations forwards networks snat_ips zone = (
  λ t m.
      let both =
        ct_zone_rules-BothIn zone forwards t
          (subst (λ ts. In t ts) (translations-dnat_rules forwards) m) in
      (both, both),
  λ rule m.
      subst (λ ts. Belongs zone ts rule) (sym (translations-dnat_rules forwards))
        (ct_zone_rules-Belongs zone forwards rule (elim m [ inl l ↦ l | inr l ↦ l ])),
)
