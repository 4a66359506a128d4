-- ===== src/Ovs/Hairpins.antt =====
-- What `ReconcileOVSHairpinFlows` of ovs.go has sent when it succeeds.
use Prim.Native.String.{◌++◌ as ◌+++◌}
use ovn_route_agent.Base.{
  String, Bool, true, false, ◌||◌, ◌≡◌, refl, sym, ap, ◌∙◌, Option, none, some, List, [], ◌∷◌, ◌==◌,
  is_some, Bool-cases, inl, inr, if◌then◌else◌, All,
}
use ovn_route_agent.Net.{Ip, is_v4, parse_ip}
use ovn_route_agent.Ovs.Flows.{
  Bridge, hairpin_flow, cookie_hairpin, ovs_cmd, Ovs, M, ◌>>=◌, pure, run_ovs, succeeded,
  add_ovs_flow, del_ovs_flows, flow_for, add_hairpin, or_stop, add_hairpins,
  reconcile_ovs_hairpin_flows,
}

abbrev Commands : Type 0
Commands = List (List String)

-- The history after more commands, in their order.
abbrev pub then_sent : Commands → Commands → Commands
then_sent [] h = h
then_sent (c ∷ cs) h = then_sent cs (c ∷ h)

abbrev pub deletion : Bridge → List String
deletion b = ovs_cmd b "ovs-ofctl" ("del-flows" ∷ b.bridge_dev ∷ "cookie=0x998/-1" ∷ [])

-- The flow of one address, for IPv4 and for IPv6.
abbrev pub flow_text : Bridge → (ip mac : String) → (v4 : Bool) → String
flow_text b ip mac true =
    "cookie="
    +++ ("0x998"
        +++ (",priority=910,ip,in_port="
            +++ (b.cached_ofport
                +++ (",ip_dst="
                    +++ (ip
                        +++ ("/32"
                            +++ (",actions=mod_dl_src:"
                                +++ (b.cached_bridge_mac
                                    +++ (",mod_dl_dst:" +++ (mac +++ ",output:in_port"))))))))))
flow_text b ip mac false =
    "cookie="
    +++ ("0x998"
        +++ (",priority=910,ipv6,in_port="
            +++ (b.cached_ofport
                +++ (",ipv6_dst="
                    +++ (ip
                        +++ ("/128"
                            +++ (",actions=mod_dl_src:"
                                +++ (b.cached_bridge_mac
                                    +++ (",mod_dl_dst:" +++ (mac +++ ",output:in_port"))))))))))

abbrev pub flow_command : Bridge → (ip mac : String) → Option Ip → List String
flow_command b ip mac none = []
flow_command b ip mac (some a) =
    ovs_cmd b "ovs-ofctl" ("add-flow" ∷ b.bridge_dev ∷ flow_text b ip mac (is_v4 a) ∷ [])

flow_for-eq :
    (b : Bridge) (ip mac : String) (a : Ip) → flow_for b ip mac a ≡ flow_text b ip mac (is_v4 a)
unfolding hairpin_flow
flow_for-eq b ip mac a = elim (Bool-cases (is_v4 a)) [ inl e ↦ rw e refl | inr e ↦ rw e refl ]

-- One flow for each address, in the order of the map.
abbrev pub additions : Bridge → List (String × String) → Commands
additions b [] = []
additions b ((ip, mac) ∷ macs) = flow_command b ip mac (parse_ip ip) ∷ additions b macs

abbrev pub Parse : List (String × String) → Type 0
Parse macs = All (λ p. is_some (parse_ip p.0) ≡ true) macs

or_stop_lem :
    (k : M Bool) (b : Bool) (h : Commands)
    → (or_stop k b h).0 ≡ true
    → (b ≡ true) × (or_stop k b h ≡ k h)
or_stop_lem k true h e = (refl, refl)
or_stop_lem k false h e = cc

add_hairpin_lem :
    (ovs : Ovs) (b : Bridge) (ip mac : String) (o : Option Ip) (h : Commands)
    → (add_hairpin ovs b ip mac o h).0 ≡ true
    → (is_some o ≡ true) × ((add_hairpin ovs b ip mac o h).1 ≡ flow_command b ip mac o ∷ h)
unfolding add_ovs_flow run_ovs
add_hairpin_lem ovs b ip mac none h e = cc
add_hairpin_lem ovs b ip mac (some a) h e = (refl, rw (flow_for-eq b ip mac a) refl)

add_hairpins_lem :
    (ovs : Ovs) (b : Bridge) (macs : List (String × String)) (h : Commands)
    → (add_hairpins ovs b macs h).0 ≡ true
    → Parse macs × ((add_hairpins ovs b macs h).1 ≡ then_sent (additions b macs) h)
unfolding add_hairpins
add_hairpins_lem ovs b [] h e = (tt, refl)
add_hairpins_lem ovs b ((ip, mac) ∷ macs) h e =
    let first = add_hairpin ovs b ip mac (parse_ip ip) h in
    let (ok, rest) = or_stop_lem (add_hairpins ovs b macs) first.0 first.1 e in
    let (parsed, sent) = add_hairpin_lem ovs b ip mac (parse_ip ip) h ok in
    let (all_parsed, all_sent) =
      add_hairpins_lem ovs b macs first.1 (ap (λ r. r.0) (sym rest) ∙ e) in
    ((parsed, all_parsed), ap (λ r. r.1) rest ∙ all_sent ∙ ap (then_sent (additions b macs)) sent)

-- Outside dry-run mode and with a known port, a reconciliation that returns no error has sent one
-- deletion of the flows with the hairpin cookie and then one flow with this cookie for each address of
-- the map, of the kind of the address, in this order and nothing else, and each address parses. The
-- flow matches what comes from the patch port for this address, and sends it back there with the
-- source MAC of the bridge and the router's MAC.
pub reconcile_ovs_hairpin_flows_sent :
    (ovs : Ovs) (b : Bridge) (macs : List (String × String))
    → b.dry_run ≡ false
    → (b.cached_ofport == "") ≡ false
    → (reconcile_ovs_hairpin_flows ovs b macs []).0 ≡ true
    → Parse macs
      × ((reconcile_ovs_hairpin_flows ovs b macs []).1
          ≡ then_sent (deletion b ∷ additions b macs) [])
unfolding reconcile_ovs_hairpin_flows del_ovs_flows run_ovs
reconcile_ovs_hairpin_flows_sent ovs b macs wet known e =
    ended b.dry_run (b.cached_ofport == "") wet known e
  where
    ended :
        (d u : Bool)
        → d ≡ false
        → u ≡ false
        → ((if d || u
              then pure true
              else del_ovs_flows ovs b cookie_hairpin >>= or_stop (add_hairpins ovs b macs))
            []).0
          ≡ true
        → Parse macs
          × (((if d || u
                  then pure true
                  else del_ovs_flows ovs b cookie_hairpin >>= or_stop (add_hairpins ovs b macs))
                []).1
              ≡ then_sent (additions b macs) (deletion b ∷ []))
    ended true u d n t = cc
    ended false true d n t = cc
    ended false false d n t =
        let (ok, rest) =
          or_stop_lem (add_hairpins ovs b macs) (succeeded (ovs [] (deletion b))) (deletion b ∷ [])
            t in
        let (parsed, sent) =
          add_hairpins_lem ovs b macs (deletion b ∷ []) (ap (λ r. r.0) (sym rest) ∙ t) in
        (parsed, ap (λ r. r.1) rest ∙ sent)
