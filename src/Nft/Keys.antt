-- ===== src/Nft/Keys.antt =====
-- The DNAT rules of an accepted configuration: one for each configured rule, no two with one key.
use mathlib.Core.List.{append_assoc}
use ovn_route_agent.Base.{
  ℤ, String, true, List, [], ◌∷◌, ◌++◌, ◌≡◌, ◌≢◌, inl, inr, refl, sym, ap, ◌∙◌, elem, In, All,
  All-append, arith, eq_iff, ok, length, ◌≤◌,
}
use ovn_route_agent.Net.{IpNet}
use ovn_route_agent.Config.{
  Config, PortForwardRule, PortForwardVip, all_dest_addrs, has_rule, validate_config,
}
use ovn_route_agent.Config.Rules.{ValidRules, ValidVips}
use ovn_route_agent.Config.Sound.{validate_config-IsValid}
use ovn_route_agent.Nft.Rules.{Rule, dnat_single, dnat_balanced}
use ovn_route_agent.Nft.Chains.{dnat_for, vip_dnats, dnat_rules, nft_chains}
use ovn_route_agent.Nft.Translations.{rules_of}

-- What a DNAT rule matches.
pub record Key : Type 0 where
  pub vip : String
  pub proto : String
  pub port : ℤ

unfoldable pub keys_of : Rule → List Key
keys_of (dnat_single vip proto port addr dest_port) =
    record { vip = vip; proto = proto; port = port } ∷ []
keys_of (dnat_balanced vip proto port modulus backends dest_port) =
    record { vip = vip; proto = proto; port = port } ∷ []
keys_of _ = []

unfoldable pub dnat_keys : List Rule → List Key
unfolding keys_of
dnat_keys [] = []
dnat_keys (r ∷ rs) = keys_of r ++ dnat_keys rs

abbrev pub key_for : (vip : String) → PortForwardRule → Key
key_for vip r = record { vip = vip; proto = r.proto; port = r.port }

abbrev pub rule_keys : (vip : String) → List PortForwardRule → List Key
rule_keys vip [] = []
rule_keys vip (r ∷ rs) = key_for vip r ∷ rule_keys vip rs

abbrev pub configured_keys : List PortForwardVip → List Key
configured_keys [] = []
configured_keys (pf ∷ pfs) = rule_keys pf.vip pf.rules ++ configured_keys pfs

-- No two of them are equal.
abbrev pub Apart : List Key → Type 0
Apart [] = Unit
Apart (k ∷ ks) = All (λ j. k ≢ j) ks × Apart ks

Apart-append :
    (xs ys : List Key) → Apart xs → Apart ys → All (λ x. All (λ y. x ≢ y) ys) xs → Apart (xs ++ ys)
Apart-append [] ys a b between = b
Apart-append (x ∷ xs) ys a b between =
    (All-append _ xs ys a.0 between.0, Apart-append xs ys a.1 b between.1)

has_rule-In :
    (s r : PortForwardRule) (seen : List PortForwardRule)
    → In s seen
    → s.proto ≡ r.proto
    → s.port ≡ r.port
    → has_rule r seen ≡ true
unfolding has_rule
has_rule-In s r [] m p q = absurd m
has_rule-In s r (t ∷ seen) (inl e) p q =
    ground
      (arith, eq_iff t.proto r.proto, sym (ap (λ x. x.proto) e) ∙ p, sym (ap (λ x. x.port) e) ∙ q)
has_rule-In s r (t ∷ seen) (inr m) p q = ground (arith, has_rule-In s r seen m p q)

rule_keys-fresh :
    (vip : String) (s : PortForwardRule) (seen rs : List PortForwardRule)
    → In s seen
    → ValidRules seen rs
    → All (λ j. key_for vip s ≢ j) (rule_keys vip rs)
rule_keys-fresh vip s seen [] m v = tt
rule_keys-fresh vip s seen (r ∷ rs) m (valid, new, rest) = (
  λ e. ground (arith, has_rule-In s r seen m (ap (λ k. k.proto) e) (ap (λ k. k.port) e), new),
  rule_keys-fresh vip s (r ∷ seen) rs (inr m) rest,
)

rule_keys-Apart :
    (vip : String) (seen rs : List PortForwardRule) → ValidRules seen rs → Apart (rule_keys vip rs)
rule_keys-Apart vip seen [] v = tt
rule_keys-Apart vip seen (r ∷ rs) (valid, new, rest) =
    (rule_keys-fresh vip r (r ∷ seen) rs (inl refl) rest, rule_keys-Apart vip (r ∷ seen) rs rest)

rule_keys-vip :
    (vip : String) (rs : List PortForwardRule) (P : Key → Type 0)
    → ((k : Key) → k.vip ≡ vip → P k)
    → All P (rule_keys vip rs)
rule_keys-vip vip [] P f = tt
rule_keys-vip vip (r ∷ rs) P f = (f (key_for vip r) refl, rule_keys-vip vip rs P f)

configured_keys-fresh :
    (vip : String) (seen : List String) (pfs : List PortForwardVip)
    → elem vip seen ≡ true
    → ValidVips seen pfs
    → All (λ j. j.vip ≢ vip) (configured_keys pfs)
unfolding elem
configured_keys-fresh vip seen [] m v = tt
configured_keys-fresh vip seen (pf ∷ pfs) m (address, new, some_rule, rules, rest) =
    All-append _ (rule_keys pf.vip pf.rules) (configured_keys pfs)
      (rule_keys-vip pf.vip pf.rules _ λ k e f. ground (arith, m, rw (sym e ∙ f) at new))
      (configured_keys-fresh vip (pf.vip ∷ seen) pfs (ground (arith, m)) rest)

differs-All : (k : Key) (js : List Key) → All (λ j. j.vip ≢ k.vip) js → All (λ j. k ≢ j) js
differs-All k [] a = tt
differs-All k (j ∷ js) (a, as') = (λ e. a (sym (ap (λ x. x.vip) e)), differs-All k js as')

configured_keys-Apart :
    (seen : List String) (pfs : List PortForwardVip)
    → ValidVips seen pfs
    → Apart (configured_keys pfs)
unfolding elem
configured_keys-Apart seen [] v = tt
configured_keys-Apart seen (pf ∷ pfs) (address, new, some_rule, rules, rest) =
    let fresh =
      configured_keys-fresh pf.vip (pf.vip ∷ seen) pfs (ground (arith, eq_iff pf.vip pf.vip))
        rest in
    Apart-append (rule_keys pf.vip pf.rules) (configured_keys pfs)
      (rule_keys-Apart pf.vip [] pf.rules rules) (configured_keys-Apart (pf.vip ∷ seen) pfs rest)
      (rule_keys-vip pf.vip pf.rules _
        λ k e. differs-All k (configured_keys pfs) (rw (← e) at fresh))

dnat_keys-append : (rs ss : List Rule) → dnat_keys (rs ++ ss) ≡ dnat_keys rs ++ dnat_keys ss
unfolding dnat_keys
dnat_keys-append [] ss = refl
dnat_keys-append (r ∷ rs) ss =
    rw (dnat_keys-append rs ss) (sym (append_assoc (keys_of r) (dnat_keys rs) (dnat_keys ss)))

dnat_keys-dnat_for :
    (vip : String) (r : PortForwardRule) (addrs : List String)
    → 1 ≤ length addrs
    → dnat_keys (dnat_for vip r addrs) ≡ key_for vip r ∷ []
unfolding dnat_keys keys_of
dnat_keys-dnat_for vip r [] some_addrs = ground (arith, some_addrs)
dnat_keys-dnat_for vip r (a ∷ []) some_addrs = refl
dnat_keys-dnat_for vip r (a ∷ b ∷ addrs) some_addrs = refl

dnat_keys-vip_dnats :
    (vip : String) (seen rs : List PortForwardRule)
    → ValidRules seen rs
    → dnat_keys (vip_dnats vip rs) ≡ rule_keys vip rs
unfolding dnat_keys
dnat_keys-vip_dnats vip seen [] v = refl
dnat_keys-vip_dnats vip seen (r ∷ rs) (valid, new, rest) =
    rw
      (
        dnat_keys-append (dnat_for vip r (all_dest_addrs r)) (vip_dnats vip rs),
        dnat_keys-dnat_for vip r (all_dest_addrs r) valid.some_addrs,
        dnat_keys-vip_dnats vip (r ∷ seen) rs rest,
      )
      refl

dnat_keys-dnat_rules :
    (seen : List String) (pfs : List PortForwardVip)
    → ValidVips seen pfs
    → dnat_keys (dnat_rules pfs) ≡ configured_keys pfs
unfolding dnat_keys dnat_rules
dnat_keys-dnat_rules seen [] v = refl
dnat_keys-dnat_rules seen (pf ∷ pfs) (address, new, some_rule, rules, rest) =
    rw
      (
        dnat_keys-append (vip_dnats pf.vip pf.rules) (dnat_rules pfs),
        dnat_keys-vip_dnats pf.vip [] pf.rules rules,
        dnat_keys-dnat_rules (pf.vip ∷ seen) pfs rest,
      )
      refl

-- In an accepted configuration each configured rule has exactly one DNAT rule, in the order of the
-- configuration, and no two DNAT rules have the same text of the address, protocol and port.
pub dnat_keys-Apart :
    (cfg c : Config) (networks : List IpNet) (snat_ips : List String)
    → validate_config cfg ≡ ok c
    → let dnats =
        rules_of "prerouting_dnat"
          (nft_chains c.port_forwards networks snat_ips c.port_forward_ct_zone) in
      (dnat_keys dnats ≡ configured_keys c.port_forwards) × Apart (dnat_keys dnats)
unfolding nft_chains
dnat_keys-Apart cfg c networks snat_ips accepted =
    let vips = (validate_config-IsValid cfg c accepted).vips in
    let same = dnat_keys-dnat_rules [] c.port_forwards vips in
    (same, rw same (configured_keys-Apart [] c.port_forwards vips))
