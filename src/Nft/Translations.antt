-- ===== src/Nft/Translations.antt =====
-- What the DNAT rules of the rule set translate, and the conntrack zones of both directions.
use ovn_route_agent.Base.{
  ℕ, zero, suc, ℤ, String, List, [], ◌∷◌, ◌++◌, ◌==◌, ◌≡◌, refl, sym, ap, ◌∙◌, if◌then◌else◌,
}
use mathlib.Core.List.{append_assoc, append-nil}
use ovn_route_agent.Config.{PortForwardRule, PortForwardVip, all_dest_addrs}
use ovn_route_agent.Nft.Rules.{Rule, dnat_single, dnat_balanced, Chain}
use ovn_route_agent.Nft.Chains.{target_port, indexed, dnat_for, vip_dnats, dnat_rules}

-- The rules of the chain with this name.
abbrev pub rules_of : (name : String) → List Chain → List Rule
rules_of name [] = []
rules_of name (c ∷ cs) = if c.name == name then c.rules else rules_of name cs

-- A packet of this protocol to this address and port goes to this backend.
pub record Translation : Type 0 where
  pub vip : String
  pub proto : String
  pub port : ℤ
  pub addr : String
  pub dest_port : ℤ

abbrev pub balanced :
    (vip proto : String) (port dest_port : ℤ) → List (ℕ × String) → List Translation
balanced vip proto port dest_port [] = []
balanced vip proto port dest_port ((i, addr) ∷ backends) =
    record { vip = vip; proto = proto; port = port; addr = addr; dest_port = dest_port }
    ∷ balanced vip proto port dest_port backends

-- What a rule translates, over all values of the hash; `IsBalanced` says which value selects which.
unfoldable pub translations_of : Rule → List Translation
translations_of (dnat_single vip proto port addr dest_port) =
    record { vip = vip; proto = proto; port = port; addr = addr; dest_port = dest_port } ∷ []
translations_of (dnat_balanced vip proto port modulus backends dest_port) =
    balanced vip proto port dest_port backends
translations_of _ = []

unfoldable pub translations : List Rule → List Translation
unfolding translations_of
translations [] = []
translations (r ∷ rs) = translations_of r ++ translations rs

-- What the configuration asks for: each VIP, each of its rules, each backend of the rule.
abbrev pub to_backends : (vip : String) → PortForwardRule → List String → List Translation
to_backends vip r [] = []
to_backends vip r (addr ∷ addrs) =
    record { vip = vip; proto = r.proto; port = r.port; addr = addr; dest_port = target_port r }
    ∷ to_backends vip r addrs

abbrev pub by_rules : (vip : String) → List PortForwardRule → List Translation
by_rules vip [] = []
by_rules vip (r ∷ rs) = to_backends vip r (all_dest_addrs r) ++ by_rules vip rs

unfoldable pub configured : List PortForwardVip → List Translation
unfolding all_dest_addrs
configured [] = []
configured (pf ∷ pfs) = by_rules pf.vip pf.rules ++ configured pfs

translations-append :
    (rs ss : List Rule) → translations (rs ++ ss) ≡ translations rs ++ translations ss
unfolding translations
translations-append [] ss = refl
translations-append (r ∷ rs) ss =
    ap (λ t. translations_of r ++ t) (translations-append rs ss)
    ∙ sym (append_assoc (translations_of r) (translations rs) (translations ss))

balanced-indexed :
    (vip : String) (r : PortForwardRule) (i : ℕ) (addrs : List String)
    → balanced vip r.proto r.port (target_port r) (indexed i addrs) ≡ to_backends vip r addrs
balanced-indexed vip r i [] = refl
balanced-indexed vip r i (addr ∷ addrs) = rw (balanced-indexed vip r (suc i) addrs) refl

translations-dnat_for :
    (vip : String) (r : PortForwardRule) (addrs : List String)
    → translations (dnat_for vip r addrs) ≡ to_backends vip r addrs
unfolding translations translations_of
translations-dnat_for vip r [] = refl
translations-dnat_for vip r (a ∷ []) = refl
translations-dnat_for vip r (a ∷ b ∷ addrs) =
    append-nil _ ∙ balanced-indexed vip r 0 (a ∷ b ∷ addrs)

translations-vip_dnats :
    (vip : String) (rs : List PortForwardRule) → translations (vip_dnats vip rs) ≡ by_rules vip rs
unfolding translations
translations-vip_dnats vip [] = refl
translations-vip_dnats vip (r ∷ rs) = rw (
  translations-append (dnat_for vip r (all_dest_addrs r)) (vip_dnats vip rs),
  translations-dnat_for vip r (all_dest_addrs r),
  translations-vip_dnats vip rs,
)

pub translations-dnat_rules :
    (forwards : List PortForwardVip) → translations (dnat_rules forwards) ≡ configured forwards
unfolding translations configured dnat_rules
translations-dnat_rules [] = refl
translations-dnat_rules (pf ∷ pfs) = rw (
  translations-append (vip_dnats pf.vip pf.rules) (dnat_rules pfs),
  translations-vip_dnats pf.vip pf.rules,
  translations-dnat_rules pfs,
)

-- The hash values from `i` on.
abbrev pub hash_values : (i count : ℕ) → List ℕ
hash_values i zero = []
hash_values i (suc n) = i ∷ hash_values (suc i) n

-- The first entries of the pairs.
abbrev pub firsts : List (ℕ × String) → List ℕ
firsts [] = []
firsts ((i, addr) ∷ backends) = i ∷ firsts backends

-- The hash of a packet, taken modulo `modulus`, selects exactly one of the backends, and each backend
-- is selected by one value.
abbrev pub IsBalanced : Rule → Type 0
IsBalanced (dnat_balanced vip proto port modulus backends dest_port) =
    firsts backends ≡ hash_values 0 modulus
IsBalanced _ = Unit
