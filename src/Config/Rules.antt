-- ===== src/Config/Rules.antt =====
-- What `validateConfig` guarantees of the port-forward rules that it accepts.
use ovn_route_agent.Base.{
  ℕ, ◌+◌, ◌≤◌, pos, ◌≤ℤ◌, String, Bool, true, false, not, ◌&&◌, ◌≡◌, ◌⊎◌, List, [], ◌∷◌, ◌==◌,
  arith, eq_iff, inl, inr, refl, ltb, length, is_empty, elem, ok, sym, >>=-eq-ok,
}
use mathlib.Core.Bool.{false≢true}
use ovn_route_agent.Config.Defs.{PortForwardRule, PortForwardVip, all_dest_addrs}
use ovn_route_agent.Config.Validate.{
  is_ip_v4, max_backends, has_rule, validate_addrs, validate_rule, validate_rules, validate_vips,
  out_of_range, out_of_range_false,
}

-- Texts of IPv4 addresses, none of them twice as a text and none in `seen`.
abbrev pub FreshV4 : List String → List String → Type 0
FreshV4 seen [] = Unit
FreshV4 seen (a ∷ as') = (is_ip_v4 a ≡ true) × (elem a seen ≡ false) × FreshV4 (a ∷ seen) as'

validate_addrs-FreshV4 :
    (i j k : ℕ) (seen as' : List String) → validate_addrs i j k seen as' ≡ ok tt → FreshV4 seen as'
unfolding validate_addrs
validate_addrs-FreshV4 i j k seen [] h = tt
validate_addrs-FreshV4 i j k seen (a ∷ as') h =
    ground (arith, validate_addrs-FreshV4 i j (k + 1) (a ∷ seen) as')

nand_parts : (a b : Bool) → (not a && not b) ≡ false → (a ≡ true) ⊎ (b ≡ true)
nand_parts a b h = ground arith

empty_list : (xs : List String) → is_empty xs ≡ true → xs ≡ []
empty_list [] e = refl
empty_list (x ∷ xs) e = cc

one_of_two :
    (a : String) (xs : List String)
    → (not (a == "") && not (is_empty xs)) ≡ false
    → (a ≡ "") ⊎ (xs ≡ [])
one_of_two a xs e = elim (nand_parts (a == "") (is_empty xs) e) [
  | inl t ↦ inl (ground (arith, eq_iff a ""))
  | inr t ↦ inr (empty_list xs t)
]

ltb-false : (a b : ℕ) → ltb a b ≡ false → b ≤ a
ltb-false a b h = ground arith

-- An accepted rule.
pub record IsValidRule (r : PortForwardRule) : Type 0 where
  pub known_proto : ((r.proto == "tcp") ≡ true) ⊎ ((r.proto == "udp") ≡ true)
  pub port_from : pos 1 ≤ℤ r.port
  pub port_to : r.port ≤ℤ pos 65535
  pub one_form : (r.dest_addr ≡ "") ⊎ (r.dest_addrs ≡ [])
  pub some_addrs : 1 ≤ length (all_dest_addrs r)
  pub few_addrs : length (all_dest_addrs r) ≤ max_backends
  pub fresh_addrs : FreshV4 [] (all_dest_addrs r)
  pub dest_port_from : pos 0 ≤ℤ r.dest_port
  pub dest_port_to : r.dest_port ≤ℤ pos 65535

-- What the checks of a rule come to.
record Checks (i j : ℕ) (seen : List PortForwardRule) (r : PortForwardRule) : Type 0 where
  proto : (not (r.proto == "tcp") && not (r.proto == "udp")) ≡ false
  port : out_of_range r.port 1 65535 ≡ false
  new : has_rule r seen ≡ false
  one_form : (not (r.dest_addr == "") && not (is_empty r.dest_addrs)) ≡ false
  some_addrs : is_empty (all_dest_addrs r) ≡ false
  few_addrs : ltb max_backends (length (all_dest_addrs r)) ≡ false
  addrs : validate_addrs i j 0 [] (all_dest_addrs r) ≡ ok tt
  dest_port : out_of_range r.dest_port 0 65535 ≡ false

validate_rule-Checks :
    (i j : ℕ) (seen : List PortForwardRule) (r : PortForwardRule)
    → validate_rule i j seen r ≡ ok tt
    → Checks i j seen r
unfolding validate_rule
validate_rule-Checks i j seen r h = ground arith

length_pos {ℓ} : {A : Type ℓ} (xs : List A) → is_empty xs ≡ false → 1 ≤ length xs
length_pos [] h = absurd (false≢true (sym h))
length_pos (x ∷ xs) h = omega arith

Checks-IsValidRule :
    (i j : ℕ) (seen : List PortForwardRule) (r : PortForwardRule)
    → Checks i j seen r
    → IsValidRule r
Checks-IsValidRule i j seen r c =
    let (from, to) = out_of_range_false r.port 1 65535 c.port in
    let (dest_from, dest_to) = out_of_range_false r.dest_port 0 65535 c.dest_port in
    record {
      known_proto = nand_parts _ _ c.proto;
      port_from = from;
      port_to = to;
      one_form = one_of_two r.dest_addr r.dest_addrs c.one_form;
      some_addrs = length_pos (all_dest_addrs r) c.some_addrs;
      few_addrs = ltb-false max_backends _ c.few_addrs;
      fresh_addrs = validate_addrs-FreshV4 i j 0 [] (all_dest_addrs r) c.addrs;
      dest_port_from = dest_from;
      dest_port_to = dest_to;
    }

-- Valid rules, no two of them for one protocol and port.
abbrev pub ValidRules : List PortForwardRule → List PortForwardRule → Type 0
ValidRules seen [] = Unit
ValidRules seen (r ∷ rs) = IsValidRule r × (has_rule r seen ≡ false) × ValidRules (r ∷ seen) rs

validate_rules-ValidRules :
    (i j : ℕ) (seen rs : List PortForwardRule)
    → validate_rules i j seen rs ≡ ok tt
    → ValidRules seen rs
unfolding validate_rules
validate_rules-ValidRules i j seen [] h = tt
validate_rules-ValidRules i j seen (r ∷ rs) h =
    let (_, first, rest) =
      >>=-eq-ok (validate_rule i j seen r) (λ _. validate_rules i (j + 1) (r ∷ seen) rs) h in
    let c = validate_rule-Checks i j seen r first in
    (Checks-IsValidRule i j seen r c, c.new, validate_rules-ValidRules i (j + 1) (r ∷ seen) rs rest)

-- Distinct IPv4 VIPs with at least one rule, and valid rules only.
abbrev pub ValidVips : List String → List PortForwardVip → Type 0
ValidVips seen [] = Unit
ValidVips seen (pf ∷ pfs) =
    (is_ip_v4 pf.vip ≡ true)
    × (elem pf.vip seen ≡ false)
    × (is_empty pf.rules ≡ false)
    × ValidRules [] pf.rules
    × ValidVips (pf.vip ∷ seen) pfs

-- The guards of one VIP, with the two loops shut.
vip_checks :
    (i : ℕ) (seen : List String) (pf : PortForwardVip) (pfs : List PortForwardVip)
    → validate_vips i seen (pf ∷ pfs) ≡ ok tt
    → (is_ip_v4 pf.vip ≡ true)
      × (elem pf.vip seen ≡ false)
      × (is_empty pf.rules ≡ false)
      × (validate_rules i 0 [] pf.rules ≡ ok tt)
      × (validate_vips (i + 1) (pf.vip ∷ seen) pfs ≡ ok tt)
unfolding validate_vips
vip_checks i seen pf pfs h = ground arith

pub validate_vips-ValidVips :
    (i : ℕ) (seen : List String) (pfs : List PortForwardVip)
    → validate_vips i seen pfs ≡ ok tt
    → ValidVips seen pfs
validate_vips-ValidVips i seen [] h = tt
validate_vips-ValidVips i seen (pf ∷ pfs) h =
    let (address, new, some_rule, rules, rest) = vip_checks i seen pf pfs h in
    (
      address,
      new,
      some_rule,
      validate_rules-ValidRules i 0 [] pf.rules rules,
      validate_vips-ValidVips (i + 1) (pf.vip ∷ seen) pfs rest,
    )
