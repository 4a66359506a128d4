-- ===== src/Config/Validate.antt =====
-- `validateConfig` of config.go: each block of its checks is a function.
use Prim.Native.Char.{code}
use ovn_route_agent.Base.{
  ℕ, ◌+◌, ℤ, pos, ltb_ℤ, eqb_ℤ, ◌≤ℤ◌, ◌≡◌, arith, String, Bool, true, false, not, ◌&&◌, ◌||◌,
  Option, none, some, List, [], ◌∷◌, ◌==◌, leb, ltb, eqb, length, is_empty, elem, split_by, Result,
  ok, err, reject, ◌>>=◌, ◌>>◌, if◌then◌else◌,
}
use ovn_route_agent.Net.{Ip, IpNet, is_v4, parse_ip, parse_cidr, ip_text, next_ip_in_subnet}
use ovn_route_agent.Config.Defs.{
  Config, PortForwardRule, PortForwardVip, all_dest_addrs, ConfigError, invalid_veth_nexthop,
  invalid_vrf_name, invalid_route_table_id, invalid_network_cidr, invalid_frr_prefix_list,
  negative_drain_timeout, zero_drain_timeout, negative_settle_delay, negative_grace,
  invalid_metrics_listen, invalid_leak_table_id, leak_table_is_route_table, invalid_provider_ip,
  invalid_forward_table_id, forward_table_is_route_table, invalid_ct_zone,
  forward_table_is_leak_table, invalid_forward_dev, forward_without_leak, invalid_vip, vip_not_v4,
  duplicate_vip, no_rules, invalid_proto, invalid_port, duplicate_rule, both_dest_addrs,
  no_dest_addrs, too_many_dest_addrs, invalid_dest_port, invalid_dest_addr, dest_addr_not_v4,
  duplicate_dest_addr,
}

abbrev pub Checked {ℓ} : Type ℓ → Type ℓ
Checked A = Result ConfigError A

identifier_char : ℕ → Bool
identifier_char c =
    (leb b'a' c && leb c b'z')
    || (leb b'A' c && leb c b'Z')
    || (leb b'0' c && leb c b'9')
    || eqb c b'-'
    || eqb c b'_'
    || eqb c b'.'

all_identifier_chars : String → Bool
all_identifier_chars String.[] = true
all_identifier_chars (String.◌∷◌ c s) = identifier_char (code c) && all_identifier_chars s

-- `isValidIdentifier`
unfoldable pub is_valid_identifier : String → Bool
unfolding identifier_char all_identifier_chars
is_valid_identifier s = all_identifier_chars s && not (s == "")

unfoldable pub is_ip : String → Bool
is_ip s = elim (parse_ip s) [ none ↦ false | some a ↦ true ]

unfoldable pub is_ip_v4 : String → Bool
is_ip_v4 s = elim (parse_ip s) [ none ↦ false | some a ↦ is_v4 a ]

unfoldable pub out_of_range : ℤ → ℕ → ℕ → Bool
out_of_range n lo hi = ltb_ℤ n (pos lo) || ltb_ℤ (pos hi) n

pub out_of_range_false :
    (n : ℤ) (lo hi : ℕ) → out_of_range n lo hi ≡ false → (pos lo ≤ℤ n) × (n ≤ℤ pos hi)
unfolding out_of_range
out_of_range_false n lo hi h = ground arith

unfoldable pub parse_filters : List String → Checked (List IpNet)
parse_filters [] = ok []
parse_filters (s ∷ ss) =
    let rest = parse_filters ss in
    elim (parse_cidr s) [
      | none ↦ err (invalid_network_cidr s)
      | some (a, n) ↦ rest >>= λ ns. ok (n ∷ ns)
    ]

unfoldable pub validate_base : Config → Checked Config
validate_base cfg = do
  reject (not (is_ip cfg.veth_nexthop)) invalid_veth_nexthop
  reject (not (cfg.vrf_name == "") && not (is_valid_identifier cfg.vrf_name)) invalid_vrf_name
  reject (out_of_range cfg.route_table_id 0 252) invalid_route_table_id
  filters ← parse_filters cfg.network_cidrs
  ok (if is_empty cfg.network_cidrs then cfg else record cfg { network_filters = filters })

-- `net.SplitHostPort` reports no error: one colon and no bracket, or a bracketed host.
has_char : ℕ → String → Bool
has_char k String.[] = false
has_char k (String.◌∷◌ c s) = eqb (code c) k || has_char k s

port_behind : List String → Bool
unfolding split_by
port_behind (host ∷ behind ∷ []) = elim (split_by (λ c. eqb c b':') behind) [
  | [] ↦ false
  | before ∷ ports ↦ before == "" && eqb (length ports) 1
]
port_behind _ = false

unfoldable pub splits_host_port : String → Bool
unfolding has_char port_behind split_by
splits_host_port String.[] = false
splits_host_port (String.◌∷◌ c s) =
    if eqb (code c) b'['
    then not (has_char b'[' s) && port_behind (split_by (λ c. eqb c b']') s)
    else not (has_char b'[' s)
      && not (eqb (code c) b']' || has_char b']' s)
      && eqb (length (split_by (λ c. eqb c b':') (String.◌∷◌ c s))) 2

unfoldable pub validate_timing : Config → Checked (Unit {0})
validate_timing cfg = do
  reject (not (cfg.frr_prefix_list == "") && not (is_valid_identifier cfg.frr_prefix_list))
      invalid_frr_prefix_list
  reject (ltb_ℤ cfg.drain_timeout (pos 0)) negative_drain_timeout
  reject (cfg.drain_on_shutdown && eqb_ℤ cfg.drain_timeout (pos 0)) zero_drain_timeout
  reject (ltb_ℤ cfg.drain_settle_delay (pos 0)) negative_settle_delay
  reject (ltb_ℤ cfg.stale_chassis_grace_period (pos 0)) negative_grace
  reject (not (cfg.metrics_listen == "") && not (splits_host_port cfg.metrics_listen))
      invalid_metrics_listen

-- The text of a nil address is "<nil>".
abbrev nil_or_text : Option Ip → String
nil_or_text none = "<nil>"
nil_or_text (some a) = ip_text a

next_text : Option Ip → String
next_text none = "<nil>"
next_text (some a) = nil_or_text (next_ip_in_subnet a)

unfoldable pub provider_ip : Config → String
unfolding next_text
provider_ip cfg =
    if cfg.veth_provider_ip == ""
    then next_text (parse_ip cfg.veth_nexthop)
    else cfg.veth_provider_ip

unfoldable pub validate_leak : Config → Checked Config
validate_leak cfg =
    let checks : Checked Config = (do
      reject (out_of_range cfg.veth_leak_table_id 1 252) invalid_leak_table_id
      reject
          (eqb_ℤ cfg.veth_leak_table_id cfg.route_table_id
            && not (eqb_ℤ cfg.route_table_id (pos 0)))
          leak_table_is_route_table
      reject (not (is_ip (provider_ip cfg))) invalid_provider_ip
      ok (record cfg { veth_provider_ip = provider_ip cfg })) in
    if cfg.veth_leak_enabled then checks else ok cfg

-- The addresses of a rule, from the `k`-th on; `seen` holds those before.
unfoldable pub validate_addrs : ℕ → ℕ → ℕ → List String → List String → Checked (Unit {0})
validate_addrs i j k seen [] = ok tt
validate_addrs i j k seen (a ∷ as') =
    let rest = validate_addrs i j (k + 1) (a ∷ seen) as' in
    do
      reject (not (is_ip a)) (invalid_dest_addr i j k)
      reject (not (is_ip_v4 a)) (dest_addr_not_v4 i j k)
      reject (elem a seen) (duplicate_dest_addr i j k)
      rest

-- Whether a rule with this protocol and port stands among those before: `seenRules[ruleKey]`.
unfoldable pub has_rule : PortForwardRule → List PortForwardRule → Bool
has_rule r [] = false
has_rule r (s ∷ ss) = (s.proto == r.proto && eqb_ℤ s.port r.port) || has_rule r ss

abbrev pub max_backends : ℕ
max_backends = 256

unfoldable pub validate_rule : ℕ → ℕ → List PortForwardRule → PortForwardRule → Checked (Unit {0})
validate_rule i j seen r = do
  reject (not (r.proto == "tcp") && not (r.proto == "udp")) (invalid_proto i j)
  reject (out_of_range r.port 1 65535) (invalid_port i j)
  reject (has_rule r seen) (duplicate_rule i j)
  reject (not (r.dest_addr == "") && not (is_empty r.dest_addrs)) (both_dest_addrs i j)
  reject (is_empty (all_dest_addrs r)) (no_dest_addrs i j)
  reject (ltb max_backends (length (all_dest_addrs r))) (too_many_dest_addrs i j)
  validate_addrs i j 0 [] (all_dest_addrs r)
  reject (out_of_range r.dest_port 0 65535) (invalid_dest_port i j)

unfoldable pub validate_rules :
    ℕ → ℕ → List PortForwardRule → List PortForwardRule → Checked (Unit {0})
validate_rules i j seen [] = ok tt
validate_rules i j seen (r ∷ rs) =
    let rest = validate_rules i (j + 1) (r ∷ seen) rs in validate_rule i j seen r >> rest

unfoldable pub validate_vips : ℕ → List String → List PortForwardVip → Checked (Unit {0})
validate_vips i seen [] = ok tt
validate_vips i seen (pf ∷ pfs) =
    let rest = validate_vips (i + 1) (pf.vip ∷ seen) pfs in
    do
      reject (not (is_ip pf.vip)) (invalid_vip i)
      reject (not (is_ip_v4 pf.vip)) (vip_not_v4 i)
      reject (elem pf.vip seen) (duplicate_vip i)
      reject (is_empty pf.rules) (no_rules i)
      validate_rules i 0 [] pf.rules
      rest

unfoldable pub validate_forwards : Config → Checked (Unit {0})
validate_forwards cfg =
    let checks : Checked (Unit {0}) = (do
      reject (out_of_range cfg.port_forward_table_id 1 252) invalid_forward_table_id
      reject
          (eqb_ℤ cfg.port_forward_table_id cfg.route_table_id
            && not (eqb_ℤ cfg.route_table_id (pos 0)))
          forward_table_is_route_table
      reject (out_of_range cfg.port_forward_ct_zone 1 65535) invalid_ct_zone
      reject (eqb_ℤ cfg.port_forward_table_id cfg.veth_leak_table_id) forward_table_is_leak_table
      reject (not (is_valid_identifier cfg.port_forward_dev)) invalid_forward_dev
      reject (not cfg.veth_leak_enabled) forward_without_leak
      validate_vips 0 [] cfg.port_forwards) in
    if is_empty cfg.port_forwards then ok tt else checks

unfoldable pub validate_config : Config → Checked Config
validate_config cfg₀ = do
  cfg₁ ← validate_base cfg₀
  validate_timing cfg₁
  cfg₂ ← validate_leak cfg₁
  let cfg₃ = record cfg₂ { port_forward_enabled = not (is_empty cfg₂.port_forwards) }
  validate_forwards cfg₃
  ok cfg₃
