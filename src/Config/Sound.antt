-- ===== src/Config/Sound.antt =====
-- `validateConfig` accepts only valid configurations, and its stages change three fields at most.
use ovn_route_agent.Base.{
  ℤ, pos, ◌≤ℤ◌, ◌<ℤ◌, String, true, false, not, ◌&&◌, ◌≡◌, ◌≢◌, refl, sym, ap, ◌∙◌, subst, List, [],
  ◌∷◌, arith, eqb_ℤ, is_empty, ok, >>=-eq-ok,
}
use ovn_route_agent.Config.Defs.{Config}
use ovn_route_agent.Config.Validate.{
  Checked, is_ip, out_of_range, out_of_range_false, parse_filters, validate_base, validate_timing,
  validate_leak, validate_vips, validate_forwards, validate_config,
}
use ovn_route_agent.Config.Rules.{ValidVips, validate_vips-ValidVips}

-- The tables, addresses and delays that the rest of the agent relies on.
pub record IsValid (c : Config) : Type 0 where
  pub nexthop : is_ip c.veth_nexthop ≡ true
  pub route_table_from : pos 0 ≤ℤ c.route_table_id
  pub route_table_to : c.route_table_id ≤ℤ pos 252
  pub filters : c.network_cidrs ≢ [] → parse_filters c.network_cidrs ≡ ok c.network_filters
  pub drain_timeout : pos 0 ≤ℤ c.drain_timeout
  pub drain_bounded : c.drain_on_shutdown ≡ true → pos 0 <ℤ c.drain_timeout
  pub settle_delay : pos 0 ≤ℤ c.drain_settle_delay
  pub grace : pos 0 ≤ℤ c.stale_chassis_grace_period
  pub leak_table_from : c.veth_leak_enabled ≡ true → pos 1 ≤ℤ c.veth_leak_table_id
  pub leak_table_to : c.veth_leak_enabled ≡ true → c.veth_leak_table_id ≤ℤ pos 252
  pub leak_table_own : c.veth_leak_enabled ≡ true → c.veth_leak_table_id ≢ c.route_table_id
  pub leak_provider : c.veth_leak_enabled ≡ true → is_ip c.veth_provider_ip ≡ true
  pub enabled : c.port_forward_enabled ≡ not (is_empty c.port_forwards)
  pub forward_leak : c.port_forwards ≢ [] → c.veth_leak_enabled ≡ true
  pub forward_table_from : c.port_forwards ≢ [] → pos 1 ≤ℤ c.port_forward_table_id
  pub forward_table_to : c.port_forwards ≢ [] → c.port_forward_table_id ≤ℤ pos 252
  pub forward_table_own : c.port_forwards ≢ [] → c.port_forward_table_id ≢ c.route_table_id
  pub forward_table_not_leak : c.port_forwards ≢ [] → c.port_forward_table_id ≢ c.veth_leak_table_id
  pub forward_zone_from : c.port_forwards ≢ [] → pos 1 ≤ℤ c.port_forward_ct_zone
  pub forward_zone_to : c.port_forwards ≢ [] → c.port_forward_ct_zone ≤ℤ pos 65535
  pub vips : ValidVips [] c.port_forwards

record BaseChecks (cfg c : Config) : Type 0 where
  nexthop : is_ip c.veth_nexthop ≡ true
  table : out_of_range c.route_table_id 0 252 ≡ false
  filters : c.network_cidrs ≢ [] → parse_filters c.network_cidrs ≡ ok c.network_filters
  same : c ≡ record cfg { network_filters = c.network_filters }

validate_base-BaseChecks : (cfg c : Config) → validate_base cfg ≡ ok c → BaseChecks cfg c
unfolding validate_base
validate_base-BaseChecks cfg c h = ground arith

record TimingChecks (c : Config) : Type 0 where
  timeout : pos 0 ≤ℤ c.drain_timeout
  bounded : c.drain_on_shutdown ≡ true → pos 0 <ℤ c.drain_timeout
  settle : pos 0 ≤ℤ c.drain_settle_delay
  grace : pos 0 ≤ℤ c.stale_chassis_grace_period

validate_timing-TimingChecks : (c : Config) → validate_timing c ≡ ok tt → TimingChecks c
unfolding validate_timing
validate_timing-TimingChecks c h = ground arith

record LeakChecks (cfg c : Config) : Type 0 where
  table : c.veth_leak_enabled ≡ true → out_of_range c.veth_leak_table_id 1 252 ≡ false
  own :
      c.veth_leak_enabled ≡ true
      → (eqb_ℤ c.veth_leak_table_id c.route_table_id && not (eqb_ℤ c.route_table_id (pos 0)))
        ≡ false
  provider : c.veth_leak_enabled ≡ true → is_ip c.veth_provider_ip ≡ true
  same : c ≡ record cfg { veth_provider_ip = c.veth_provider_ip }

validate_leak-LeakChecks : (cfg c : Config) → validate_leak cfg ≡ ok c → LeakChecks cfg c
unfolding validate_leak
validate_leak-LeakChecks cfg c h = ground arith

record ForwardChecks (c : Config) : Type 0 where
  table : c.port_forwards ≢ [] → out_of_range c.port_forward_table_id 1 252 ≡ false
  own :
      c.port_forwards ≢ []
      → (eqb_ℤ c.port_forward_table_id c.route_table_id && not (eqb_ℤ c.route_table_id (pos 0)))
        ≡ false
  zone : c.port_forwards ≢ [] → out_of_range c.port_forward_ct_zone 1 65535 ≡ false
  not_leak : c.port_forwards ≢ [] → eqb_ℤ c.port_forward_table_id c.veth_leak_table_id ≡ false
  leak : c.port_forwards ≢ [] → c.veth_leak_enabled ≡ true
  vips : c.port_forwards ≢ [] → validate_vips 0 [] c.port_forwards ≡ ok tt

validate_forwards-ForwardChecks : (c : Config) → validate_forwards c ≡ ok tt → ForwardChecks c
unfolding validate_forwards
validate_forwards-ForwardChecks c h = record {
  table = λ e. ground arith;
  own = λ e. ground arith;
  zone = λ e. ground arith;
  not_leak = λ e. ground arith;
  leak = λ e. ground arith;
  vips = λ e. ground arith;
}

-- A table in range is not 0, so the two tests together tell the tables apart.
table_own : (t r : ℤ) → pos 1 ≤ℤ t → (eqb_ℤ t r && not (eqb_ℤ r (pos 0))) ≡ false → t ≢ r
table_own t r from h e = ground arith

ne_of_eqb : (t r : ℤ) → eqb_ℤ t r ≡ false → t ≢ r
ne_of_eqb t r h e = ground arith

forwards_vips :
    (c : Config)
    → (c.port_forwards ≢ [] → validate_vips 0 [] c.port_forwards ≡ ok tt)
    → ValidVips [] c.port_forwards
forwards_vips c h = go c.port_forwards h
  where
    go : (pfs : List _) → (pfs ≢ [] → validate_vips 0 [] pfs ≡ ok tt) → ValidVips [] pfs
    go [] k = tt
    go (pf ∷ pfs) k = validate_vips-ValidVips 0 [] (pf ∷ pfs) (k (λ e. cc))

ok_injective : {a b : Config} → ◌≡◌ {A = Checked Config} (ok a) (ok b) → a ≡ b
ok_injective h = cc

-- The chain of `validateConfig`, with its stages shut.
record Stages (cfg c : Config) : Type 0 where
  one : Config
  two : Config
  base : validate_base cfg ≡ ok one
  timing : validate_timing one ≡ ok tt
  leak : validate_leak one ≡ ok two
  forwards : validate_forwards c ≡ ok tt
  final : c ≡ record two { port_forward_enabled = not (is_empty two.port_forwards) }

validate_config-Stages : (cfg c : Config) → validate_config cfg ≡ ok c → Stages cfg c
unfolding validate_config
validate_config-Stages cfg c h =
    let (one, base, h₁) = >>=-eq-ok (validate_base cfg) _ h in
    let (_, timing, h₂) = >>=-eq-ok (validate_timing one) _ h₁ in
    let (two, leak, h₃) = >>=-eq-ok (validate_leak one) _ h₂ in
    let (_, forwards, h₄) = >>=-eq-ok (validate_forwards _) _ h₃ in
    record {
      one = one;
      two = two;
      base = base;
      timing = timing;
      leak = leak;
      forwards = rw (← ok_injective h₄) forwards;
      final = sym (ok_injective h₄);
    }

abbrev with_leak : Config → String → Config
with_leak c p = record c { veth_provider_ip = p }

abbrev finished : Config → Config
finished c = record c { port_forward_enabled = not (is_empty c.port_forwards) }

assemble :
    (cfg one : Config) (p : String)
    → BaseChecks cfg one
    → TimingChecks one
    → LeakChecks one (with_leak one p)
    → ForwardChecks (finished (with_leak one p))
    → IsValid (finished (with_leak one p))
assemble cfg one p b t l f = record {
  nexthop = b.nexthop;
  route_table_from = (out_of_range_false one.route_table_id 0 252 b.table).0;
  route_table_to = (out_of_range_false one.route_table_id 0 252 b.table).1;
  filters = b.filters;
  drain_timeout = t.timeout;
  drain_bounded = t.bounded;
  settle_delay = t.settle;
  grace = t.grace;
  leak_table_from = λ e. (out_of_range_false one.veth_leak_table_id 1 252 (l.table e)).0;
  leak_table_to = λ e. (out_of_range_false one.veth_leak_table_id 1 252 (l.table e)).1;
  leak_table_own = λ e.
      table_own one.veth_leak_table_id one.route_table_id
        (out_of_range_false one.veth_leak_table_id 1 252 (l.table e)).0 (l.own e);
  leak_provider = l.provider;
  enabled = refl;
  forward_leak = f.leak;
  forward_table_from = λ e. (out_of_range_false one.port_forward_table_id 1 252 (f.table e)).0;
  forward_table_to = λ e. (out_of_range_false one.port_forward_table_id 1 252 (f.table e)).1;
  forward_table_own = λ e.
      table_own one.port_forward_table_id one.route_table_id
        (out_of_range_false one.port_forward_table_id 1 252 (f.table e)).0 (f.own e);
  forward_table_not_leak =
      λ e. ne_of_eqb one.port_forward_table_id one.veth_leak_table_id (f.not_leak e);
  forward_zone_from = λ e. (out_of_range_false one.port_forward_ct_zone 1 65535 (f.zone e)).0;
  forward_zone_to = λ e. (out_of_range_false one.port_forward_ct_zone 1 65535 (f.zone e)).1;
  vips = forwards_vips one f.vips;
}

-- A configuration that `validateConfig` accepts is valid: its next hop and, with the leak enabled,
-- its provider address are addresses; its filters are the parsed CIDRs; its delays are not
-- negative, and the drain is bounded where it is enabled; its routing tables lie in their ranges
-- and differ from one another where they are in use; port forwarding is flagged exactly where VIPs
-- are configured, and then comes with the leak and a conntrack zone in range; and the VIPs
-- are IPv4 addresses, distinct as texts, with at least one rule each, whose rules are distinct by
-- protocol and port, name tcp or udp, ports in range, only one of `dest_addr` and `dest_addrs`, and
-- between 1 and 256 IPv4 backends that are distinct as texts.
pub validate_config-IsValid : (cfg c : Config) → validate_config cfg ≡ ok c → IsValid c
validate_config-IsValid cfg c h =
    let s = validate_config-Stages cfg c h in
    let b = validate_base-BaseChecks cfg s.one s.base in
    let l = validate_leak-LeakChecks s.one s.two s.leak in
    let p = s.two.veth_provider_ip in
    let e : c ≡ finished (with_leak s.one p) = s.final ∙ ap finished l.same in
    subst IsValid (sym e) (
      assemble cfg s.one p b (validate_timing-TimingChecks s.one s.timing)
        (subst (LeakChecks s.one) l.same l)
        (subst ForwardChecks e (validate_forwards-ForwardChecks c s.forwards)))
