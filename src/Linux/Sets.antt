-- ===== src/Linux/Sets.antt =====
-- The sets of networks of `ReconcileVethLeakNetworks`.
use ovn_route_agent.Base.{
  eqb, String, Bool, true, false, ◌&&◌, ◌||◌, ◌≡◌, ◌⊎◌, inl, inr, refl, sym, ap, ◌∙◌, Option, none,
  some, List, [], ◌∷◌, ◌==◌, eq_iff, map, elem, elem-add, keys, insert, elem-keys-insert, In-insert,
  In, Bool-cases, arith,
}
use ovn_route_agent.Net.{Ip, IpNet, net_text}
use ovn_route_agent.Linux.Defs.{Route}
use ovn_route_agent.Linux.Leak.{agent_protocol, is_nexthop, with_key, current_nets, desired_set}

pub elem-desired_set :
    (key : String) (ns : List IpNet) (m : List (String × IpNet))
    → elem key (keys (desired_set ns m)) ≡ (elem key (map net_text ns) || elem key (keys m))
unfolding elem desired_set
elem-desired_set key [] m = refl
elem-desired_set key (n ∷ ns) m =
    elem-desired_set key ns (insert (net_text n) n m)
    ∙ ground (arith, elem-keys-insert key (net_text n) n m)

-- An entry of the set is a desired network under its text.
pub In-desired_set :
    (key : String) (x : IpNet) (ns : List IpNet) (m : List (String × IpNet))
    → In (key, x) (desired_set ns m)
    → (In x ns × (key ≡ net_text x)) ⊎ In (key, x) m
unfolding desired_set
In-desired_set key x [] m i = inr i
In-desired_set key x (n ∷ ns) m i = elim (In-desired_set key x ns (insert (net_text n) n m) i) [
  | inl (j, e) ↦ inl (inr j, e)
  | inr j ↦ elim (In-insert (net_text n) key n x m j) [
    | inl (e, f) ↦ inl (inl f, e ∙ ap net_text (sym f))
    | inr l ↦ inr l
  ]
]

-- A key comes from an element that passes the test.
with_key-elem :
    (b : Bool) (o : Option IpNet) (ks : List String) (key : String)
    → elem key (with_key b o ks) ≡ true
    → ((n : IpNet) × (b ≡ true) × (o ≡ some n) × (net_text n ≡ key)) ⊎ (elem key ks ≡ true)
with_key-elem true none ks key m = inr m
with_key-elem false none ks key m = inr m
with_key-elem false (some n) ks key m = inr m
with_key-elem true (some n) ks key m = elim (Bool-cases (net_text n == key)) [
  | inl e ↦ inl (n, refl, refl, (eq_iff (net_text n) key).0 e)
  | inr e ↦ inr (ground (arith, elem-add (net_text n) key ks, m, e))
]

pub current_nets-Listed :
    (nexthop : Option Ip) (rs : List Route) (key : String)
    → elem key (current_nets nexthop rs) ≡ true
    → (r : Route) × (n : IpNet) × In r rs
      × (r.protocol ≡ agent_protocol)
      × (r.dst ≡ some n)
      × (net_text n ≡ key)
unfolding current_nets elem
current_nets-Listed nexthop [] key m = cc
current_nets-Listed nexthop (r ∷ rs) key m =
    let own = is_nexthop nexthop r.gw && eqb r.protocol agent_protocol in
    elim (with_key-elem own r.dst (current_nets nexthop rs) key m) [
      | inl (n, b, d, e) ↦ (r, n, inl refl, ground (arith, b), d, e)
      | inr l ↦
          let (s, n, i, p, d, e) = current_nets-Listed nexthop rs key l in (s, n, inr i, p, d, e)
    ]
