-- ===== src/Linux/Complete.antt =====
-- What `ReconcileVethLeakNetworks` has done when it returns no error.
use ovn_route_agent.Base.{
  ℤ, String, Bool, true, false, ◌≡◌, ◌⊎◌, inl, inr, refl, ap, some, List, [], ◌∷◌, ◌==◌, eq_iff,
  map, elem, keys, In, Bool-cases, arith, if◌then◌else◌,
}
use ovn_route_agent.Net.{Ip, IpNet, parse_cidr, net_text}
use ovn_route_agent.Linux.Defs.{
  Manager, Link, Change, Outcome, route_replace, route_del, rule_add, Kernel, History, ok, call,
  must, is_done, is_done_or_exists,
}
use ovn_route_agent.Linux.Leak.{
  leak_route, leak_rule, add_leak_routes, add_leak_rules, remove_leak_route, remove_leak_routes,
}
use ovn_route_agent.Linux.Lasting.{
  Lasts, Made-Lasts, MadeWith-Lasts, add_leak_routes-Keeps, add_leak_rules-Keeps,
  remove_leak_routes-Keeps,
}
use ovn_route_agent.Linux.Log.{Made, MadeWith, >>-done}

module _ (k : Kernel) (rm : Manager) where
  -- The network was there, or the call for it succeeded.
  abbrev pub There :
      (accepts : Outcome → Bool) → Change → (current : List String) → String → History → Type 0
  There accepts c current key h = (elem key current ≡ true) ⊎ MadeWith accepts c h

  pub There-Lasts :
      (accepts : Outcome → Bool) (c : Change) (current : List String) (key : String)
      → Lasts (There accepts c current key)
  There-Lasts accepts c current key e h (inl p) = inl p
  There-Lasts accepts c current key e h (inr m) = inr (MadeWith-Lasts accepts c e h m)

  skip_or_call :
      (accepts : Outcome → Bool) (c : Change) (current : List String) (key : String) (h : History)
      → ((if elem key current then ok else call k accepts c) h).0 ≡ true
      → There accepts c current key ((if elem key current then ok else call k accepts c) h).1
  skip_or_call accepts c current key h e = elim (Bool-cases (elem key current)) [
    | inl t ↦ inl t
    | inr f ↦ rw f (inr (k.outcome h c, rw f at e, inl refl))
  ]

  pub add_leak_routes-There :
      (provider : Link) (table : ℤ) (current : List String) (m : List (String × IpNet))
      (h : History)
      → (add_leak_routes k rm provider table current m h).0 ≡ true
      → (key : String) (n : IpNet) → In (key, n) m
      → There is_done
          (route_replace (leak_route rm provider table n))
          current
          key
          (add_leak_routes k rm provider table current m h).1
  unfolding add_leak_routes
  add_leak_routes-There provider table current [] h e key n i = absurd i
  add_leak_routes-There provider table current ((first, x) ∷ m) h e key n i =
      let c = route_replace (leak_route rm provider table x) in
      let step = if elem first current then ok else must k c in
      let rest = add_leak_routes k rm provider table current m in
      let (a, b, same) = >>-done step rest h e in
      elim i [
        | inl p ↦
            rw (same, ap (λ t. t.0) p, ap (λ t. t.1) p)
              (add_leak_routes-Keeps (There is_done c current first)
                (There-Lasts is_done c current first) k rm provider table current m (step h).1
                (skip_or_call is_done c current first h a))
        | inr j ↦ rw same (add_leak_routes-There provider table current m (step h).1 b key n j)
      ]

  pub add_leak_rules-There :
      (current : List String) (m : List (String × IpNet)) (h : History)
      → (add_leak_rules k rm current m h).0 ≡ true
      → (key : String) (n : IpNet) → In (key, n) m
      → There is_done_or_exists
          (rule_add (leak_rule rm n))
          current
          key
          (add_leak_rules k rm current m h).1
  unfolding add_leak_rules
  add_leak_rules-There current [] h e key n i = absurd i
  add_leak_rules-There current ((first, x) ∷ m) h e key n i =
      let c = rule_add (leak_rule rm x) in
      let step = if elem first current then ok else call k is_done_or_exists c in
      let rest = add_leak_rules k rm current m in
      let (a, b, same) = >>-done step rest h e in
      elim i [
        | inl p ↦
            rw (same, ap (λ t. t.0) p, ap (λ t. t.1) p)
              (add_leak_rules-Keeps (There is_done_or_exists c current first)
                (There-Lasts is_done_or_exists c current first) k rm current m (step h).1
                (skip_or_call is_done_or_exists c current first h a))
        | inr j ↦ rw same (add_leak_rules-There current m (step h).1 b key n j)
      ]

  remove_one :
      (provider : Link) (table : ℤ) (names : List String) (key : String) (ip : Ip) (n : IpNet)
      (h : History)
      → elem key names ≡ false
      → parse_cidr key ≡ some (ip, n)
      → Made
          (route_del (leak_route rm provider table n))
          ((if elem key names then ok else remove_leak_route k rm provider table (parse_cidr key))
            h).1
  remove_one provider table names key ip n h unwanted parsed =
      rw (unwanted, parsed) (k.outcome h (route_del (leak_route rm provider table n)), inl refl)

  pub remove_leak_routes-Made :
      (provider : Link) (table : ℤ) (names current : List String) (h : History)
      → (remove_leak_routes k rm provider table names current h).0 ≡ true
      → (key : String) (ip : Ip) (n : IpNet) → elem key current ≡ true
      → elem key names ≡ false
      → parse_cidr key ≡ some (ip, n)
      → Made
          (route_del (leak_route rm provider table n))
          (remove_leak_routes k rm provider table names current h).1
  unfolding remove_leak_routes elem
  remove_leak_routes-Made provider table names [] h e key ip n m unwanted parsed = cc
  remove_leak_routes-Made provider table names (first ∷ current) h e key ip n m unwanted parsed =
      let c = route_del (leak_route rm provider table n) in
      let step =
        if elem first names then ok else remove_leak_route k rm provider table (parse_cidr first) in
      let rest = remove_leak_routes k rm provider table names current in
      let (a, b, same) = >>-done step rest h e in
      elim (Bool-cases (first == key)) [
        | inl q ↦
            let is_first : first ≡ key = (eq_iff first key).0 q in
            rw same (
              remove_leak_routes-Keeps (Made c) (Made-Lasts c) k rm provider table names current
                (step h).1
                (remove_one provider table names first ip n h (rw is_first unwanted)
                  (rw is_first parsed)))
        | inr q ↦ rw same (
            remove_leak_routes-Made provider table names current (step h).1 b key ip n
              (ground (arith, m, q)) unwanted parsed)
      ]

pub In-keys :
    (key : String) (m : List (String × IpNet))
    → elem key (keys m) ≡ true
    → (n : IpNet) × In (key, n) m
unfolding elem
In-keys key [] e = cc
In-keys key ((name, x) ∷ m) e = elim (Bool-cases (name == key)) [
  | inl q ↦ (x, inl (rw ((eq_iff name key).0 q) refl))
  | inr q ↦ let (n, i) = In-keys key m (ground (arith, e, q)) in (n, inr i)
]

pub elem-texts :
    (n : IpNet) (ns : List IpNet) → In n ns → elem (net_text n) (map net_text ns) ≡ true
unfolding elem
elem-texts n [] i = absurd i
elem-texts n (x ∷ ns) (inl e) = ground (arith, eq_iff (net_text x) (net_text n), ap net_text e)
elem-texts n (x ∷ ns) (inr i) = ground (arith, elem-texts n ns i)
