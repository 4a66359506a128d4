-- ===== src/Linux/Lasting.antt =====
-- What has been done stays done, through the parts of `ReconcileVethLeakNetworks`.
use ovn_route_agent.Base.{ℤ, String, Bool, ◌&&◌, inr, Option, none, some, List, [], ◌∷◌, elem}
use ovn_route_agent.Net.{Ip, IpNet, parse_cidr}
use ovn_route_agent.Linux.Defs.{
  Manager, Link, IpRule, Change, Outcome, route_replace, route_del, rule_add, rule_del, Kernel,
  History, ok, call, must, attempt, is_done, is_done_or_exists, any_outcome, reading,
}
use ovn_route_agent.Linux.Leak.{
  leak_route, leak_rule, is_leak_rule, add_leak_routes, add_leak_rules, remove_leak_route,
  remove_leak_routes, is_unwanted, remove_leak_rules,
}
use ovn_route_agent.Linux.Log.{Keeps, >>-Keeps, if-Keeps, ok-Keeps, reading-Keeps, Made, MadeWith}

-- An invariant that any change keeps.
abbrev pub Lasts : (History → Type 0) → Type 0
Lasts I = (e : Change × Outcome) (h : History) → I h → I (e ∷ h)

pub Made-Lasts : (c : Change) → Lasts (Made c)
Made-Lasts c e h (o, i) = (o, inr i)

pub MadeWith-Lasts : (accepts : Outcome → Bool) (c : Change) → Lasts (MadeWith accepts c)
MadeWith-Lasts accepts c e h (o, a, i) = (o, a, inr i)

pub call-Keeps :
    (I : History → Type 0)
    → Lasts I
    → (k : Kernel) (accepts : Outcome → Bool) (c : Change) → Keeps I (call k accepts c)
call-Keeps I lasts k accepts c h i = lasts (c, k.outcome h c) h i

module _ (I : History → Type 0) (lasts : Lasts I) (k : Kernel) (rm : Manager) where
  pub add_leak_routes-Keeps :
      (provider : Link) (table : ℤ) (current : List String) (m : List (String × IpNet))
      → Keeps I (add_leak_routes k rm provider table current m)
  unfolding add_leak_routes
  add_leak_routes-Keeps provider table current [] = ok-Keeps I
  add_leak_routes-Keeps provider table current ((key, n) ∷ m) =
      >>-Keeps I _ (add_leak_routes k rm provider table current m)
        (if-Keeps I (elem key current) ok (must k (route_replace (leak_route rm provider table n)))
          (λ e. ok-Keeps I)
          (λ e. call-Keeps I lasts k is_done (route_replace (leak_route rm provider table n))))
        (add_leak_routes-Keeps provider table current m)

  pub add_leak_rules-Keeps :
      (current : List String) (m : List (String × IpNet)) → Keeps I (add_leak_rules k rm current m)
  unfolding add_leak_rules
  add_leak_rules-Keeps current [] = ok-Keeps I
  add_leak_rules-Keeps current ((key, n) ∷ m) =
      >>-Keeps I _ (add_leak_rules k rm current m)
        (if-Keeps I (elem key current) ok (call k is_done_or_exists (rule_add (leak_rule rm n)))
          (λ e. ok-Keeps I)
          (λ e. call-Keeps I lasts k is_done_or_exists (rule_add (leak_rule rm n))))
        (add_leak_rules-Keeps current m)

  remove_leak_route-Keeps :
      (provider : Link) (table : ℤ) (o : Option (Ip × IpNet))
      → Keeps I (remove_leak_route k rm provider table o)
  remove_leak_route-Keeps provider table none = ok-Keeps I
  remove_leak_route-Keeps provider table (some (ip, n)) =
      call-Keeps I lasts k any_outcome (route_del (leak_route rm provider table n))

  pub remove_leak_routes-Keeps :
      (provider : Link) (table : ℤ) (names current : List String)
      → Keeps I (remove_leak_routes k rm provider table names current)
  unfolding remove_leak_routes
  remove_leak_routes-Keeps provider table names [] = ok-Keeps I
  remove_leak_routes-Keeps provider table names (key ∷ current) =
      >>-Keeps I _ (remove_leak_routes k rm provider table names current)
        (if-Keeps I (elem key names) ok (remove_leak_route k rm provider table (parse_cidr key))
          (λ e. ok-Keeps I) (λ e. remove_leak_route-Keeps provider table (parse_cidr key)))
        (remove_leak_routes-Keeps provider table names current)

  remove_leak_rules-Keeps :
      (names : List String) (rs : List IpRule) → Keeps I (remove_leak_rules k rm names rs)
  unfolding remove_leak_rules
  remove_leak_rules-Keeps names [] = ok-Keeps I
  remove_leak_rules-Keeps names (r ∷ rs) =
      >>-Keeps I _ (remove_leak_rules k rm names rs)
        (if-Keeps I (is_leak_rule rm r && is_unwanted names r.src) (attempt k (rule_del r)) ok
          (λ e. call-Keeps I lasts k any_outcome (rule_del r)) (λ e. ok-Keeps I))
        (remove_leak_rules-Keeps names rs)

  pub last_step-Keeps :
      (names : List String) → Keeps I (reading k.rules ok (remove_leak_rules k rm names))
  last_step-Keeps names =
      reading-Keeps I k.rules ok (remove_leak_rules k rm names) (ok-Keeps I)
        (λ rs h e. remove_leak_rules-Keeps names rs h)
