-- ===== src/Agent/Idle.antt =====
-- `ensureRoutes` where there is nothing to do, and `uniqueIPs`.
use ovn_route_agent.Base.{
  String, Bool, true, false, not, ◌&&◌, ◌||◌, ◌≡◌, refl, ◌∙◌, some, List, [], ◌∷◌, ◌==◌, arith,
  eq_iff, elem, elem-sort_strings, IsSorted, sort_strings-IsSorted, trim_space, map, All, All-map,
  Bool-cases, filter, inl, inr,
}
use ovn_route_agent.Agent.Defs.{
  Agent, Call, list_kernel, list_frr, Host, add_missing, stale, stale_kernel, orphaned_frr,
  kernel_listing, frr_listing, apply_routes, ensure_routes, finish, del_kernel_routes,
  collect_unique, unique_ips,
}

add_missing_idle :
    (manage : Bool) (kernel frr ips : List String) (h : List Call)
    → All (λ ip. elem ip frr ≡ true) ips
    → All (λ ip. (not manage || elem ip kernel) ≡ true) ips
    → add_missing manage kernel frr ips h ≡ ([], h)
unfolding add_missing
add_missing_idle manage kernel frr [] h f k = refl
add_missing_idle manage kernel frr (ip ∷ ips) h f k =
    let no_kernel : (manage && not (elem ip kernel)) ≡ false = ground (arith, k.0) in
    rw (no_kernel, f.0, add_missing_idle manage kernel frr ips h f.1 k.1) refl

filter_none : (p : String → Bool) (xs : List String) → All (λ x. p x ≡ false) xs → filter p xs ≡ []
unfolding filter
filter_none p [] h = refl
filter_none p (x ∷ xs) h = rw (h.0) (filter_none p xs h.1)

apply_routes_idle :
    (host : Host) (agent : Agent) (desired kernel frr : List String) (h : List Call)
    → All (λ ip. elem ip frr ≡ true) desired
    → All (λ ip. (not (not agent.port_forward_only) || elem ip kernel) ≡ true) desired
    → All (λ ip. stale agent desired ip ≡ false) kernel
    → All (λ ip. stale agent desired ip ≡ false) frr
    → apply_routes host agent desired kernel frr h ≡ (agent, h)
unfolding apply_routes stale_kernel orphaned_frr del_kernel_routes finish
apply_routes_idle host agent desired kernel frr h in_frr in_kernel fresh_kernel fresh_frr =
    rw
      (
        add_missing_idle (not agent.port_forward_only) kernel frr desired h in_frr in_kernel,
        filter_none (stale agent desired) kernel fresh_kernel,
        filter_none (λ ip. stale agent desired ip && not (elem ip [])) frr
            (All-map _ _ frr (λ x e. rw e refl) fresh_frr),
      )
      refl

kernel_listing_full :
    (host : Host) (agent : Agent) (kernel : List String)
    → agent.port_forward_only ≡ false
    → host.kernel [] ≡ some kernel
    → kernel_listing host agent [] ≡ (kernel, list_kernel ∷ [])
unfolding kernel_listing
kernel_listing_full host agent kernel full k = rw (full, k) refl

-- Where both listings succeed, all desired addresses are in both and no listed address is stale,
-- `ensureRoutes` makes the two listings and no other call, and the agent stays as it was.
pub ensure_routes_idle :
    (host : Host) (agent : Agent) (desired kernel frr : List String)
    → agent.port_forward_only ≡ false
    → host.kernel [] ≡ some kernel
    → host.frr (list_kernel ∷ []) ≡ some frr
    → All (λ ip. elem ip kernel ≡ true) desired
    → All (λ ip. elem ip frr ≡ true) desired
    → All (λ ip. stale agent desired ip ≡ false) kernel
    → All (λ ip. stale agent desired ip ≡ false) frr
    → ensure_routes host agent desired [] ≡ (agent, list_frr ∷ list_kernel ∷ [])
unfolding ensure_routes frr_listing
ensure_routes_idle host agent desired kernel frr full k f in_kernel in_frr fresh_kernel fresh_frr =
    rw (kernel_listing_full host agent kernel full k, f)
      (apply_routes_idle host agent desired kernel frr _ in_frr
        (All-map _ _ desired (λ x e. ground (arith, e)) in_kernel) fresh_kernel fresh_frr)

collect_unique-elem :
    (ip : String) (ips seen : List String)
    → elem ip (collect_unique ips seen)
      ≡ (elem ip seen || (not (ip == "") && elem ip (map trim_space ips)))
unfolding collect_unique elem
collect_unique-elem ip [] seen = ground arith
collect_unique-elem ip (x ∷ ips) seen =
    elim (Bool-cases (not (trim_space x == "") && not (elem (trim_space x) seen))) [
      | inl e ↦
          rw (e, collect_unique-elem ip ips (trim_space x ∷ seen))
            (ground (arith, e, eq_iff (trim_space x) ip))
      | inr e ↦
          rw (e, collect_unique-elem ip ips seen) (ground (arith, e, eq_iff (trim_space x) ip))
    ]

-- `uniqueIPs` gives a sorted list, of exactly the trimmed addresses that are not empty.
pub unique_ips-elem :
    (ips : List String)
    → IsSorted (unique_ips ips)
      × ((ip : String)
          → elem ip (unique_ips ips) ≡ (not (ip == "") && elem ip (map trim_space ips)))
unfolding unique_ips
unique_ips-elem ips = (
  sort_strings-IsSorted (collect_unique ips []),
  λ ip. elem-sort_strings ip (collect_unique ips []) ∙ collect_unique-elem ip ips [],
)
