-- ===== src/Agent/Routes.antt =====
-- What `ensureRoutes` may do to the routes of the host.
use ovn_route_agent.Base.{
  String, Bool, true, false, ◌≡◌, List, [], ◌∷◌, ◌++◌, arith, elem, filter, All, All-map,
  All-append, All-filter, Bool-cases, inl, inr,
}
use ovn_route_agent.Agent.Defs.{
  Agent, Call, list_kernel, list_frr, add_kernel, del_kernel, add_frr, del_frr, refresh_bgp, Host,
  call_if, stale, stale_kernel, orphaned_frr, del_kernel_routes, ensure_routes,
}
use ovn_route_agent.Agent.Additions.{ensure_routes-Inv, Wanted, IsStale, IsAddition, All-elem}

module _ (agent : Agent) (desired : List String) where
  pub desired-Wanted : All (Wanted agent desired) desired
  desired-Wanted = All-elem (Wanted agent desired) desired (λ x e. e)

  stale_kernel-IsStale :
      (kernel : List String) → All (IsStale agent desired) (stale_kernel agent desired kernel)
  unfolding stale_kernel
  stale_kernel-IsStale kernel =
      All-filter (IsStale agent desired) (stale agent desired) kernel (λ x e. e)

  removed : (kernel frr : List String) → List String
  removed kernel frr =
      stale_kernel agent desired kernel
      ++ orphaned_frr agent desired (stale_kernel agent desired kernel) frr

  removed-IsStale : (kernel frr : List String) → All (IsStale agent desired) (removed kernel frr)
  unfolding removed orphaned_frr
  removed-IsStale kernel frr =
      All-append (IsStale agent desired) _ _ (stale_kernel-IsStale kernel)
        (All-filter (IsStale agent desired) _ frr (λ x e. ground arith))

  -- What a call of `ensureRoutes` may be: kernel routes are touched in full mode only, only desired
  -- addresses are added, and what is removed is managed and not desired.
  abbrev pub IsAllowed : Call → Type 0
  IsAllowed list_kernel = agent.port_forward_only ≡ false
  IsAllowed list_frr = Unit
  IsAllowed refresh_bgp = Unit
  IsAllowed (add_kernel ip) = (agent.port_forward_only ≡ false) × (elem ip desired ≡ true)
  IsAllowed (add_frr ips) = All (λ ip. elem ip desired ≡ true) ips
  IsAllowed (del_kernel ip) = (agent.port_forward_only ≡ false) × (IsStale agent desired) ip
  IsAllowed (del_frr ips) = All (IsStale agent desired) ips

  addition-IsAllowed : (c : Call) → (IsAddition agent desired) c → IsAllowed c
  addition-IsAllowed list_kernel a = a
  addition-IsAllowed list_frr a = a
  addition-IsAllowed refresh_bgp a = a
  addition-IsAllowed (add_kernel ip) a = a
  addition-IsAllowed (add_frr ips) a = a
  addition-IsAllowed (del_kernel ip) a = absurd a
  addition-IsAllowed (del_frr ips) a = absurd a

  del_kernel_routes-IsAllowed :
      (ips : List String) (h : List Call)
      → All (λ ip. IsAllowed (del_kernel ip)) ips
      → All IsAllowed h
      → All IsAllowed (del_kernel_routes ips h).1
  unfolding del_kernel_routes
  del_kernel_routes-IsAllowed [] h a i = i
  del_kernel_routes-IsAllowed (ip ∷ ips) h a i =
      del_kernel_routes-IsAllowed ips (del_kernel ip ∷ h) a.1 (a.0, i)

  stale_kernel-IsAllowed :
      (kernel : List String)
      → (agent.port_forward_only ≡ true → kernel ≡ [])
      → All (λ ip. IsAllowed (del_kernel ip)) (stale_kernel agent desired kernel)
  unfolding stale_kernel filter
  stale_kernel-IsAllowed kernel empty = elim (Bool-cases agent.port_forward_only) [
    | inl e ↦ rw (empty e) tt
    | inr e ↦ All-map (IsStale agent desired) _ _ (λ x s. (e, s)) (stale_kernel-IsStale kernel)
  ]

  call_if-IsAllowed :
      (b : Bool) (c : Call) (h : List Call)
      → IsAllowed c
      → All IsAllowed h
      → All IsAllowed (call_if b c h).1
  call_if-IsAllowed true c h a i = (a, i)
  call_if-IsAllowed false c h a i = i

  -- Whatever the listings return, every call of `ensureRoutes` is allowed: in port-forward-only
  -- mode it neither lists nor changes kernel routes, it adds desired addresses only, and it removes
  -- an address only if that is managed and not desired.
  pub ensure_routes-IsAllowed :
      (host : Host) → All IsAllowed (ensure_routes host agent desired []).1
  unfolding removed
  ensure_routes-IsAllowed host =
      ensure_routes-Inv agent desired (All IsAllowed) (λ c h a i. (addition-IsAllowed c a, i)) host
        desired-Wanted
        (λ kernel frr h empty i.
          del_kernel_routes-IsAllowed _ _ (stale_kernel-IsAllowed kernel empty)
            (call_if-IsAllowed _ (del_frr _) h (removed-IsStale kernel frr) i))
        tt
