-- ===== src/Agent/Routed.antt =====
-- The routes that `ensureRoutes` leaves on a host whose calls succeed, through its last parts.
use ovn_route_agent.Base.{
  ℕ, String, true, false, not, ◌&&◌, ◌||◌, ◌≡◌, ◌⊎◌, refl, ap, ◌∙◌, Option, some, List, [], ◌∷◌,
  ◌++◌, arith, is_empty, elem, elem-append, elem-filter, filter, All, Bool-cases, inl, inr,
}
use ovn_route_agent.Agent.Defs.{
  Agent, Call, list_kernel, list_frr, add_frr, del_frr, refresh_bgp, Host, call_if, is_managed,
  re_add, re_add_all, verify_kernel, verify_listing, verify_frr, verify_routes, add_missing, stale,
  stale_kernel, orphaned_frr, del_kernel_routes, finish,
}
use ovn_route_agent.Agent.Additions.{All-elem}
use ovn_route_agent.Agent.Replay.{
  World, after, faithful, add_missing-kernel, add_missing-frr, add_missing-added, add_frr-frr,
  del_frr-frr, del_kernel-kernel, del_kernel-frr, call_if-kernel,
}

-- Where all addresses are there, `verifyRoutes` adds none.
re_add_idle :
    (agent : Agent) (frr kernel ips : List String) (h : List Call)
    → All (λ ip. elem ip frr ≡ true) ips
    → All (λ ip. (agent.port_forward_only || elem ip kernel) ≡ true) ips
    → re_add agent frr kernel ips h ≡ (([], 0), h)
unfolding re_add
re_add_idle agent frr kernel [] h f k = refl
re_add_idle agent frr kernel (ip ∷ ips) h f k =
    let no_kernel : (is_managed agent ip && not agent.port_forward_only && not (elem ip kernel))
        ≡ false =
      ground (arith, k.0) in
    let no_frr : (is_managed agent ip && not (elem ip frr)) ≡ false = ground (arith, f.0) in
    rw (no_kernel, no_frr, re_add_idle agent frr kernel ips h f.1 k.1) refl

verify_listing_cases :
    (host : Host) (agent : Agent) (h : List Call)
    → ((agent.port_forward_only ≡ true) × (verify_listing host agent h ≡ (some [], h)))
      ⊎ ((agent.port_forward_only ≡ false)
          × (verify_listing host agent h ≡ (host.kernel h, list_kernel ∷ h)))
unfolding verify_listing
verify_listing_cases host agent h = elim (Bool-cases agent.port_forward_only) [
  | inl e ↦ inl (e, rw e refl)
  | inr e ↦ inr (e, rw e refl)
]

module _ (w : World) (agent : Agent) (desired : List String) where
  -- All desired addresses are routed.
  abbrev pub Complete : List Call → Type 0
  Complete h =
      All (λ ip. elem ip (after w h).frr ≡ true) desired
      × All (λ ip. (agent.port_forward_only || elem ip (after w h).kernel) ≡ true) desired

  verify_kernel_idle :
      (frr kernel : List String) (h : List Call)
      → All (λ ip. elem ip frr ≡ true) desired
      → All (λ ip. (agent.port_forward_only || elem ip kernel) ≡ true) desired
      → (verify_kernel (faithful w) agent frr desired (some kernel) h).1 ≡ h
  unfolding verify_kernel re_add_all
  verify_kernel_idle frr kernel h f k =
      ap
        (λ (r : (List String × ℕ) × List Call).
          (call_if (not (is_empty r.0.0)) (add_frr r.0.0) r.1).1)
        (re_add_idle agent frr kernel desired h f k)

  verify_routes_idle :
      (h : List Call)
      → Complete h
      → after w (verify_routes (faithful w) agent desired h).1 ≡ after w h
  unfolding verify_routes verify_frr after
  verify_routes_idle h (f, k) = elim (verify_listing_cases (faithful w) agent (list_frr ∷ h)) [
    | inl (e, listed) ↦
        ap
          (λ (r : Option (List String) × List Call).
            after w (verify_kernel (faithful w) agent (after w h).frr desired r.0 r.1).1)
          listed
        ∙ ap (after w) (
            verify_kernel_idle (after w h).frr [] (list_frr ∷ h) f
              (All-elem _ desired (λ x m. rw e refl)))
    | inr (e, listed) ↦
        ap
          (λ (r : Option (List String) × List Call).
            after w (verify_kernel (faithful w) agent (after w h).frr desired r.0 r.1).1)
          listed
        ∙ ap (after w)
            (verify_kernel_idle (after w h).frr (after w h).kernel (list_kernel ∷ list_frr ∷ h) f k)
  ]

  pub finish_idle :
      (added removed : List String) (h : List Call)
      → Complete h
      → after w (finish (faithful w) agent desired added removed h).1 ≡ after w h
  unfolding finish after
  finish_idle added removed h c = elim (Bool-cases (is_empty added && is_empty removed)) [
    | inl e ↦ rw e refl
    | inr e ↦ rw e (verify_routes_idle (refresh_bgp ∷ h) c)
  ]

  -- The trace up to the end of the removals.
  abbrev pub routed : (kernel frr : List String) → List Call → List Call
  routed kernel frr h =
      let (added, h3) = add_missing (not agent.port_forward_only) kernel frr desired h in
      let stale_ips = stale_kernel agent desired kernel in
      let removed = stale_ips ++ orphaned_frr agent desired stale_ips frr in
      (del_kernel_routes stale_ips
        (call_if (not (is_empty removed)) (del_frr removed)
          (call_if (not (is_empty added)) (add_frr added) h3).1).1).1

  pub routed-kernel :
      (ip : String) (kernel frr : List String) (h : List Call)
      → elem ip (after w (routed kernel frr h)).kernel ≡ (
          not (stale agent desired ip && elem ip kernel)
          && ((not agent.port_forward_only && elem ip desired && not (elem ip kernel))
              || elem ip (after w h).kernel))
  unfolding stale_kernel
  routed-kernel ip kernel frr h =
      let (added, h3) = add_missing (not agent.port_forward_only) kernel frr desired h in
      rw
        (
          del_kernel-kernel w ip (stale_kernel agent desired kernel),
          elem-filter ip (stale agent desired) kernel,
          call_if-kernel w _ _ added _ h3,
          add_missing-kernel w ip (not agent.port_forward_only) kernel frr desired h,
        )
        refl

  pub routed-frr :
      (ip : String) (kernel frr : List String) (h : List Call)
      → elem ip (after w (routed kernel frr h)).frr ≡ (
          not (stale agent desired ip && (elem ip kernel || elem ip frr))
          && ((elem ip desired && not (elem ip frr)) || elem ip (after w h).frr))
  unfolding stale_kernel orphaned_frr
  routed-frr ip kernel frr h =
      let (added, h3) = add_missing (not agent.port_forward_only) kernel frr desired h in
      let stale_ips = filter (stale agent desired) kernel in
      let orphans = filter (λ x. stale agent desired x && not (elem x stale_ips)) frr in
      rw
        (
          del_kernel-frr w ip stale_ips,
          del_frr-frr w ip (stale_ips ++ orphans),
          add_frr-frr w ip added h3,
          add_missing-frr w ip (not agent.port_forward_only) kernel frr desired h,
          add_missing-added w ip (not agent.port_forward_only) kernel frr desired h,
          elem-append ip stale_ips orphans,
          elem-filter ip (λ x. stale agent desired x && not (elem x stale_ips)) frr,
          elem-filter ip (stale agent desired) kernel,
        )
        (ground arith)
