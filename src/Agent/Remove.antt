-- ===== src/Agent/Remove.antt =====
-- `removeAllRoutes` on a host whose calls succeed: the sets of routes that it leaves.
use ovn_route_agent.Base.{
  String, Bool, true, false, not, ◌&&◌, ◌≡◌, refl, ap, ◌∙◌, List, [], ◌∷◌, if◌then◌else◌, arith,
  is_empty, elem, elem-filter, Bool-cases, filter, inl, inr,
}
use ovn_route_agent.Agent.Defs.{
  Agent, Call, list_frr, del_frr, refresh_bgp, call_if, is_managed, kernel_listing, frr_listing,
  remove_kernel, remove_all_routes,
}
use ovn_route_agent.Agent.Replay.{
  World, after, faithful, del_frr-frr, del_kernel-kernel, del_kernel-frr,
}

module _ (w : World) (agent : Agent) (ip : String) where
  kernel_listing-after :
      (h : List Call)
      → (after w (kernel_listing (faithful w) agent h).1 ≡ after w h)
        × ((kernel_listing (faithful w) agent h).0
            ≡ (if agent.port_forward_only then [] else (after w h).kernel))
  unfolding kernel_listing after
  kernel_listing-after h = elim (Bool-cases agent.port_forward_only) [
    | inl e ↦ rw e (refl, refl)
    | inr e ↦ rw e (refl, refl)
  ]

  remove_kernel-kernel :
      (h : List Call)
      → elem ip (after w (remove_kernel (faithful w) agent h).1).kernel ≡ (
          if agent.port_forward_only
          then elem ip (after w h).kernel
          else elem ip (after w h).kernel && not (is_managed agent ip))
  unfolding remove_kernel elem
  remove_kernel-kernel h =
      let (kernel, h') = kernel_listing (faithful w) agent h in
      let (same, listed) = kernel_listing-after h in
      del_kernel-kernel w ip (filter (is_managed agent) kernel) h'
      ∙ rw (elem-filter ip (is_managed agent) kernel, same, listed)
          (elim (Bool-cases agent.port_forward_only) [
            | inl e ↦ simp e (ground arith)
            | inr e ↦ simp e (ground arith)
          ])

  remove_kernel-frr :
      (h : List Call) → (after w (remove_kernel (faithful w) agent h).1).frr ≡ (after w h).frr
  unfolding remove_kernel
  remove_kernel-frr h =
      let (kernel, h') = kernel_listing (faithful w) agent h in
      del_kernel-frr w ip (filter (is_managed agent) kernel) h'
      ∙ ap (λ (v : World). v.frr) (kernel_listing-after h).0

  refresh-after : (b : Bool) (h : List Call) → after w (call_if b refresh_bgp h).1 ≡ after w h
  unfolding after
  refresh-after true h = refl
  refresh-after false h = refl

  del_frr-kernel :
      (b : Bool) (ips : List String) (h : List Call)
      → (after w (call_if b (del_frr ips) h).1).kernel ≡ (after w h).kernel
  unfolding after
  del_frr-kernel true ips h = refl
  del_frr-kernel false ips h = refl

  -- On a host whose listings are right and whose calls succeed, `removeAllRoutes` leaves in FRR
  -- exactly the routes found there that are not managed, and in the kernel the same, where in
  -- port-forward-only mode the kernel's routes stay as they are.
  pub remove_all_routes-Clears :
      (elem ip (after w (remove_all_routes (faithful w) agent []).1).frr
        ≡ (elem ip w.frr && not (is_managed agent ip)))
      × (elem ip (after w (remove_all_routes (faithful w) agent []).1).kernel ≡ (
          if agent.port_forward_only
          then elem ip w.kernel
          else elem ip w.kernel && not (is_managed agent ip)))
  unfolding remove_all_routes frr_listing after
  remove_all_routes-Clears =
      let removed = filter (is_managed agent) w.frr in
      let h1 : List Call = list_frr ∷ [] in
      let h2 = (call_if (not (is_empty removed)) (del_frr removed) h1).1 in
      let h3 = (remove_kernel (faithful w) agent h2).1 in
      let last = refresh-after (not (is_empty removed)) h3 in
      (
        ap (λ (v : World). elem ip v.frr) last
            ∙ ap (elem ip) (remove_kernel-frr h2)
            ∙ del_frr-frr w ip removed h1
            ∙ rw (elem-filter ip (is_managed agent) w.frr) (ground arith),
        ap (λ (v : World). elem ip v.kernel) last
            ∙ remove_kernel-kernel h2
            ∙ rw (del_frr-kernel (not (is_empty removed)) removed h1) refl,
      )
