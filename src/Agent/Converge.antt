-- ===== src/Agent/Converge.antt =====
-- `ensureRoutes` brings the routes of a working host to the desired ones, in one call.
use ovn_route_agent.Base.{
  String, Bool, true, false, not, ◌&&◌, ◌||◌, ◌≡◌, ◌⊎◌, refl, ap, ◌∙◌, List, [], ◌∷◌, if◌then◌else◌,
  arith, elem, Bool-cases, inl, inr,
}
use ovn_route_agent.Agent.Defs.{
  Agent, Call, list_frr, is_managed, kernel_listing, frr_listing, apply_routes, ensure_routes,
}
use ovn_route_agent.Agent.Additions.{All-elem}
use ovn_route_agent.Agent.Replay.{World, after, faithful}
use ovn_route_agent.Agent.Routed.{Complete, routed, routed-kernel, routed-frr, finish_idle}

module _ (w : World) (agent : Agent) (desired : List String) where
  -- The routes that an agent ought to leave: in FRR, the desired ones and those that are none of
  -- its own; the same in the kernel, if it manages that.
  abbrev pub target_frr : String → Bool
  target_frr ip = elem ip desired || (elem ip w.frr && not (is_managed agent ip))

  abbrev pub target_kernel : String → Bool
  target_kernel ip =
      if agent.port_forward_only
      then elem ip w.kernel
      else elem ip desired || (elem ip w.kernel && not (is_managed agent ip))

  -- What the listing of the kernel's routes gives.
  abbrev Listed : List String → Type 0
  Listed kernel =
      ((agent.port_forward_only ≡ true) × (kernel ≡ []))
      ⊎ ((agent.port_forward_only ≡ false) × (kernel ≡ w.kernel))

  routed-target_frr :
      (ip : String) (kernel : List String) (h : List Call)
      → after w h ≡ w
      → Listed kernel
      → elem ip (after w (routed w agent desired kernel w.frr h)).frr ≡ target_frr ip
  routed-target_frr ip kernel h same listed =
      routed-frr w agent desired ip kernel w.frr h ∙ rw same (ground arith)

  routed-target_kernel :
      (ip : String) (kernel : List String) (h : List Call)
      → after w h ≡ w
      → Listed kernel
      → elem ip (after w (routed w agent desired kernel w.frr h)).kernel ≡ target_kernel ip
  unfolding elem
  routed-target_kernel ip kernel h same (inl (e, k)) =
      routed-kernel w agent desired ip kernel w.frr h ∙ rw (same, k) (ground (arith, e))
  routed-target_kernel ip kernel h same (inr (e, k)) =
      routed-kernel w agent desired ip kernel w.frr h ∙ rw (same, k) (ground (arith, e))

  routed-Complete :
      (kernel : List String) (h : List Call)
      → after w h ≡ w
      → Listed kernel
      → Complete w agent desired (routed w agent desired kernel w.frr h)
  routed-Complete kernel h same listed = (
    All-elem _ desired (λ x m. routed-target_frr x kernel h same listed ∙ ground arith),
    All-elem _ desired (λ x m. rw (routed-target_kernel x kernel h same listed) (ground arith)),
  )

  apply_routes-routed :
      (kernel : List String) (h : List Call)
      → after w h ≡ w
      → Listed kernel
      → after w (apply_routes (faithful w) agent desired kernel w.frr h).1
        ≡ after w (routed w agent desired kernel w.frr h)
  unfolding apply_routes
  apply_routes-routed kernel h same listed =
      finish_idle w agent desired _ _ _ (routed-Complete kernel h same listed)

  kernel_listing-Listed :
      Listed (kernel_listing (faithful w) agent []).0
      × (after w (kernel_listing (faithful w) agent []).1 ≡ w)
  unfolding kernel_listing after
  kernel_listing-Listed = elim (Bool-cases agent.port_forward_only) [
    | inl e ↦ rw e (inl (refl, refl), refl)
    | inr e ↦ rw e (inr (refl, refl), refl)
  ]

  -- On a host whose listings are right and whose calls succeed, one `ensureRoutes` leaves in FRR
  -- exactly the desired addresses and those found there that are not managed, and in the kernel
  -- the same, where in port-forward-only mode the kernel's routes stay as they are.
  pub ensure_routes-Converges :
      (ip : String)
      → (elem ip (after w (ensure_routes (faithful w) agent desired []).1).frr ≡ target_frr ip)
        × (elem ip (after w (ensure_routes (faithful w) agent desired []).1).kernel
            ≡ target_kernel ip)
  unfolding ensure_routes frr_listing after
  ensure_routes-Converges ip =
      let (kernel, h) = kernel_listing (faithful w) agent [] in
      let (listed, same) = kernel_listing-Listed in
      let end : after w (ensure_routes (faithful w) agent desired []).1
          ≡ after w (routed w agent desired kernel w.frr (list_frr ∷ h)) =
        (ap
            (λ (v : World).
              after w (apply_routes (faithful w) agent desired kernel v.frr (list_frr ∷ h)).1)
            same
          ∙ apply_routes-routed kernel (list_frr ∷ h) same listed) in
      (
        ap (λ (v : World). elem ip v.frr) end
            ∙ routed-target_frr ip kernel (list_frr ∷ h) same listed,
        ap (λ (v : World). elem ip v.kernel) end
            ∙ routed-target_kernel ip kernel (list_frr ∷ h) same listed,
      )
