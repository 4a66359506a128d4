-- ===== src/Agent/Replay.antt =====
-- `ensureRoutes` on a host whose calls succeed: the sets of routes that it leaves.
use ovn_route_agent.Base.{
  String, Bool, true, false, not, ◌&&◌, ◌||◌, ◌≡◌, refl, ◌∙◌, some, List, [], ◌∷◌, ◌++◌, ◌==◌,
  arith, eq_iff, is_empty, elem, elem-append, elem-filter, filter, Bool-cases, inl, inr,
}
use ovn_route_agent.Agent.Defs.{
  Call, list_kernel, list_frr, add_kernel, del_kernel, add_frr, del_frr, refresh_bgp, Host, call_if,
  add_missing, del_kernel_routes,
}

-- The routes of the host.
pub record World : Type 0 where
  pub kernel : List String
  pub frr : List String

-- What a call that succeeds does to them.
unfoldable pub perform : Call → World → World
unfolding filter elem
perform list_kernel w = w
perform list_frr w = w
perform refresh_bgp w = w
perform (add_kernel ip) w = record w { kernel = ip ∷ w.kernel }
perform (del_kernel ip) w = record w { kernel = filter (λ x. not (x == ip)) w.kernel }
perform (add_frr ips) w = record w { frr = ips ++ w.frr }
perform (del_frr ips) w = record w { frr = filter (λ x. not (elem x ips)) w.frr }

-- The routes after the calls, the last one first.
unfoldable pub after : World → List Call → World
unfolding perform
after w [] = w
after w (c ∷ h) = perform c (after w h)

-- The host whose listings show them.
abbrev pub faithful : World → Host
faithful w = record { kernel = λ h. some (after w h).kernel; frr = λ h. some (after w h).frr }

module _ (w : World) (ip : String) where
  add_kernel-kernel :
      (b : Bool) (x : String) (h : List Call)
      → elem ip (after w (call_if b (add_kernel x) h).1).kernel
        ≡ ((b && x == ip) || elem ip (after w h).kernel)
  unfolding elem after
  add_kernel-kernel true x h = refl
  add_kernel-kernel false x h = refl

  add_kernel-frr :
      (b : Bool) (x : String) (h : List Call)
      → (after w (call_if b (add_kernel x) h).1).frr ≡ (after w h).frr
  unfolding after
  add_kernel-frr true x h = refl
  add_kernel-frr false x h = refl

  pub add_missing-kernel :
      (manage : Bool) (kernel frr ips : List String) (h : List Call)
      → elem ip (after w (add_missing manage kernel frr ips h).1).kernel
        ≡ ((manage && elem ip ips && not (elem ip kernel)) || elem ip (after w h).kernel)
  unfolding add_missing elem after
  add_missing-kernel manage kernel frr [] h = ground arith
  add_missing-kernel manage kernel frr (x ∷ ips) h =
      add_missing-kernel manage kernel frr ips _
      ∙ rw (add_kernel-kernel (manage && not (elem x kernel)) x h) (ground (arith, eq_iff x ip))

  pub add_missing-frr :
      (manage : Bool) (kernel frr ips : List String) (h : List Call)
      → (after w (add_missing manage kernel frr ips h).1).frr ≡ (after w h).frr
  unfolding add_missing after
  add_missing-frr manage kernel frr [] h = refl
  add_missing-frr manage kernel frr (x ∷ ips) h =
      add_missing-frr manage kernel frr ips _ ∙ add_kernel-frr (manage && not (elem x kernel)) x h

  pub add_missing-added :
      (manage : Bool) (kernel frr ips : List String) (h : List Call)
      → elem ip (add_missing manage kernel frr ips h).0 ≡ (elem ip ips && not (elem ip frr))
  unfolding add_missing elem
  add_missing-added manage kernel frr [] h = ground arith
  add_missing-added manage kernel frr (x ∷ ips) h = elim (Bool-cases (elem x frr)) [
    | inl e ↦ rw e (add_missing-added manage kernel frr ips _ ∙ ground (arith, eq_iff x ip))
    | inr e ↦ rw (e, add_missing-added manage kernel frr ips _) (ground (arith, eq_iff x ip))
  ]

  pub add_frr-frr :
      (ips : List String) (h : List Call)
      → elem ip (after w (call_if (not (is_empty ips)) (add_frr ips) h).1).frr
        ≡ (elem ip ips || elem ip (after w h).frr)
  unfolding elem after
  add_frr-frr [] h = refl
  add_frr-frr (x ∷ ips) h = elem-append ip (x ∷ ips) (after w h).frr

  pub del_frr-frr :
      (ips : List String) (h : List Call)
      → elem ip (after w (call_if (not (is_empty ips)) (del_frr ips) h).1).frr
        ≡ (not (elem ip ips) && elem ip (after w h).frr)
  unfolding elem after
  del_frr-frr [] h = refl
  del_frr-frr (x ∷ ips) h = elem-filter ip (λ y. not (elem y (x ∷ ips))) (after w h).frr

  pub del_kernel-kernel :
      (ips : List String) (h : List Call)
      → elem ip (after w (del_kernel_routes ips h).1).kernel
        ≡ (not (elem ip ips) && elem ip (after w h).kernel)
  unfolding elem after del_kernel_routes
  del_kernel-kernel [] h = refl
  del_kernel-kernel (x ∷ ips) h =
      del_kernel-kernel ips (del_kernel x ∷ h)
      ∙ (rw (elem-filter ip (λ y. not (y == x)) (after w h).kernel)
          (ground (arith, eq_iff x ip, eq_iff ip x)))

  pub del_kernel-frr :
      (ips : List String) (h : List Call)
      → (after w (del_kernel_routes ips h).1).frr ≡ (after w h).frr
  unfolding after del_kernel_routes
  del_kernel-frr [] h = refl
  del_kernel-frr (x ∷ ips) h = del_kernel-frr ips (del_kernel x ∷ h)

pub call_if-kernel :
    (w : World) (b c : Bool) (ips jps : List String) (h : List Call)
    → (after w (call_if c (del_frr jps) (call_if b (add_frr ips) h).1).1).kernel
      ≡ (after w h).kernel
unfolding after
call_if-kernel w true true ips jps h = refl
call_if-kernel w true false ips jps h = refl
call_if-kernel w false true ips jps h = refl
call_if-kernel w false false ips jps h = refl
