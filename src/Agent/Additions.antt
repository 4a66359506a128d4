-- ===== src/Agent/Additions.antt =====
-- Which routes `ensureRoutes` adds, and what its log keeps.
use ovn_route_agent.Base.{
  String, Bool, true, false, not, ◌&&◌, ◌≡◌, refl, Option, none, some, List, [], ◌∷◌, ◌++◌,
  if◌then◌else◌, arith, eq_refl, is_empty, elem, All, Bool-cases, inl, inr,
}
use ovn_route_agent.Agent.Defs.{
  Agent, Call, list_kernel, list_frr, add_kernel, del_kernel, add_frr, del_frr, refresh_bgp, Host,
  call_if, re_add, re_add_all, verify_kernel, verify_listing, verify_frr, verify_routes,
  add_missing, stale, stale_kernel, orphaned_frr, del_kernel_routes, kernel_listing, frr_listing,
  finish, apply_routes, ensure_routes,
}

kernel_listing-forward_only :
    (agent : Agent) (host : Host)
    → agent.port_forward_only ≡ true
    → (kernel_listing host agent []).0 ≡ []
unfolding kernel_listing
kernel_listing-forward_only agent host e = rw e refl

pub All-elem :
    (P : String → Type 0) (xs : List String) → ((x : String) → elem x xs ≡ true → P x) → All P xs
unfolding elem
All-elem P [] f = tt
All-elem P (x ∷ xs) f = (f x (rw (eq_refl x)), All-elem P xs (λ y e. f y (ground arith)))

module _ (agent : Agent) (desired : List String) where
  abbrev pub Wanted : String → Type 0
  Wanted ip = elem ip desired ≡ true

  abbrev pub IsStale : String → Type 0
  IsStale ip = stale agent desired ip ≡ true

  -- A call that is not a removal: kernel routes are listed and added in full mode only, and only
  -- desired addresses are added.
  abbrev pub IsAddition : Call → Type 0
  IsAddition list_kernel = agent.port_forward_only ≡ false
  IsAddition list_frr = Unit
  IsAddition refresh_bgp = Unit
  IsAddition (add_kernel ip) = (agent.port_forward_only ≡ false) × Wanted ip
  IsAddition (add_frr ips) = All Wanted ips
  IsAddition (del_kernel ip) = ⊥
  IsAddition (del_frr ips) = ⊥

  if-Wanted :
      (b : Bool) (ip : String) (ips : List String)
      → Wanted ip
      → All Wanted ips
      → All Wanted (if b then ip ∷ ips else ips)
  if-Wanted true ip ips w ws = (w, ws)
  if-Wanted false ip ips w ws = ws

  re_add-Wanted :
      (frr kernel ips : List String) (h : List Call)
      → All Wanted ips
      → All Wanted (re_add agent frr kernel ips h).0.0
  unfolding re_add
  re_add-Wanted frr kernel [] h w = tt
  re_add-Wanted frr kernel (ip ∷ ips) h w =
      if-Wanted _ ip _ w.0 (re_add-Wanted frr kernel ips _ w.1)

  add_missing-Wanted :
      (manage : Bool) (kernel frr ips : List String) (h : List Call)
      → All Wanted ips
      → All Wanted (add_missing manage kernel frr ips h).0
  unfolding add_missing
  add_missing-Wanted manage kernel frr [] h w = tt
  add_missing-Wanted manage kernel frr (ip ∷ ips) h w = elim (Bool-cases (elem ip frr)) [
    | inl e ↦ rw e (add_missing-Wanted manage kernel frr ips _ w.1)
    | inr e ↦ rw e (w.0, add_missing-Wanted manage kernel frr ips _ w.1)
  ]

  -- Something that all calls but removals keep.
  module _ (Inv : List Call → Type 0)
      (step : (c : Call) (h : List Call) → IsAddition c → Inv h → Inv (c ∷ h)) where
    call_if-Inv :
        (b : Bool) (c : Call) (h : List Call)
        → (b ≡ true → IsAddition c)
        → Inv h
        → Inv (call_if b c h).1
    call_if-Inv true c h a i = step c h (a refl) i
    call_if-Inv false c h a i = i

    re_add-Inv :
        (frr kernel ips : List String) (h : List Call)
        → All Wanted ips
        → Inv h
        → Inv (re_add agent frr kernel ips h).1
    unfolding re_add
    re_add-Inv frr kernel [] h w i = i
    re_add-Inv frr kernel (ip ∷ ips) h w i =
        re_add-Inv frr kernel ips _ w.1
          (call_if-Inv _ (add_kernel ip) h (λ e. (ground arith, w.0)) i)

    re_add_all-Inv :
        (frr kernel ips : List String) (h : List Call)
        → All Wanted ips
        → Inv h
        → Inv (re_add_all agent frr kernel ips h).1
    unfolding re_add_all
    re_add_all-Inv frr kernel ips h w i =
        call_if-Inv _ _ _ (λ e. re_add-Wanted frr kernel ips h w) (re_add-Inv frr kernel ips h w i)

    verify_kernel-Inv :
        (host : Host) (frr ips : List String) (o : Option (List String)) (h : List Call)
        → All Wanted ips
        → Inv h
        → Inv (verify_kernel host agent frr ips o h).1
    unfolding verify_kernel
    verify_kernel-Inv host frr ips none h w i = i
    verify_kernel-Inv host frr ips (some kernel) h w i = re_add_all-Inv frr kernel ips h w i

    verify_listing-Inv : (host : Host) (h : List Call) → Inv h → Inv (verify_listing host agent h).1
    unfolding verify_listing
    verify_listing-Inv host h i = elim (Bool-cases agent.port_forward_only) [
      | inl e ↦ rw e i
      | inr e ↦ rw e (step list_kernel h e i)
    ]

    verify_frr-Inv :
        (host : Host) (ips : List String) (o : Option (List String)) (h : List Call)
        → All Wanted ips
        → Inv h
        → Inv (verify_frr host agent ips o h).1
    unfolding verify_frr
    verify_frr-Inv host ips none h w i = i
    verify_frr-Inv host ips (some frr) h w i =
        verify_kernel-Inv host frr ips _ _ w (verify_listing-Inv host h i)

    verify_routes-Inv :
        (host : Host) (ips : List String) (h : List Call)
        → All Wanted ips
        → Inv h
        → Inv (verify_routes host agent ips h).1
    unfolding verify_routes
    verify_routes-Inv host ips h w i =
        verify_frr-Inv host ips (host.frr h) _ w (step list_frr h tt i)

    add_missing-Inv :
        (kernel frr ips : List String) (h : List Call)
        → All Wanted ips
        → Inv h
        → Inv (add_missing (not agent.port_forward_only) kernel frr ips h).1
    unfolding add_missing
    add_missing-Inv kernel frr [] h w i = i
    add_missing-Inv kernel frr (ip ∷ ips) h w i =
        add_missing-Inv kernel frr ips _ w.1
          (call_if-Inv _ (add_kernel ip) h (λ e. (ground arith, w.0)) i)

    finish-Inv :
        (host : Host) (ips added removed : List String) (h : List Call)
        → All Wanted ips
        → Inv h
        → Inv (finish host agent ips added removed h).1
    unfolding finish
    finish-Inv host ips added removed h w i =
        elim (Bool-cases (is_empty added && is_empty removed)) [
          | inl e ↦ rw e i
          | inr e ↦ rw e (verify_routes-Inv host ips (refresh_bgp ∷ h) w (step refresh_bgp h tt i))
        ]

    kernel_listing-Inv : (host : Host) (h : List Call) → Inv h → Inv (kernel_listing host agent h).1
    unfolding kernel_listing
    kernel_listing-Inv host h i = elim (Bool-cases agent.port_forward_only) [
      | inl e ↦ rw e i
      | inr e ↦ rw e (step list_kernel h e i)
    ]

    frr_listing-Inv : (host : Host) (h : List Call) → Inv h → Inv (frr_listing host h).1
    unfolding frr_listing
    frr_listing-Inv host h i = step list_frr h tt i

    -- `ensureRoutes` keeps what additions keep, if its removals do.
    pub ensure_routes-Inv :
        (host : Host)
        → All Wanted desired
        → ((kernel frr : List String) (h : List Call)
            → (agent.port_forward_only ≡ true → kernel ≡ [])
            → Inv h
            → Inv
                (del_kernel_routes
                  (stale_kernel agent desired kernel)
                  (call_if
                    (not (
                      is_empty (
                        stale_kernel agent desired kernel
                        ++ orphaned_frr agent desired (stale_kernel agent desired kernel) frr)))
                    (del_frr (
                      stale_kernel agent desired kernel
                      ++ orphaned_frr agent desired (stale_kernel agent desired kernel) frr))
                    h).1).1)
        → Inv []
        → Inv (ensure_routes host agent desired []).1
    unfolding ensure_routes apply_routes
    ensure_routes-Inv host w removals i =
        let (kernel, h1) = kernel_listing host agent [] in
        let (frr, h2) = frr_listing host h1 in
        let i2 = frr_listing-Inv host h1 (kernel_listing-Inv host [] i) in
        let i3 = add_missing-Inv kernel frr desired h2 w i2 in
        let i4 =
          call_if-Inv _ (add_frr _) _ (λ e. add_missing-Wanted _ kernel frr desired h2 w) i3 in
        finish-Inv host desired _ _ _ w
          (removals kernel frr _ (kernel_listing-forward_only agent host) i4)
