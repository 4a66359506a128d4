-- ===== src/Agent/Order.antt =====
-- FRR routes are withdrawn before the kernel routes behind them go.
use ovn_route_agent.Base.{
  String, Bool, true, false, not, ◌≡◌, List, [], ◌∷◌, ◌++◌, arith, is_empty, any, elem, elem-append,
  All, All-map,
}
use ovn_route_agent.Agent.Defs.{
  Agent, Call, list_kernel, list_frr, add_kernel, del_kernel, add_frr, del_frr, refresh_bgp, Host,
  call_if, stale_kernel, del_kernel_routes, ensure_routes,
}
use ovn_route_agent.Agent.Additions.{IsAddition, All-elem, ensure_routes-Inv}
use ovn_route_agent.Agent.Routes.{desired-Wanted}

-- The call withdraws the address from FRR.
abbrev withdraws : String → Call → Bool
withdraws ip (del_frr ips) = elem ip ips
withdraws ip _ = false

abbrev pub withdrawn : String → List Call → Bool
withdrawn ip h = any (withdraws ip) h

-- Each kernel route that was removed had been withdrawn from FRR before.
abbrev pub IsOrdered : List Call → Type 0
IsOrdered [] = Unit
IsOrdered (del_kernel ip ∷ h) = (withdrawn ip h ≡ true) × IsOrdered h
IsOrdered (c ∷ h) = IsOrdered h

addition-IsOrdered :
    (agent : Agent) (desired : List String) (c : Call) (h : List Call)
    → IsAddition agent desired c
    → IsOrdered h
    → IsOrdered (c ∷ h)
addition-IsOrdered agent desired list_kernel h a i = i
addition-IsOrdered agent desired list_frr h a i = i
addition-IsOrdered agent desired refresh_bgp h a i = i
addition-IsOrdered agent desired (add_kernel ip) h a i = i
addition-IsOrdered agent desired (add_frr ips) h a i = i
addition-IsOrdered agent desired (del_kernel ip) h a i = absurd a
addition-IsOrdered agent desired (del_frr ips) h a i = absurd a

-- More removals do not take a withdrawal back.
withdrawn-del_kernel :
    (jp : String) (h : List Call) (ips : List String)
    → All (λ ip. withdrawn ip h ≡ true) ips
    → All (λ ip. withdrawn ip (del_kernel jp ∷ h) ≡ true) ips
unfolding any
withdrawn-del_kernel jp h ips w = All-map _ _ ips (λ ip e. e) w

del_kernel_routes-IsOrdered :
    (ips : List String) (h : List Call)
    → All (λ ip. withdrawn ip h ≡ true) ips
    → IsOrdered h
    → IsOrdered (del_kernel_routes ips h).1
unfolding del_kernel_routes
del_kernel_routes-IsOrdered [] h w i = i
del_kernel_routes-IsOrdered (ip ∷ ips) h w i =
    del_kernel_routes-IsOrdered ips (del_kernel ip ∷ h) (withdrawn-del_kernel ip h ips w.1) (w.0, i)

call_if-IsOrdered :
    (b : Bool) (ips : List String) (h : List Call)
    → IsOrdered h
    → IsOrdered (call_if b (del_frr ips) h).1
call_if-IsOrdered true ips h i = i
call_if-IsOrdered false ips h i = i

batch-withdraws :
    (ip : String) (xs ys : List String) (h : List Call)
    → elem ip xs ≡ true
    → withdrawn ip (del_frr (xs ++ ys) ∷ h) ≡ true
unfolding any
batch-withdraws ip xs ys h e = ground (arith, elem-append ip xs ys)

-- The first of two lists is withdrawn with the batch of both.
batch-withdrawn :
    (xs ys : List String) (h : List Call)
    → All
        (λ ip. withdrawn ip (call_if (not (is_empty (xs ++ ys))) (del_frr (xs ++ ys)) h).1 ≡ true)
        xs
batch-withdrawn [] ys h = tt
batch-withdrawn (x ∷ xs) ys h = All-elem _ (x ∷ xs) (λ ip e. batch-withdraws ip (x ∷ xs) ys h e)

-- Whatever the listings return, `ensureRoutes` removes a kernel route only after it has told FRR to
-- withdraw the same address.
pub ensure_routes-IsOrdered :
    (host : Host) (agent : Agent) (desired : List String)
    → IsOrdered (ensure_routes host agent desired []).1
ensure_routes-IsOrdered host agent desired =
    ensure_routes-Inv agent desired IsOrdered (addition-IsOrdered agent desired) host
      (desired-Wanted agent desired)
      (λ kernel frr h empty i.
        del_kernel_routes-IsOrdered _ _ (batch-withdrawn (stale_kernel agent desired kernel) _ h)
          (call_if-IsOrdered _ _ h i))
      tt
