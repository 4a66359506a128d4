-- ===== src/Agent/Defs.antt =====
-- `isManaged`, `uniqueIPs`, `ensureRoutes`, `verifyRoutes`, `removeAllRoutes` of agent.go.
use ovn_route_agent.Base.{
  ℕ, zero, suc, ◌+◌, String, Bool, false, not, ◌&&◌, ◌||◌, Option, none, some, List, [], ◌∷◌, ◌++◌,
  ◌==◌, if◌then◌else◌, is_empty, length, filter, elem, trim_space, sort_strings,
}
use ovn_route_agent.Net.{IpNet, Ip, parse_ip, contained_in_any}

-- The fields of `Agent` that these methods use.
pub record Agent : Type 0 where
  pub port_forward_only : Bool
  pub effective_filters : List IpNet
  pub consecutive_re_adds : ℕ

-- The calls of the route manager.
pub data Call : Type 0 where
  list_kernel : Call
  list_frr : Call
  add_kernel : (ip : String) → Call
  del_kernel : (ip : String) → Call
  add_frr : (ips : List String) → Call
  del_frr : (ips : List String) → Call
  refresh_bgp : Call

-- What the two listings return after the given calls, the last one first; none where they fail.
-- The errors of the other calls are logged only.
pub record Host : Type 0 where
  pub kernel : List Call → Option (List String)
  pub frr : List Call → Option (List String)

-- A method returns its result and the calls so far, the last one first.
abbrev pub M : Type 0 → Type 0
M A = List Call → A × List Call

infixl 5 ◌>>=◌ ◌>>◌
abbrev pub ◌>>=◌ : {A B : Type 0} → M A → (A → M B) → M B
◌>>=◌ m f h = let (a, h') = m h in f a h'

abbrev pub ◌>>◌ : {A B : Type 0} → M A → M B → M B
m >> k = m >>= λ _. k

abbrev pub pure : {A : Type 0} → A → M A
pure a h = (a, h)

abbrev pub call : Call → M Unit
call c h = (tt, c ∷ h)

abbrev pub call_if : Bool → Call → M Unit
call_if b c h = (tt, if b then c ∷ h else h)

abbrev pub list_frr_routes : Host → M (Option (List String))
list_frr_routes host h = (host.frr h, list_frr ∷ h)

-- A failed listing is logged, and counts as an empty one.
abbrev pub or_nothing : Option (List String) → List String
or_nothing none = []
or_nothing (some ips) = ips

abbrev parsed_in : Option Ip → List IpNet → Bool
parsed_in none nets = false
parsed_in (some a) nets = contained_in_any a nets

-- `isManaged`
unfoldable pub is_managed : Agent → String → Bool
is_managed agent ip =
    is_empty agent.effective_filters || parsed_in (parse_ip ip) agent.effective_filters

-- `uniqueIPs`, with the set and the list as one: each is added where the other is.
unfoldable pub collect_unique : List String → List String → List String
unfolding trim_space elem
collect_unique [] seen = seen
collect_unique (ip ∷ ips) seen = collect_unique ips (
    if not (trim_space ip == "") && not (elem (trim_space ip) seen)
    then trim_space ip ∷ seen
    else seen)

unfoldable pub unique_ips : List String → List String
unfolding collect_unique sort_strings
unique_ips ips = sort_strings (collect_unique ips [])

-- The loop of `verifyRoutes`: the FRR routes to add again, and the number of kernel routes added.
unfoldable pub re_add : Agent → (frr kernel desired : List String) → M (List String × ℕ)
re_add agent frr kernel [] = pure ([], 0)
re_add agent frr kernel (ip ∷ ips) =
    let miss_frr = is_managed agent ip && not (elem ip frr) in
    let miss_kernel = is_managed agent ip && not agent.port_forward_only && not (elem ip kernel) in
    call_if miss_kernel (add_kernel ip)
    >> (re_add agent frr kernel ips >>= λ rest.
        pure (if miss_frr then ip ∷ rest.0 else rest.0, if miss_kernel then suc rest.1 else rest.1))

-- The counter of cycles that had to add routes again.
abbrev pub counted : Agent → ℕ → Agent
counted agent zero = record agent { consecutive_re_adds = 0 }
counted agent (suc n) = record agent { consecutive_re_adds = suc agent.consecutive_re_adds }

unfoldable pub re_add_all : Agent → (frr kernel desired : List String) → M (ℕ × Agent)
unfolding re_add
re_add_all agent frr kernel desired = re_add agent frr kernel desired >>= λ missing.
    call_if (not (is_empty missing.0)) (add_frr missing.0)
    >> pure (length missing.0 + missing.1, counted agent (length missing.0 + missing.1))

unfoldable pub verify_kernel :
    Host → Agent → (frr desired : List String) → Option (List String) → M (ℕ × Agent)
unfolding re_add_all
verify_kernel host agent frr desired none = pure (0, agent)
verify_kernel host agent frr desired (some kernel) = re_add_all agent frr kernel desired

-- The kernel routes are listed in full mode only.
unfoldable pub verify_listing : Host → Agent → M (Option (List String))
verify_listing host agent h =
    if agent.port_forward_only then (some [], h) else (host.kernel h, list_kernel ∷ h)

unfoldable pub verify_frr :
    Host → Agent → (desired : List String) → Option (List String) → M (ℕ × Agent)
unfolding verify_kernel verify_listing
verify_frr host agent desired none = pure (0, agent)
verify_frr host agent desired (some frr) =
    verify_listing host agent >>= verify_kernel host agent frr desired

-- `verifyRoutes`: the number of routes added again, and the agent with its counter.
unfoldable pub verify_routes : Host → Agent → (desired : List String) → M (ℕ × Agent)
unfolding verify_frr
verify_routes host agent desired = list_frr_routes host >>= verify_frr host agent desired

-- The first loop of `ensureRoutes`, which returns the FRR routes to add.
unfoldable pub add_missing : Bool → (kernel frr desired : List String) → M (List String)
unfolding elem
add_missing manage_kernel kernel frr [] = pure []
add_missing manage_kernel kernel frr (ip ∷ ips) =
    call_if (manage_kernel && not (elem ip kernel)) (add_kernel ip)
    >> (add_missing manage_kernel kernel frr ips >>= λ rest.
        pure (if elem ip frr then rest else ip ∷ rest))

-- The kernel routes to remove, and the FRR routes that have none of these.
abbrev pub stale : Agent → (desired : List String) → String → Bool
stale agent desired ip = not (elem ip desired) && is_managed agent ip

unfoldable pub stale_kernel : Agent → (desired kernel : List String) → List String
unfolding filter
stale_kernel agent desired kernel = filter (stale agent desired) kernel

unfoldable pub orphaned_frr : Agent → (desired removed frr : List String) → List String
unfolding filter
orphaned_frr agent desired removed frr =
    filter (λ ip. stale agent desired ip && not (elem ip removed)) frr

unfoldable pub del_kernel_routes : List String → M Unit
del_kernel_routes [] = pure tt
del_kernel_routes (ip ∷ ips) = call (del_kernel ip) >> del_kernel_routes ips

unfoldable pub kernel_listing : Host → Agent → M (List String)
kernel_listing host agent h =
    if agent.port_forward_only then ([], h) else (or_nothing (host.kernel h), list_kernel ∷ h)

unfoldable pub frr_listing : Host → M (List String)
frr_listing host h = (or_nothing (host.frr h), list_frr ∷ h)

-- The refresh and the safety net at the end.
unfoldable pub finish : Host → Agent → (desired added removed : List String) → M Agent
unfolding verify_routes
finish host agent desired added removed h =
    if is_empty added && is_empty removed
    then (agent, h)
    else let ((n, agent'), h') = verify_routes host agent desired (refresh_bgp ∷ h) in (agent', h')

-- The part of `ensureRoutes` behind the two listings.
unfoldable pub apply_routes : Host → Agent → (desired kernel frr : List String) → M Agent
unfolding add_missing stale_kernel orphaned_frr del_kernel_routes finish
apply_routes host agent desired kernel frr =
    add_missing (not agent.port_forward_only) kernel frr desired >>= λ added.
    let stale_ips = stale_kernel agent desired kernel in
    let removed = stale_ips ++ orphaned_frr agent desired stale_ips frr in
    call_if (not (is_empty added)) (add_frr added)
    >> call_if (not (is_empty removed)) (del_frr removed)
    >> del_kernel_routes stale_ips
    >> finish host agent desired added removed

-- `ensureRoutes`
unfoldable pub ensure_routes : Host → Agent → (desired : List String) → M Agent
unfolding kernel_listing frr_listing apply_routes
ensure_routes host agent desired = kernel_listing host agent >>= λ kernel.
    frr_listing host >>= λ frr. apply_routes host agent desired kernel frr

-- `removeAllRoutes`
unfoldable pub remove_kernel : Host → Agent → M Unit
unfolding filter kernel_listing del_kernel_routes
remove_kernel host agent =
    kernel_listing host agent >>= λ kernel. del_kernel_routes (filter (is_managed agent) kernel)

unfoldable pub remove_all_routes : Host → Agent → M Unit
unfolding filter frr_listing remove_kernel
remove_all_routes host agent = frr_listing host >>= λ frr.
    let removed = filter (is_managed agent) frr in
    call_if (not (is_empty removed)) (del_frr removed)
    >> remove_kernel host agent
    >> call_if (not (is_empty removed)) refresh_bgp
