-- ===== src/Routing/Defs.antt =====
-- `AddFRRRoutes` and `DelFRRRoutes` of routing.go.
use Prim.Native.String.{◌++◌ as ◌+++◌}
use ovn_route_agent.Base.{
  ℕ, zero, suc, String, Bool, true, false, not, ◌&&◌, Option, none, some, List, [], ◌∷◌, ◌++◌,
  is_empty, length, take, drop, if◌then◌else◌,
}
use ovn_route_agent.Net.{Ip, parse_ip}

-- The fields of `RouteManager` that these methods use.
pub record RouteManager : Type 0 where
  pub vrf_name : String
  pub veth_nexthop : String
  pub dry_run : Bool

-- Whether a call of vtysh succeeds, given its arguments and those of the calls before it, the last
-- one first.
abbrev pub Vtysh : Type 0
Vtysh = List (List String) → List String → Bool

-- A method returns its result and the calls so far, the last one first.
abbrev pub M : Type 0 → Type 0
M A = List (List String) → A × List (List String)

abbrev parses : Option Ip → Bool
parses none = false
parses (some a) = true

-- `validateIP`: true where it returns no error.
unfoldable pub validate_ip : String → Bool
validate_ip ip = parses (parse_ip ip)

unfoldable pub all_valid : List String → Bool
unfolding validate_ip
all_valid [] = true
all_valid (ip ∷ ips) = validate_ip ip && all_valid ips

-- `frrBatchSize`
abbrev pub frr_batch_size : ℕ
frr_batch_size = 500

-- The two methods differ in the word of their commands: "ip route" and "no ip route".
unfoldable pub route_args : (verb nexthop : String) → List String → List String
route_args verb nexthop [] = []
route_args verb nexthop (ip ∷ ips) =
    "-c" ∷ (verb +++ (" " +++ (ip +++ ("/32 " +++ nexthop)))) ∷ route_args verb nexthop ips

unfoldable pub batch_args : RouteManager → (verb : String) → List String → List String
unfolding route_args
batch_args rm verb chunk =
    ("-c" ∷ "conf t" ∷ "-c" ∷ ("vrf " +++ rm.vrf_name) ∷ [])
    ++ (route_args verb rm.veth_nexthop chunk ++ ("-c" ∷ "exit-vrf" ∷ "-c" ∷ "end" ∷ []))

-- One call, and the rest of the loop where it succeeds.
abbrev pub send : Vtysh → List String → M Bool → M Bool
send vtysh args rest sent =
    let after = rest (args ∷ sent) in if vtysh sent args then after else (false, args ∷ sent)

-- The loop over the chunks, on fuel: each round takes one address at least.
unfoldable pub send_batches :
    Vtysh → RouteManager → (verb : String) → (fuel : ℕ) → List String → M Bool
unfolding batch_args
send_batches vtysh rm verb fuel [] sent = (true, sent)
send_batches vtysh rm verb zero (ip ∷ ips) sent = (true, sent)
send_batches vtysh rm verb (suc fuel) (ip ∷ ips) sent =
    send vtysh (batch_args rm verb (take frr_batch_size (ip ∷ ips)))
      (send_batches vtysh rm verb fuel (drop frr_batch_size (ip ∷ ips))) sent

unfoldable pub change_frr_routes : Vtysh → RouteManager → (verb : String) → List String → M Bool
unfolding all_valid send_batches
change_frr_routes vtysh rm verb ips sent =
    let batches = send_batches vtysh rm verb (length ips) ips sent in
    if is_empty ips
    then (true, sent)
    else if not (all_valid ips)
    then (false, sent)
    else if rm.dry_run
    then (true, sent)
    else batches

-- `AddFRRRoutes`: true where it returns no error.
unfoldable pub add_frr_routes : Vtysh → RouteManager → List String → M Bool
unfolding change_frr_routes
add_frr_routes vtysh rm ips = change_frr_routes vtysh rm "ip route" ips

-- `DelFRRRoutes`: true where it returns no error.
unfoldable pub del_frr_routes : Vtysh → RouteManager → List String → M Bool
unfolding change_frr_routes
del_frr_routes vtysh rm ips = change_frr_routes vtysh rm "no ip route" ips
