-- ===== src/Routing/Batches.antt =====
-- Which addresses `AddFRRRoutes` and `DelFRRRoutes` send to vtysh.
use Prim.Native.String.{◌++◌ as ◌+++◌}
use ovn_route_agent.Base.{
  ℕ, zero, suc, ◌≤◌, ◌<◌, String, Bool, true, false, not, ◌≡◌, ◌⊎◌, inl, inr, refl, sym, ap, ◌∙◌,
  subst, List, [], ◌∷◌, ◌++◌, arith, length, map, take, drop, All, Bool-cases, if◌then◌else◌,
}
use ovn_route_agent.Routing.Defs.{
  RouteManager, Vtysh, all_valid, frr_batch_size, route_args, batch_args, send_batches,
  change_frr_routes, add_frr_routes, del_frr_routes,
}

abbrev pub concat : List (List String) → List String
concat [] = []
concat (xs ∷ xss) = xs ++ concat xss

take-drop : (n : ℕ) (xs : List String) → take n xs ++ drop n xs ≡ xs
take-drop zero xs = refl
take-drop (suc n) [] = refl
take-drop (suc n) (x ∷ xs) = ap (λ ys. x ∷ ys) (take-drop n xs)

length-take : (n : ℕ) (xs : List String) → length (take n xs) ≤ n
length-take zero xs = omega arith
length-take (suc n) [] = omega arith
length-take (suc n) (x ∷ xs) = omega (arith, length-take n xs)

length-drop : (n : ℕ) (xs : List String) → length (drop n xs) ≤ length xs
length-drop zero xs = omega arith
length-drop (suc n) [] = omega arith
length-drop (suc n) (x ∷ xs) = omega (arith, length-drop n xs)

append_assoc : (xs ys zs : List String) → (xs ++ ys) ++ zs ≡ xs ++ (ys ++ zs)
append_assoc [] ys zs = refl
append_assoc (x ∷ xs) ys zs = ap (λ ws. x ∷ ws) (append_assoc xs ys zs)

-- The arguments of one address, and those of one call of vtysh.
abbrev pub address_words : (verb nexthop ip : String) → List String
address_words verb nexthop ip = "-c" ∷ (verb +++ (" " +++ (ip +++ ("/32 " +++ nexthop)))) ∷ []

abbrev pub call_words : RouteManager → (verb : String) → List String → List String
call_words rm verb ips =
    "-c"
    ∷ "conf t"
    ∷ "-c"
    ∷ ("vrf " +++ rm.vrf_name)
    ∷ (concat (map (address_words verb rm.veth_nexthop) ips)
        ++ ("-c" ∷ "exit-vrf" ∷ "-c" ∷ "end" ∷ []))

route_args-eq :
    (verb nexthop : String) (ips : List String)
    → route_args verb nexthop ips ≡ concat (map (address_words verb nexthop) ips)
unfolding route_args
route_args-eq verb nexthop [] = refl
route_args-eq verb nexthop (ip ∷ ips) = rw (route_args-eq verb nexthop ips) refl

batch_args-eq :
    (rm : RouteManager) (verb : String) (ips : List String)
    → batch_args rm verb ips ≡ call_words rm verb ips
unfolding batch_args
batch_args-eq rm verb ips = rw (route_args-eq verb rm.veth_nexthop ips) refl

module _ (rm : RouteManager) (verb : String) where
  -- The calls of the given batches, in order, behind the calls before.
  abbrev pub sent_after : List (List String) → List (List String) → List (List String)
  sent_after [] sent = sent
  sent_after (batch ∷ batches) sent = sent_after batches (call_words rm verb batch ∷ sent)

  abbrev pub IsBatch : List String → Type 0
  IsBatch batch = (0 < length batch) × (length batch ≤ 500)

  -- The addresses of batches in order, none dropped and none twice: all of them where the result is
  -- true, and a first part where a call fails.
  abbrev pub Batched : List String → List (List String) → Bool × List (List String) → Type 0
  Batched ips sent result =
      (batches : List (List String)) × (rest : List String) × (result.1 ≡ sent_after batches sent)
      × All IsBatch batches
      × (concat batches ++ rest ≡ ips)
      × (result.0 ≡ true → rest ≡ [])

  chunk-IsBatch : (ip : String) (ips : List String) → IsBatch (take frr_batch_size (ip ∷ ips))
  chunk-IsBatch ip ips = (omega arith, length-take 500 (ip ∷ ips))

  send_batches-Batched :
      (vtysh : Vtysh) (fuel : ℕ) (ips : List String) (sent : List (List String))
      → length ips ≤ fuel
      → Batched ips sent (send_batches vtysh rm verb fuel ips sent)
  unfolding send_batches
  send_batches-Batched vtysh fuel [] sent h = ([], [], refl, tt, refl, λ e. refl)
  send_batches-Batched vtysh zero (ip ∷ ips) sent h = absurd (omega (arith, h))
  send_batches-Batched vtysh (suc fuel) (ip ∷ ips) sent h =
      let chunk = take frr_batch_size (ip ∷ ips) in
      let after = drop frr_batch_size (ip ∷ ips) in
      let args = batch_args rm verb chunk in
      let (batches, rest, calls, sizes, all, done) =
        send_batches-Batched vtysh fuel after (args ∷ sent)
          (omega (arith, length-drop 499 ips, h)) in
      elim (Bool-cases (vtysh sent args)) [
        | inl e ↦ rw e (
          chunk ∷ batches,
          rest,
          calls ∙ ap (λ a. sent_after batches (a ∷ sent)) (batch_args-eq rm verb chunk),
          (chunk-IsBatch ip ips, sizes),
          append_assoc chunk (concat batches) rest
              ∙ ap (λ ys. chunk ++ ys) all
              ∙ take-drop frr_batch_size (ip ∷ ips),
          done,
        )
        | inr e ↦ rw e (
          chunk ∷ [],
          after,
          ap (λ a. a ∷ sent) (batch_args-eq rm verb chunk),
          (chunk-IsBatch ip ips, tt),
          append_assoc chunk [] after ∙ take-drop frr_batch_size (ip ∷ ips),
          λ no. cc,
        )
      ]

change_frr_routes-Batched :
    (vtysh : Vtysh) (rm : RouteManager) (verb : String) (ips : List String)
    (sent : List (List String))
    → rm.dry_run ≡ false
    → all_valid ips ≡ true
    → Batched rm verb ips sent (change_frr_routes vtysh rm verb ips sent)
unfolding change_frr_routes
change_frr_routes-Batched vtysh rm verb [] sent wet valid = ([], [], refl, tt, refl, λ e. refl)
change_frr_routes-Batched vtysh rm verb (ip ∷ ips) sent wet valid =
    subst (Batched rm verb (ip ∷ ips) sent) (sym (go wet valid))
      (send_batches-Batched rm verb vtysh (length (ip ∷ ips)) (ip ∷ ips) sent (omega arith))
  where
    batches : Bool × List (List String)
    batches = send_batches vtysh rm verb (length (ip ∷ ips)) (ip ∷ ips) sent

    go :
        {d v : Bool}
        → d ≡ false
        → v ≡ true
        → (if not v then (false, sent) else if d then (true, sent) else batches) ≡ batches
    go wet valid = rw (wet, valid) refl

-- Outside dry-run mode and on addresses that are all valid, `AddFRRRoutes` and `DelFRRRoutes` send
-- the addresses to vtysh in their order, in batches of 1 to 500 addresses, each in one call: all of
-- them where no error is returned, and otherwise a first part of them. A call enters the
-- configuration and the VRF, has one command for each address of its batch with its /32 and the next
-- hop, and leaves the VRF.
pub frr_routes-Batched :
    (vtysh : Vtysh) (rm : RouteManager) (ips : List String) (sent : List (List String))
    → rm.dry_run ≡ false
    → all_valid ips ≡ true
    → Batched rm "ip route" ips sent (add_frr_routes vtysh rm ips sent)
      × Batched rm "no ip route" ips sent (del_frr_routes vtysh rm ips sent)
unfolding add_frr_routes del_frr_routes
frr_routes-Batched vtysh rm ips sent wet valid = (
  change_frr_routes-Batched vtysh rm "ip route" ips sent wet valid,
  change_frr_routes-Batched vtysh rm "no ip route" ips sent wet valid,
)

change_frr_routes_silent :
    (vtysh : Vtysh) (rm : RouteManager) (verb : String) (ips : List String)
    (sent : List (List String))
    → (rm.dry_run ≡ true) ⊎ (all_valid ips ≡ false)
    → change_frr_routes vtysh rm verb ips sent ≡ (all_valid ips, sent)
unfolding change_frr_routes all_valid
change_frr_routes_silent vtysh rm verb [] sent why = refl
change_frr_routes_silent vtysh rm verb (ip ∷ ips) sent why = go _ _ _ why
  where
    go :
        (d v : Bool) (batches : Bool × List (List String))
        → (d ≡ true) ⊎ (v ≡ false)
        → (if not v then (false, sent) else if d then (true, sent) else batches) ≡ (v, sent)
    go true true batches why = refl
    go false true batches why = ground arith
    go d false batches why = refl

-- In dry-run mode, and where some address is not valid, `AddFRRRoutes` and `DelFRRRoutes` send
-- nothing, and they return an error exactly where some address is not valid.
pub frr_routes_silent :
    (vtysh : Vtysh) (rm : RouteManager) (ips : List String) (sent : List (List String))
    → (rm.dry_run ≡ true) ⊎ (all_valid ips ≡ false)
    → (add_frr_routes vtysh rm ips sent ≡ (all_valid ips, sent))
      × (del_frr_routes vtysh rm ips sent ≡ (all_valid ips, sent))
unfolding add_frr_routes del_frr_routes
frr_routes_silent vtysh rm ips sent why = (
  change_frr_routes_silent vtysh rm "ip route" ips sent why,
  change_frr_routes_silent vtysh rm "no ip route" ips sent why,
)
