-- ===== src/Ovn/Cache.antt =====
-- ovn_cache.go: the monitor cache is checked against a select of the server.
pub mod Keys
pub mod Sync
use Prim.Native.String.{◌++◌ as ◌+++◌}
use mathlib.Core.List.{map}
use ovn_route_agent.Base.{
  ℕ, String, Bool, true, false, ◌&&◌, Option, none, some, List, [], ◌∷◌, eqb, length, elem, set_of,
  join, sort_strings, keys, lookup, or_empty, if◌then◌else◌,
}
use ovn_route_agent.Ovn.Rows.{
  SbPortBinding, SbChassis, NbNat, NbLogicalRouter, NbLogicalRouterPort, NbStaticMacBinding,
  NbStaticRoute, Row,
}

-- The separator is the character 0x1f.
abbrev pub separator : String
separator = "\u{1f}"

-- `contentKey`
unfoldable pub content_key : List String → String
unfolding join
content_key parts = join separator parts

-- `sortedJoin`
unfoldable pub sorted_join : List String → String
unfolding join sort_strings
sorted_join values = join "," (sort_strings values)

unfoldable pub key_of_sb_port_binding : SbPortBinding → String
unfolding content_key sorted_join
key_of_sb_port_binding p =
    content_key (p.uuid ∷ p.type ∷ or_empty p.chassis ∷ sorted_join p.nat_addresses ∷ [])

unfoldable pub key_of_sb_chassis : SbChassis → String
unfolding content_key
key_of_sb_chassis c = content_key (c.uuid ∷ c.hostname ∷ [])

unfoldable pub key_of_nb_logical_router : NbLogicalRouter → String
unfolding content_key sorted_join
key_of_nb_logical_router r =
    content_key
      (r.uuid ∷ sorted_join r.ports ∷ sorted_join r.nat ∷ sorted_join r.static_routes ∷ [])

unfoldable pub key_of_nb_logical_router_port : NbLogicalRouterPort → String
unfolding content_key sorted_join
key_of_nb_logical_router_port p = content_key (p.uuid ∷ p.mac ∷ sorted_join p.networks ∷ [])

unfoldable pub key_of_nb_nat : NbNat → String
unfolding content_key
key_of_nb_nat n = content_key (n.uuid ∷ n.type ∷ n.external_ip ∷ [])

-- `fmt.Sprintf("%v", m)`, which sorts the keys.
format_entries : List (String × String) → List String → List String
unfolding lookup
format_entries m [] = []
format_entries m (k ∷ ks) = (k +++ (":" +++ or_empty (lookup k m))) ∷ format_entries m ks

format_map : List (String × String) → String
unfolding format_entries join sort_strings
format_map m = "map[" +++ (join " " (format_entries m (sort_strings (keys m))) +++ "]")

unfoldable pub key_of_nb_static_route : NbStaticRoute → String
unfolding content_key format_map
key_of_nb_static_route r =
    content_key
      (r.uuid ∷ r.ip_prefix ∷ r.nexthop ∷ or_empty r.output_port ∷ format_map r.external_ids ∷ [])

unfoldable pub key_of_nb_static_mac_binding : NbStaticMacBinding → String
unfolding content_key
key_of_nb_static_mac_binding b = content_key (b.uuid ∷ b.logical_port ∷ b.ip ∷ b.mac ∷ [])

all_in : List String → List String → Bool
unfolding elem
all_in [] b = true
all_in (k ∷ a) b = elem k b && all_in a b

-- `keySetsEqual`, over sets given by their keys.
unfoldable pub key_sets_equal : List String → List String → Bool
unfolding all_in
key_sets_equal a b = eqb (length a) (length b) && all_in a b

-- `directSelect`: none where the transaction or an operation failed, else the results.
unfoldable pub direct_select : Option (List (List Row)) → Option (List Row)
direct_select none = none
direct_select (some []) = some []
direct_select (some (rows ∷ more)) = some rows

module _ {ℓ} {T : Type ℓ} (key_of : T → String) (decode : Row → T) where
  -- `serverKeySet`
  unfoldable pub server_key_set : List Row → List String
  unfolding set_of
  server_key_set rows = set_of (map (λ row. key_of (decode row)) rows)

  -- `authoritativeList`, from the cached rows, the select of the checked columns and the full
  -- select. The second select is made only where the keys differ.
  unfoldable pub authoritative_list :
      List T → Option (List (List Row)) → Option (List (List Row)) → List T
  authoritative_list cached check full = elim (direct_select check) [
    | none ↦ cached
    | some rows ↦
        if key_sets_equal (set_of (map key_of cached)) (server_key_set rows)
        then cached
        else elim (direct_select full) [ none ↦ cached | some all ↦ map decode all ]
  ]

  -- `cachedList`
  unfoldable pub cached_list :
      Option (List T) → Option (List (List Row)) → Option (List (List Row)) → Option (List T)
  unfolding authoritative_list
  cached_list none check full = none
  cached_list (some cached) check full = some (authoritative_list cached check full)
