-- ===== src/Routing/Listing.antt =====
-- The readers of vtysh's output in routing.go: `ListFRRRoutes`, `HasFRRRoute`, `InactiveFRRRoutes`.
use Prim.Native.String.{◌++◌ as ◌+++◌}
use text.Mathlib.Text.{starts_with}
use ovn_route_agent.Base.{
  String, Bool, true, false, not, ◌&&◌, ◌||◌, ◌≡◌, refl, ◌∙◌, Option, none, some, List, [], ◌∷◌,
  ◌==◌, eqb, any, elem, elem-filter, elem-sort_strings, IsSorted, sort_strings-IsSorted, filter,
  find, lookup, is_empty, sort_strings, contains_text, trim_space, split_by, fields, if◌then◌else◌,
}
use ovn_route_agent.Net.{Ip, IpNet, parse_cidr, ip_text}
use ovn_route_agent.Routing.Defs.{validate_ip}

abbrev cons_address : Option (Ip × IpNet) → List String → List String
cons_address none ips = ips
cons_address (some (ip, net)) ips = ip_text ip ∷ ips

abbrev cons_field : Option String → List String → List String
cons_field none ips = ips
cons_field (some text) ips = cons_address (parse_cidr text) ips

-- A line of a static route gives the address of its first field with `/32`.
unfoldable pub route_lines : List String → List String
unfolding trim_space fields find contains_text parse_cidr ip_text
route_lines [] = []
route_lines (line ∷ lines) =
    let rest = route_lines lines in
    if starts_with (trim_space line) "S" && contains_text (trim_space line) "/32"
    then cons_field (find (λ f. contains_text f "/32") (fields (trim_space line))) rest
    else rest

-- `ListFRRRoutes` on the output of vtysh, none where it fails.
unfoldable pub list_frr_routes : (dry_run : Bool) → Option String → Option (List String)
unfolding route_lines split_by
list_frr_routes true output = some []
list_frr_routes false none = none
list_frr_routes false (some text) = some (route_lines (split_by (λ c. eqb c b'\n') text))

-- `HasFRRRoute`
unfoldable pub has_frr_route : (ip : String) → Option String → Bool
unfolding validate_ip contains_text
has_frr_route ip none = false
has_frr_route ip (some text) = validate_ip ip && contains_text text "static"

-- `frrRouteEntry`
pub record FrrRouteEntry : Type 0 where
  pub selected : Bool
  pub installed : Bool

abbrev pub is_active : FrrRouteEntry → Bool
is_active e = e.selected && e.installed

abbrev pub configured_inactive : Option (List FrrRouteEntry) → Bool
configured_inactive none = false
configured_inactive (some entries) = not (any is_active entries)

unfoldable pub inactive_among : List (String × List FrrRouteEntry) → List String → List String
unfolding filter lookup any
inactive_among routes = filter (λ ip. configured_inactive (lookup (ip +++ "/32") routes))

abbrev sorted_inactive :
    List String → Option (List (String × List FrrRouteEntry)) → Option (List String)
sorted_inactive ips none = none
sorted_inactive ips (some routes) = some (sort_strings (inactive_among routes ips))

-- `InactiveFRRRoutes` on the output of vtysh, none where it fails; `json.Unmarshal` is the argument
-- `unmarshal`.
unfoldable pub inactive_frr_routes :
    (unmarshal : String → Option (List (String × List FrrRouteEntry)))
    → (dry_run : Bool) → List String
    → Option String
    → Option (List String)
unfolding inactive_among sort_strings trim_space
inactive_frr_routes unmarshal dry_run ips output =
    if dry_run || is_empty ips then some [] else elim output [
      | none ↦ none
      | some text ↦
          if trim_space text == ""
          then some []
          else sorted_inactive ips (unmarshal (trim_space text))
    ]

-- Outside dry-run mode and on an output that is not blank, `InactiveFRRRoutes` gives a sorted list,
-- of exactly the asked addresses that have entries of which none is selected and installed.
pub inactive_frr_routes-elem :
    (unmarshal : String → Option (List (String × List FrrRouteEntry))) (ip : String)
    (ips : List String) (text : String) (routes : List (String × List FrrRouteEntry))
    → (trim_space text == "") ≡ false
    → unmarshal (trim_space text) ≡ some routes
    → (inactive : List String) × (inactive_frr_routes unmarshal false (ip ∷ ips) (some text)
        ≡ some inactive)
      × IsSorted inactive
      × ((a : String)
          → elem a inactive
            ≡ (configured_inactive (lookup (a +++ "/32") routes) && elem a (ip ∷ ips)))
unfolding inactive_frr_routes inactive_among
inactive_frr_routes-elem unmarshal ip ips text routes filled read =
    let among = inactive_among routes (ip ∷ ips) in
    (
      sort_strings among,
      rw (filled, read) refl,
      sort_strings-IsSorted among,
      λ a.
          elem-sort_strings a among
          ∙ elem-filter a (λ x. configured_inactive (lookup (x +++ "/32") routes)) (ip ∷ ips),
    )
