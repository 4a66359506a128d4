-- ===== src/Ovn/Rows.antt =====
-- The row types of ovn.go, with the columns that the agent reads or writes, and the raw rows of
-- libovsdb that ovn_cache.go decodes. Optional columns (`*string`) are options.
use ovn_route_agent.Base.{ℤ, pos, String, Option, none, some, List, [], ◌∷◌, ◌==◌, if◌then◌else◌}

pub record SbPortBinding : Type 0 where
  pub uuid : String
  pub logical_port : String
  pub type : String
  pub chassis : Option String
  pub options : List (String × String)
  pub nat_addresses : List String
  pub external_ids : List (String × String)

pub record SbChassis : Type 0 where
  pub uuid : String
  pub name : String
  pub hostname : String

pub record NbNat : Type 0 where
  pub uuid : String
  pub type : String
  pub external_ip : String

pub record NbLogicalRouter : Type 0 where
  pub uuid : String
  pub name : String
  pub ports : List String
  pub nat : List String
  pub static_routes : List String

pub record NbLogicalRouterPort : Type 0 where
  pub uuid : String
  pub name : String
  pub mac : String
  pub networks : List String

pub record NbStaticRoute : Type 0 where
  pub uuid : String
  pub ip_prefix : String
  pub nexthop : String
  pub output_port : Option String
  pub external_ids : List (String × String)

pub record NbStaticMacBinding : Type 0 where
  pub uuid : String
  pub logical_port : String
  pub ip : String
  pub mac : String

pub record NbGatewayChassis : Type 0 where
  pub uuid : String
  pub chassis_name : String
  pub name : String
  pub priority : ℤ

-- An element of an OVSDB set or map, and a column: the dynamic types that the decoders tell apart.
-- A number is what `int(p)` makes of it.
pub data Atom : Type 0 where
  text uuid : String → Atom
  other : Atom

pub data Column : Type 0 where
  atom : Atom → Column
  number : ℤ → Column
  set : List Atom → Column
  dict : List (Atom × Atom) → Column

abbrev pub Row : Type 0
Row = List (String × Column)

-- The columns of a row by name, and the helpers `rowString` to `rowStringMap`.
unfoldable pub column : Row → String → Option Column
column [] name = none
column ((n, v) ∷ r) name = if n == name then some v else column r name

unfoldable pub row_uuid : Row → String
unfolding column
row_uuid r = elim (column r "_uuid") [ some (atom (uuid u)) ↦ u | _ ↦ "" ]

unfoldable pub row_string : Row → String → String
unfolding column
row_string r name = elim (column r name) [ some (atom (text s)) ↦ s | _ ↦ "" ]

unfoldable pub atom_texts : List Atom → List String
atom_texts [] = []
atom_texts (text s ∷ as') = s ∷ atom_texts as'
atom_texts (uuid u ∷ as') = u ∷ atom_texts as'
atom_texts (other ∷ as') = atom_texts as'

-- `ovsSetToStrings`: a set of one element may be the bare element.
unfoldable pub set_to_strings : Option Column → List String
unfolding atom_texts
set_to_strings (some (atom (text s))) = s ∷ []
set_to_strings (some (atom (uuid u))) = u ∷ []
set_to_strings (some (set as')) = atom_texts as'
set_to_strings _ = []

unfoldable pub row_string_set : Row → String → List String
unfolding column set_to_strings
row_string_set r name = set_to_strings (column r name)

abbrev first_text : List String → Option String
first_text [] = none
first_text (s ∷ ss) = some s

unfoldable pub row_opt_string : Row → String → Option String
unfolding column atom_texts
row_opt_string r name = elim (column r name) [
  | some (atom (text s)) ↦ some s
  | some (atom (uuid u)) ↦ some u
  | some (set as') ↦ first_text (atom_texts as')
  | _ ↦ none
]

string_pairs : List (Atom × Atom) → List (String × String)
string_pairs [] = []
string_pairs ((text k, text v) ∷ m) = (k, v) ∷ string_pairs m
string_pairs ((k, v) ∷ m) = string_pairs m

unfoldable pub row_string_map : Row → String → List (String × String)
unfolding column string_pairs
row_string_map r name = elim (column r name) [ some (dict m) ↦ string_pairs m | _ ↦ [] ]

unfoldable pub decode_sb_port_binding : Row → SbPortBinding
unfolding row_uuid row_string row_opt_string row_string_map row_string_set
decode_sb_port_binding r = record {
  uuid = row_uuid r;
  logical_port = row_string r "logical_port";
  type = row_string r "type";
  chassis = row_opt_string r "chassis";
  options = row_string_map r "options";
  nat_addresses = row_string_set r "nat_addresses";
  external_ids = row_string_map r "external_ids";
}

unfoldable pub decode_sb_chassis : Row → SbChassis
unfolding row_uuid row_string
decode_sb_chassis r = record {
  uuid = row_uuid r;
  name = row_string r "name";
  hostname = row_string r "hostname";
}

unfoldable pub decode_nb_nat : Row → NbNat
unfolding row_uuid row_string
decode_nb_nat r = record {
  uuid = row_uuid r;
  type = row_string r "type";
  external_ip = row_string r "external_ip";
}

unfoldable pub decode_nb_logical_router : Row → NbLogicalRouter
unfolding row_uuid row_string row_string_set
decode_nb_logical_router r = record {
  uuid = row_uuid r;
  name = row_string r "name";
  ports = row_string_set r "ports";
  nat = row_string_set r "nat";
  static_routes = row_string_set r "static_routes";
}

unfoldable pub decode_nb_logical_router_port : Row → NbLogicalRouterPort
unfolding row_uuid row_string row_string_set
decode_nb_logical_router_port r = record {
  uuid = row_uuid r;
  name = row_string r "name";
  mac = row_string r "mac";
  networks = row_string_set r "networks";
}

unfoldable pub decode_nb_static_route : Row → NbStaticRoute
unfolding row_uuid row_string row_opt_string row_string_map
decode_nb_static_route r = record {
  uuid = row_uuid r;
  ip_prefix = row_string r "ip_prefix";
  nexthop = row_string r "nexthop";
  output_port = row_opt_string r "output_port";
  external_ids = row_string_map r "external_ids";
}

unfoldable pub decode_nb_static_mac_binding : Row → NbStaticMacBinding
unfolding row_uuid row_string
decode_nb_static_mac_binding r = record {
  uuid = row_uuid r;
  logical_port = row_string r "logical_port";
  ip = row_string r "ip";
  mac = row_string r "mac";
}

-- `rowToGatewayChassis` of ovn_gateway.go
unfoldable pub row_to_gateway_chassis : Row → NbGatewayChassis
unfolding row_uuid row_string column
row_to_gateway_chassis r = record {
  uuid = row_uuid r;
  chassis_name = row_string r "chassis_name";
  name = row_string r "name";
  priority = elim (column r "priority") [ some (number p) ↦ p | _ ↦ pos 0 ];
}
