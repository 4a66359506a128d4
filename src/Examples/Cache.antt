-- ===== src/Examples/Cache.antt =====
-- Sample keys and rows of the monitor cache.
use ovn_route_agent.Base.{String, ◌≡◌, refl, some, List, [], ◌∷◌, elem, map}
use ovn_route_agent.Ovn.Rows.{text, uuid, atom, Row, decode_nb_nat}
use ovn_route_agent.Ovn.Cache.{key_of_nb_nat, authoritative_list, direct_select}
use ovn_route_agent.Ovn.Cache.Keys.{separator_free, content_key_injective}
use ovn_route_agent.Ovn.Cache.Sync.{authoritative_list-keys}

abbrev parts : List String
parts = "router" ∷ []

content_key_injective_example : ◌≡◌ {A = List String} ("id" ∷ parts) ("id" ∷ parts)
unfolding separator_free
content_key_injective_example =
    content_key_injective "id" "id" parts parts (refl, (refl, tt)) (refl, (refl, tt)) refl

abbrev nat_row : Row
nat_row =
    ("_uuid", atom (uuid "n1"))
    ∷ ("type", atom (text "dnat_and_snat"))
    ∷ ("external_ip", atom (text "192.0.2.7"))
    ∷ []

abbrev rows : List Row
rows = nat_row ∷ []

abbrev key : String
key = key_of_nb_nat (decode_nb_nat nat_row)

authoritative_list-keys_example :
    elem key (
      map key_of_nb_nat
        (authoritative_list key_of_nb_nat decode_nb_nat [] (some (rows ∷ [])) (some (rows ∷ []))))
    ≡ elem key (map key_of_nb_nat (map decode_nb_nat rows))
unfolding direct_select
authoritative_list-keys_example =
    authoritative_list-keys key_of_nb_nat decode_nb_nat [] (some (rows ∷ [])) (some (rows ∷ []))
      rows rows refl refl (λ k. refl) key
