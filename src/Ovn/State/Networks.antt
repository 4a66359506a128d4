-- ===== src/Ovn/State/Networks.antt =====
-- What `uniqueNetworks` keeps, and in which order.
use ovn_route_agent.Base.{
  String, Bool, true, false, not, ◌&&◌, ◌≡◌, refl, ap, ◌∙◌, List, [], ◌∷◌, if◌then◌else◌, arith,
  eq_iff, map, elem, elem-add, add, str_le, insert_sorted, sort_strings, elem-sort_strings,
  IsSorted, sort_strings-IsSorted, Distinct, elem-insert_sorted, Bool-cases, inl, inr,
}
use ovn_route_agent.Net.{IpNet, net_text}
use ovn_route_agent.Ovn.State.Nets.{
  distinct_networks, insert_network, sort_networks, unique_networks,
}

abbrev pub texts : List IpNet → List String
texts nets = map net_text nets

insert_network-texts :
    (n : IpNet) (ns : List IpNet)
    → texts (insert_network n ns) ≡ insert_sorted (net_text n) (texts ns)
unfolding insert_network insert_sorted
insert_network-texts n [] = refl
insert_network-texts n (m ∷ ms) = elim (Bool-cases (str_le (net_text n) (net_text m))) [
  | inl e ↦ rw e refl
  | inr e ↦ rw e (ap (λ ts. net_text m ∷ ts) (insert_network-texts n ms))
]

-- Networks are sorted as their texts are.
sort_networks-texts : (ns : List IpNet) → texts (sort_networks ns) ≡ sort_strings (texts ns)
unfolding sort_networks sort_strings
sort_networks-texts [] = refl
sort_networks-texts (n ∷ ns) =
    insert_network-texts n (sort_networks ns)
    ∙ ap (insert_sorted (net_text n)) (sort_networks-texts ns)

elem-distinct_networks :
    (k : String) (seen : List String) (ns : List IpNet)
    → elem k (texts (distinct_networks seen ns)) ≡ (elem k (texts ns) && not (elem k seen))
unfolding distinct_networks elem
elem-distinct_networks k seen [] = refl
elem-distinct_networks k seen (n ∷ ns) = ground (
  arith,
  eq_iff (net_text n) k,
  elem-add (net_text n) k seen,
  elem-distinct_networks k (add (net_text n) seen) ns,
)

if-Distinct :
    (b : Bool) (n : IpNet) (ns : List IpNet)
    → elem (net_text n) (texts ns) ≡ false
    → Distinct (texts ns)
    → Distinct (texts (if b then ns else n ∷ ns))
if-Distinct true n ns new d = d
if-Distinct false n ns new d = (new, d)

distinct_networks-Distinct :
    (seen : List String) (ns : List IpNet) → Distinct (texts (distinct_networks seen ns))
unfolding distinct_networks
distinct_networks-Distinct seen [] = tt
distinct_networks-Distinct seen (n ∷ ns) =
    let seen' = add (net_text n) seen in
    if-Distinct (elem (net_text n) seen) n (distinct_networks seen' ns)
      (elem-distinct_networks (net_text n) seen' ns
        ∙ ground (arith, elem-add (net_text n) (net_text n) seen, eq_iff (net_text n) (net_text n)))
      (distinct_networks-Distinct seen' ns)

insert_sorted-Distinct :
    (x : String) (ys : List String)
    → elem x ys ≡ false
    → Distinct ys
    → Distinct (insert_sorted x ys)
unfolding insert_sorted elem
insert_sorted-Distinct x [] new d = (refl, tt)
insert_sorted-Distinct x (y ∷ ys) new d = elim (Bool-cases (str_le x y)) [
  | inl e ↦ rw e (new, d)
  | inr e ↦ rw e (
    elem-insert_sorted y x ys ∙ ground (arith, eq_iff x y, eq_iff y x),
    insert_sorted-Distinct x ys (ground arith) d.1,
  )
]

sort_strings-Distinct : (xs : List String) → Distinct xs → Distinct (sort_strings xs)
unfolding sort_strings
sort_strings-Distinct [] d = tt
sort_strings-Distinct (x ∷ xs) d =
    insert_sorted-Distinct x (sort_strings xs) (elem-sort_strings x xs ∙ d.0)
      (sort_strings-Distinct xs d.1)

-- `uniqueNetworks` gives networks whose texts are sorted, stand once each, and are exactly the texts
-- of the given networks.
pub unique_networks-texts :
    (nets : List IpNet)
    → IsSorted (texts (unique_networks nets))
      × Distinct (texts (unique_networks nets))
      × ((k : String) → elem k (texts (unique_networks nets)) ≡ elem k (texts nets))
unfolding unique_networks elem
unique_networks-texts nets =
    let ns = distinct_networks [] nets in
    let sorted = sort_networks-texts ns in
    (
      rw sorted (sort_strings-IsSorted (texts ns)),
      rw sorted (sort_strings-Distinct (texts ns) (distinct_networks-Distinct [] nets)),
      λ k.
          ap (elem k) sorted
          ∙ elem-sort_strings k (texts ns)
          ∙ elem-distinct_networks k [] nets
          ∙ ground arith,
    )
