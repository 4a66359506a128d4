-- ===== src/Nft/Sources.antt =====
-- The rule set does not depend on the order of the SNAT addresses.
use ovn_route_agent.Base.{
  ℤ, String, List, ◌≡◌, refl, sym, ◌∙◌, elem, sort_strings, sort_strings-IsSorted,
  elem-sort_strings, compact-Sorted, elem-compact, sorted_unique,
}
use ovn_route_agent.Net.{IpNet}
use ovn_route_agent.Config.{PortForwardVip}
use ovn_route_agent.Nft.Chains.{snat_rules, nft_chains, build_nft_ruleset}
use ovn_route_agent.Nft.Masquerade.{router_sources}

router_sources-eq :
    (xs ys : List String)
    → ((k : String) → elem k xs ≡ elem k ys)
    → router_sources xs ≡ router_sources ys
router_sources-eq xs ys same =
    let (sorted, distinct) = compact-Sorted (sort_strings xs) (sort_strings-IsSorted xs) in
    let (sorted', distinct') = compact-Sorted (sort_strings ys) (sort_strings-IsSorted ys) in
    sorted_unique (router_sources xs) (router_sources ys) sorted sorted' distinct distinct' λ k.
      elem-compact k (sort_strings xs)
      ∙ elem-sort_strings k xs
      ∙ same k
      ∙ sym (elem-compact k (sort_strings ys) ∙ elem-sort_strings k ys)

-- The text of the rule set depends on the SNAT addresses as a set only: lists with the same members,
-- in any order and with repetitions, give the same text.
pub build_nft_ruleset-same_sources :
    (forwards : List PortForwardVip) (networks : List IpNet) (xs ys : List String) (zone : ℤ)
    → ((k : String) → elem k xs ≡ elem k ys)
    → build_nft_ruleset forwards networks xs zone ≡ build_nft_ruleset forwards networks ys zone
unfolding build_nft_ruleset nft_chains snat_rules
build_nft_ruleset-same_sources forwards networks xs ys zone same =
    rw (router_sources-eq xs ys same) refl
