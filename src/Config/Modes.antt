-- ===== src/Config/Modes.antt =====
-- The operating modes that `validateMode` derives, against the table in its comment.
use ovn_route_agent.Base.{
  ℕ, ◌+◌, Bool, true, false, not, ◌≡◌, ◌≢◌, ◌↔◌, ◌⊎◌, refl, List, [], ◌∷◌, arith, eq_iff, is_empty,
  ok, All,
}
use ovn_route_agent.Config.Defs.{Config, PortForwardVip}
use ovn_route_agent.Config.Mode.{check_masquerade, validate_mode}

-- What port-forward-only mode asks of a VIP.
abbrev pub Standalone : Bool → PortForwardVip → Type 0
Standalone has_cidr pf =
    (pf.router_masquerade ≡ false) × (pf.hairpin_masquerade ≡ true → has_cidr ≡ true)

check_masquerade-Standalone :
    (has_cidr : Bool) (i : ℕ) (pfs : List PortForwardVip)
    → check_masquerade has_cidr i pfs ≡ ok tt
    → All (Standalone has_cidr) pfs
unfolding check_masquerade
check_masquerade-Standalone has_cidr i [] h = tt
check_masquerade-Standalone has_cidr i (pf ∷ pfs) h = (
  (ground arith, λ on. ground arith),
  check_masquerade-Standalone has_cidr (i + 1) pfs (ground arith),
)

check_masquerade_total :
    (has_cidr : Bool) (i : ℕ) (pfs : List PortForwardVip)
    → All (Standalone has_cidr) pfs
    → check_masquerade has_cidr i pfs ≡ ok tt
unfolding check_masquerade
check_masquerade_total has_cidr i [] h = refl
check_masquerade_total has_cidr i (pf ∷ pfs) h =
    ground (arith, check_masquerade_total has_cidr (i + 1) pfs h.1)

abbrev pub FullMode : Config → Config → Type 0
FullMode cfg c =
    (cfg.ovn_sb_remote ≢ "")
    × (cfg.ovn_nb_remote ≢ "")
    × (c ≡ record cfg { port_forward_only = false })

abbrev pub ForwardOnlyMode : Config → Config → Type 0
ForwardOnlyMode cfg c =
    (cfg.ovn_sb_remote ≡ "")
    × (cfg.ovn_nb_remote ≡ "")
    × (cfg.port_forwards ≢ [])
    × All (Standalone (not (is_empty cfg.network_cidrs))) cfg.port_forwards
    × (c ≡ record cfg { port_forward_only = true })

module _ (cfg c : Config) where
  mode_of_ok : validate_mode cfg ≡ ok c → FullMode cfg c ⊎ ForwardOnlyMode cfg c
  unfolding validate_mode
  mode_of_ok h = ground (
    arith,
    eq_iff cfg.ovn_sb_remote "",
    eq_iff cfg.ovn_nb_remote "",
    check_masquerade-Standalone (not (is_empty cfg.network_cidrs)) 0 cfg.port_forwards,
  )

  ok_of_mode : FullMode cfg c ⊎ ForwardOnlyMode cfg c → validate_mode cfg ≡ ok c
  unfolding validate_mode
  ok_of_mode h = ground (
    arith,
    eq_iff cfg.ovn_sb_remote "",
    eq_iff cfg.ovn_nb_remote "",
    check_masquerade_total (not (is_empty cfg.network_cidrs)) 0 cfg.port_forwards,
  )

-- `validateMode` succeeds exactly in two cases, and then only sets the flag: with both remotes set
-- it turns port-forward-only mode off; with both empty, some VIP configured, no router masquerade
-- and no hairpin masquerade without a CIDR, it turns that mode on.
pub validate_mode_iff :
    (cfg c : Config) → (validate_mode cfg ≡ ok c) ↔ (FullMode cfg c ⊎ ForwardOnlyMode cfg c)
validate_mode_iff cfg c = (mode_of_ok cfg c, ok_of_mode cfg c)
