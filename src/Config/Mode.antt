-- ===== src/Config/Mode.antt =====
-- `validateMode` of config.go.
use ovn_route_agent.Base.{
  ℕ, ◌+◌, Bool, true, false, not, ◌&&◌, List, [], ◌∷◌, ◌==◌, is_empty, Result, ok, err, reject,
  ◌>>◌, if◌then◌else◌,
}
use ovn_route_agent.Config.Defs.{
  Config, PortForwardVip, ConfigError, nothing_to_do, incomplete_ovn, router_masquerade_needs_ovn,
  hairpin_masquerade_needs_cidr,
}

-- The loop over the VIPs in port-forward-only mode; `has_cidr` is `len(cfg.NetworkCIDRs) > 0`.
unfoldable pub check_masquerade : Bool → ℕ → List PortForwardVip → Result ConfigError (Unit {0})
check_masquerade has_cidr i [] = ok tt
check_masquerade has_cidr i (pf ∷ pfs) =
    let rest = check_masquerade has_cidr (i + 1) pfs in
    do
      reject pf.router_masquerade (router_masquerade_needs_ovn i)
      reject (pf.hairpin_masquerade && not has_cidr) (hairpin_masquerade_needs_cidr i)
      rest

unfoldable pub validate_mode : Config → Result ConfigError Config
validate_mode cfg =
    let sb_set = not (cfg.ovn_sb_remote == "") in
    let nb_set = not (cfg.ovn_nb_remote == "") in
    let forward_only : Result ConfigError Config = (do
      reject (is_empty cfg.port_forwards) nothing_to_do
      check_masquerade (not (is_empty cfg.network_cidrs)) 0 cfg.port_forwards
      ok (record cfg { port_forward_only = true })) in
    if sb_set && nb_set
    then ok (record cfg { port_forward_only = false })
    else if not sb_set && not nb_set
    then forward_only
    else err incomplete_ovn
