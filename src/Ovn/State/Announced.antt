-- ===== src/Ovn/State/Announced.antt =====
-- The addresses that a refresh announces, from the rows that it read.
use ovn_route_agent.Base.{String, Bool, ◌≡◌, ◌⊎◌, none, [], arith, any, keys}
use ovn_route_agent.Config.{Config}
use ovn_route_agent.Ovn.Cache.{cached_list}
use ovn_route_agent.Ovn.State.Routers.{lrp_uuids, lrp_macs, lrp_by_uuid, local_lrp_uuids}
use ovn_route_agent.Ovn.State.Refresh.{
  OvnState, Reads, Tables, active_lrps, read_table, read_tables, refresh_state,
}
use ovn_route_agent.Ovn.State.Owners.{owns}
use ovn_route_agent.Ovn.State.Collected.{gives, gives_any, offers, offers_with_mac}

module _ (cfg : Config) (here : String) (t : Tables) where
  -- The NAT entry belongs to a router with a port that is active here and has a MAC.
  abbrev pub owned_here : String → Bool
  owned_here uuid =
      any
        (owns (active_lrps cfg here t)
          (local_lrp_uuids (keys (active_lrps cfg here t)) (lrp_uuids t.router_ports []))
          (lrp_by_uuid t.router_ports []) uuid)
        t.routers

  abbrev pub nat_gives : (type ip : String) → Bool
  nat_gives type ip = any (gives ip type owned_here) t.nats

  abbrev pub nat_gives_any : String → Bool
  nat_gives_any ip = any (gives_any ip owned_here) t.nats

  -- A patch port of an active gateway gives the address, and its router port has a MAC.
  abbrev pub patch_gives_with_mac : String → Bool
  patch_gives_with_mac ip =
      any (offers_with_mac ip (active_lrps cfg here t) (lrp_macs t.router_ports [])) t.port_bindings

  abbrev pub patch_gives : String → Bool
  patch_gives ip = any (offers ip (active_lrps cfg here t)) t.port_bindings

-- Where the cache of one of the five tables cannot be listed, a refresh leaves the state as it is.
pub refresh_state_failed :
    (cfg : Config) (reads : Reads) (state : OvnState)
    → (reads.port_bindings.cached ≡ none)
      ⊎ (reads.chassis.cached ≡ none)
      ⊎ (reads.router_ports.cached ≡ none)
      ⊎ (reads.routers.cached ≡ none)
      ⊎ (reads.nats.cached ≡ none)
    → refresh_state cfg reads state ≡ state
unfolding refresh_state read_tables read_table cached_list
refresh_state_failed cfg reads state h = ground arith
