-- ===== src/Examples/Gateway.antt =====
-- Sample gateway chassis: `here` is active with priority 1 against a peer with 3.
use ovn_route_agent.Base.{
  ℤ, pos, String, Bool, true, ◌≡◌, refl, inl, inr, none, some, List, [], ◌∷◌, ◌==◌, map, any, In,
  elem, lookup, insert, strip_suffix, arith, filter,
}
use ovn_route_agent.Ovn.Rows.{NbGatewayChassis}
use ovn_route_agent.Ovn.Cache.{cached_list, authoritative_list, direct_select}
use ovn_route_agent.Ovn.Gateway.Defs.{
  LocalRouterInfo, set_priority, Database, transact_if_any, transact_ops, built,
}
use ovn_route_agent.Ovn.Gateway.Lead.{
  LeadReads, lead_rows, lrp_of, lrp_names, hosts_by_ref, bound_elsewhere, select_cr_port_chassis,
  lead_ops, ensure_active_priority_lead,
}
use ovn_route_agent.Ovn.Gateway.Leading.{Boosts, ensure_active_priority_lead-Boosts}
use ovn_route_agent.Ovn.Gateway.Complete.{lead_ops_complete}
use ovn_route_agent.Ovn.Gateway.Drain.{
  PollReads, drain_gateways, restore_drained_gateways, with_fallback, filter_drain_candidates,
  drain_rows, poll_drain, count_local_cr_ports, count_ports, count_if, counts,
}
use ovn_route_agent.Ovn.Gateway.Draining.{standby, drain_restore}
use ovn_route_agent.Ovn.Gateway.Written.{rows_after, written, write}
use ovn_route_agent.Ovn.Gateway.Migrated.{AllGone, drain_gateways-AllGone}

abbrev mine : NbGatewayChassis
mine = record { uuid = "u1"; chassis_name = "here"; name = "lrp_here"; priority = pos 1 }

abbrev peer : NbGatewayChassis
peer = record { uuid = "u2"; chassis_name = "there"; name = "lrp_there"; priority = pos 3 }

abbrev rows : List NbGatewayChassis
rows = mine ∷ peer ∷ []

abbrev router : LocalRouterInfo
router = record {
  router_name = "r";
  router_uuid = "r1";
  lrp_name = "lrp";
  lrp_uuid = "l1";
  lrp_mac = "";
  lrp_networks = [];
  cr_port = "cr-lrp";
}

abbrev reads : LeadReads
reads = record { cached = some rows; selected = none; chassis = none; port_bindings = none }

abbrev pub working : Database
working = record { builds = λ op. true; commits = λ sent ops. true }

ensure_active_priority_lead-Boosts_example :
    Boosts "here" reads
      (router ∷ [])
      rows
      []
      (ensure_active_priority_lead working reads (router ∷ []) "here" []).1
unfolding lead_rows any
ensure_active_priority_lead-Boosts_example =
    ensure_active_priority_lead-Boosts working reads (router ∷ []) "here" rows [] refl

lead_ops_complete_example :
    (p : ℤ) × In (set_priority mine p) (lead_ops "here" reads (router ∷ []) rows)
unfolding elem lrp_names lrp_of strip_suffix bound_elsewhere select_cr_port_chassis direct_select
    lookup
lead_ops_complete_example =
    lead_ops_complete "here" reads (router ∷ []) rows "lrp" mine peer refl refl (inl refl)
      (refl, refl) ((λ e. refl), ((λ e. cc), tt)) (inr (inl refl)) (refl, refl) (omega arith)
      (inl (omega arith))

abbrev same : String → String → Bool
same a b = a == b

abbrev empty_poll : PollReads
empty_poll = record {
  bindings = some [];
  bindings_check = none;
  bindings_full = none;
  chassis = some [];
  chassis_check = none;
  chassis_full = none;
}

-- The port of the gateway has moved to the peer.
abbrev moved_poll : PollReads
moved_poll = record empty_poll {
  bindings = some (
      record {
        uuid = "p1";
        logical_port = "cr-lrp";
        type = "chassisredirect";
        chassis = some "c2";
        options = [];
        nat_addresses = [];
        external_ids = [];
      }
      ∷ []);
  chassis = some (record { uuid = "c2"; name = "there"; hostname = "there" } ∷ []);
}

abbrev drained : List NbGatewayChassis
drained = record mine { priority = pos 0 } ∷ peer ∷ []

drain_restore_example :
    rows_after (restore_drained_gateways working (some drained) none "here" []).1 drained
    ≡ map (standby "here") rows
unfolding any rows_after written write drain_gateways with_fallback filter_drain_candidates filter
    drain_rows built transact_if_any transact_ops
drain_restore_example =
    drain_restore working same "" none none empty_poll [] "here" rows drained (λ op. refl)
      (((λ e. refl), ((λ e. cc), tt)), (((λ e. cc), ((λ e. refl), tt)), tt)) refl refl

drain_gateways-AllGone_example :
    (last : PollReads) × In last (moved_poll ∷ []) × AllGone same "" "here" last
unfolding any drain_gateways with_fallback filter_drain_candidates filter drain_rows built
    transact_if_any transact_ops poll_drain count_local_cr_ports count_ports count_if cached_list
    authoritative_list direct_select counts hosts_by_ref lookup insert
drain_gateways-AllGone_example =
    drain_gateways-AllGone same "" "here" working (some rows) none moved_poll [] [] refl
