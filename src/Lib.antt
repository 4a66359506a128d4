-- ===== src/Lib.antt =====
-- A model of the OVN network agent, a daemon that keeps the routes of floating IPs in step with
-- OVN. On each gateway node it reads the OVN databases, routes the addresses of the gateways that
-- are active there to the provider bridge, announces them through FRR, and keeps the priorities of
-- the gateways so that they do not flap.
--
-- The parts and the files that model them:
-- - Config: config.go. `loadConfig` lays defaults, file, environment and flags over one another
--   (Config/Layers), `validateConfig` checks and completes the result (Config/Validate), and
--   `validateMode` derives the mode, full or port forwarding only (Config/Mode). Errors are values,
--   one constructor for each message; the loops over VIPs, rules and backends carry the set of what
--   they have seen. The YAML decoder and the flag parser are left out: `FileConfig` and `Flags` are
--   what they return.
-- - Net: the part of Go's package `net` that the agent calls. An address is a number, and a network
--   is its masked address with the two results of `Mask.Size`.
-- - Ovn.Rows, Ovn.Cache: the row types of ovn.go and the consistency guard of ovn_cache.go, which
--   compares the cached rows with a direct select by content keys and decodes raw rows. A select is
--   an argument, none where it fails. Go's maps from strings are association lists, and sets are
--   lists of keys.
-- - Ovn.Gateway: the writers of ovn_gateway.go. An operation of libovsdb is a constructor of `Op`,
--   and a writer returns its result with the transactions sent so far; the `Database` argument
--   answers each transaction by those before it. `Lead` is `EnsureActivePriorityLead`, `Drain` is
--   `DrainGateways` with its poll loop, and `RestoreDrainedGateways`. `Routing` is
--   `EnsureGatewayRouting`, whose cached tables are answered by the transactions sent before, and
--   `Managed` is `RemoveManagedNBEntries`, `ListManagedRouteChassis` and
--   `CleanupStaleChassisManagedEntries`.
-- - Ovn.State: `refreshState` of ovn.go. Steps 1 to 3 (Routers) find the ports and routers that are
--   active here, step 4 (Nets) their networks, steps 5 and 5b (Nats) the addresses to announce, and
--   Refresh puts them together behind the five listings, of which the first that fails ends it.
-- - Ovn.Events: the event handlers, the refresh loop and the end of `Connect`, of ovn.go. `Client`
--   holds the two signals, which are full or empty, and the two timers, which are set or not; each
--   arm of the loop's select is a function on it. Schedule lets changes, handlers and rounds of the
--   loop follow one another in any order, where libovsdb calls a handler once for each change, and a
--   refresh of the loop may fail to list its tables.
-- - Agent: the routes of agent.go. `ensureRoutes`, `verifyRoutes` and `removeAllRoutes` return the
--   calls that they make to the route manager, the last one first; the `Host` argument answers the
--   two listings by the calls before them. `Replay` gives the calls a meaning on the sets of routes.
--   `Cycle` is `Run` with `reconcile` and `cleanup`, as the calls to the other parts in their order;
--   which step of the start fails and what the cycles find are arguments.
--   `Stale` is `cleanupStaleChassis` with the tracker of missing chassis; times are numbers, and the
--   cleanup of the NB database is an argument, which Spared fills with the writer of Ovn.Gateway.
-- - Routing: routing.go. Defs and Batches are `AddFRRRoutes` and `DelFRRRoutes`, down to the
--   arguments of vtysh, whose success is an argument; Listing reads the output of vtysh, and Prefixes
--   is `ListFRRPrefixListEntries` and `ReconcileFRRPrefixList`. `json.Unmarshal` and `strconv.Atoi`
--   are arguments.
-- - Ovs: ovs.go. A command of the switch is the list of its words, and an argument answers each
--   command by those before it; the cached port and MAC are passed on as state.
-- - Nft: `buildNftRuleset` of nftables.go. A line of the rule set is a constructor of `Rule`, one
--   for each format of the source; Chains puts the rules into chains, and Rules prints them.
-- - Linux: routing_linux.go and nftables_linux.go. A method returns its result with the log of the
--   changes that it makes in the kernel, in `nft` and in the files of `sysctl`, each with its
--   outcome, the last one first; the `Kernel` argument answers each call by the log before it.
--   Host is the bridge and the routes to single addresses, Pair and Leak are the veth pair between
--   the VRFs with its networks, and Forward is the port forwarding, which loads the text of Nft.
-- - Base: shared names, lists, maps, texts, integers and results. Examples: concrete inputs.
--
-- Loops are structural recursion on the lists that they range over, or run on fuel: the loop over
-- batches on the number of its addresses, of which each round takes one at least. The poll loop of
-- the drain runs on the list of the polls that the deadline of its context allows, so that it
-- needs no fuel. Go's integers are unbounded here, except in addresses, whose wrap-around is
-- written out: no other arithmetic of the modelled code comes near its bounds. Where Go ranges
-- over a map, the model takes the order of the association list.
--
-- Not modelled: the set-up of the connections and the end of the refresh loop (ovn.go), the
-- signals and the ticker that start a cycle (agent.go), logging, metrics and the process set-up,
-- and the tools that generate the documents. `strings.EqualFold`, `time.ParseDuration` and
-- `fmt.Sscanf` are arguments.
pub mod Agent
pub mod Base
pub mod Config
pub mod Examples
pub mod Linux
pub mod Net
pub mod Nft
pub mod Ovn
pub mod Ovs
pub mod Routing
