-- ===== src/Ovs/Flows.antt =====
-- The commands of ovs.go and the texts of its flows.
use Prim.Native.String.{◌++◌ as ◌+++◌}
use ovn_route_agent.Base.{
  String, Bool, true, false, not, ◌||◌, Option, none, some, List, [], ◌∷◌, ◌++◌, ◌==◌, trim_space,
  fields, if◌then◌else◌,
}
use ovn_route_agent.Net.{Ip, parse_ip, is_v4}

-- The fields of `RouteManager` that ovs.go uses; the last three are its cache.
pub record Bridge : Type 0 where
  pub bridge_dev : String
  pub ovs_wrapper : List String
  pub dry_run : Bool
  pub cached_patch_port : String
  pub cached_ofport : String
  pub cached_bridge_mac : String

abbrev pub cookie_mac_tweak : String
cookie_mac_tweak = "0x999"

abbrev pub cookie_hairpin : String
cookie_hairpin = "0x998"

-- `MACTweakFlow`
unfoldable pub mac_tweak_flow : (cookie ofport mac : String) → (ipv6 : Bool) → String
mac_tweak_flow cookie ofport mac ipv6 =
    "cookie="
    +++ (cookie
        +++ (",priority=900,"
            +++ ((if ipv6 then "ipv6" else "ip")
                +++ (",in_port="
                    +++ (ofport +++ (",actions=mod_dl_dst:" +++ (mac +++ ",NORMAL")))))))

abbrev rewrite_text : (bridge_mac router_mac : String) → String
rewrite_text bridge_mac router_mac =
    ",actions=mod_dl_src:"
    +++ (bridge_mac +++ (",mod_dl_dst:" +++ (router_mac +++ ",output:in_port")))

-- `HairpinFlow`
unfoldable pub hairpin_flow :
    (cookie ofport ip bridge_mac router_mac : String) → (ipv6 : Bool) → String
hairpin_flow cookie ofport ip bridge_mac router_mac true =
    "cookie="
    +++ (cookie
        +++ (",priority=910,ipv6,in_port="
            +++ (ofport
                +++ (",ipv6_dst=" +++ (ip +++ ("/128" +++ rewrite_text bridge_mac router_mac))))))
hairpin_flow cookie ofport ip bridge_mac router_mac false =
    "cookie="
    +++ (cookie
        +++ (",priority=910,ip,in_port="
            +++ (ofport
                +++ (",ip_dst=" +++ (ip +++ ("/32" +++ rewrite_text bridge_mac router_mac))))))

-- `ovsCmd`: the words of the command.
unfoldable pub ovs_cmd : Bridge → (binary : String) → List String → List String
ovs_cmd b binary args = b.ovs_wrapper ++ (binary ∷ args)

-- The output of a command, none where it fails, given the commands before it, the last one first.
abbrev pub Ovs : Type 0
Ovs = List (List String) → List String → Option String

abbrev pub M : Type 0 → Type 0
M A = List (List String) → A × List (List String)

infixl 5 ◌>>=◌
abbrev pub ◌>>=◌ : {A B : Type 0} → M A → (A → M B) → M B
◌>>=◌ m f h = let (a, h') = m h in f a h'

abbrev pub pure : {A : Type 0} → A → M A
pure a h = (a, h)

-- `runOVS`
unfoldable pub run_ovs : Ovs → Bridge → (binary : String) → List String → M (Option String)
unfolding ovs_cmd
run_ovs ovs b binary args h = (ovs h (ovs_cmd b binary args), ovs_cmd b binary args ∷ h)

abbrev pub succeeded : Option String → Bool
succeeded none = false
succeeded (some out) = true

-- `addOVSFlow`, true where it returns no error
unfoldable pub add_ovs_flow : Ovs → Bridge → (flow : String) → M Bool
unfolding run_ovs
add_ovs_flow ovs b flow = do
  out ← run_ovs ovs b "ovs-ofctl" ("add-flow" ∷ b.bridge_dev ∷ flow ∷ [])
  pure (succeeded out)

unfoldable pub del_ovs_flows : Ovs → Bridge → (cookie : String) → M Bool
unfolding run_ovs
del_ovs_flows ovs b cookie = do
  out ←
      run_ovs ovs b "ovs-ofctl"
        ("del-flows" ∷ b.bridge_dev ∷ ("cookie=" +++ (cookie +++ "/-1")) ∷ [])
  pure (succeeded out)

abbrev ofport_of : Option String → Option String
ofport_of none = none
ofport_of (some out) =
    if trim_space out == "" || trim_space out == "-1" then none else some (trim_space out)

-- `getOFPort`
unfoldable pub get_ofport : Ovs → Bridge → (port : String) → M (Option String)
unfolding run_ovs trim_space
get_ofport ovs b port = do
  out ← run_ovs ovs b "ovs-vsctl" ("get" ∷ "Interface" ∷ port ∷ "ofport" ∷ [])
  pure (ofport_of out)

abbrev is_patch : Option String → Bool
is_patch none = false
is_patch (some out) = trim_space out == "patch"

-- The loop of `discoverPatchPort`
unfoldable pub first_patch_port : Ovs → Bridge → List String → M (Option String)
unfolding run_ovs trim_space
first_patch_port ovs b [] = pure none
first_patch_port ovs b (port ∷ ports) = do
  out ← run_ovs ovs b "ovs-vsctl" ("--if-exists" ∷ "get" ∷ "Interface" ∷ port ∷ "type" ∷ [])
  (if is_patch out then pure (some port) else first_patch_port ovs b ports)

abbrev ports_of : Option String → List String
ports_of none = []
ports_of (some out) = fields (trim_space out)

-- `discoverPatchPort`
unfoldable pub discover_patch_port : Ovs → Bridge → M (Option String)
unfolding run_ovs first_patch_port fields trim_space
discover_patch_port ovs b = do
  out ← run_ovs ovs b "ovs-vsctl" ("list-ports" ∷ b.bridge_dev ∷ [])
  first_patch_port ovs b (ports_of out)

abbrev is_current : Bridge → Option String → Bool
is_current b none = false
is_current b (some ofport) = ofport == b.cached_ofport

-- The result and the cache afterwards.
abbrev found_port : Bridge → (port : String) → (mac ofport : Option String) → Bool × Bridge
found_port b port mac none = (false, b)
found_port b port none (some ofport) = (false, b)
found_port b port (some mac) (some ofport) =
    (true, record b { cached_patch_port = port; cached_ofport = ofport; cached_bridge_mac = mac })

abbrev look_up : Ovs → Bridge → (mac : Option String) → Option String → M (Bool × Bridge)
look_up ovs b mac none = pure (false, b)
look_up ovs b mac (some port) = do
  ofport ← get_ofport ovs b port
  pure (found_port b port mac ofport)

unfoldable pub rediscover : Ovs → Bridge → (mac : Option String) → M (Bool × Bridge)
unfolding discover_patch_port get_ofport
rediscover ovs b mac = discover_patch_port ovs b >>= look_up ovs b mac

-- `refreshOVSDiscovery`; `mac` is what `GetBridgeMAC` returns, none where it fails.
unfoldable pub refresh_ovs_discovery : Ovs → Bridge → (mac : Option String) → M (Bool × Bridge)
unfolding get_ofport rediscover
refresh_ovs_discovery ovs b mac = if b.cached_patch_port == "" then rediscover ovs b mac else (do
  ofport ← get_ofport ovs b b.cached_patch_port
  (if is_current b ofport
      then pure (true, b)
      else rediscover ovs (record b { cached_patch_port = ""; cached_ofport = "" }) mac))

abbrev and_then : Bool → M Bool → M Bool
and_then true k h = k h
and_then false k h = (false, h)

abbrev tweak_flow : Bridge → (ipv6 : Bool) → String
tweak_flow b ipv6 = mac_tweak_flow cookie_mac_tweak b.cached_ofport b.cached_bridge_mac ipv6

-- The flows are replaced; a failed deletion is logged and passed over.
unfoldable pub replace_tweaks : Ovs → Bridge → M Bool
unfolding del_ovs_flows add_ovs_flow mac_tweak_flow
replace_tweaks ovs b = do
  deleted ← del_ovs_flows ovs b cookie_mac_tweak
  added ← add_ovs_flow ovs b (tweak_flow b false)
  and_then added (add_ovs_flow ovs b (tweak_flow b true))

abbrev tweak_where : Ovs → Bool × Bridge → M (Bool × Bridge)
tweak_where ovs (false, b) = pure (false, b)
tweak_where ovs (true, b) = do ok ← replace_tweaks ovs b; pure (ok, b)

-- `EnsureOVSFlows`
unfoldable pub ensure_ovs_flows : Ovs → Bridge → (mac : Option String) → M (Bool × Bridge)
unfolding refresh_ovs_discovery replace_tweaks
ensure_ovs_flows ovs b mac =
    if b.dry_run then pure (true, b) else refresh_ovs_discovery ovs b mac >>= tweak_where ovs

abbrev pub flow_for : Bridge → (ip router_mac : String) → Ip → String
flow_for b ip router_mac a =
    hairpin_flow cookie_hairpin b.cached_ofport ip b.cached_bridge_mac router_mac (not (is_v4 a))

abbrev pub add_hairpin : Ovs → Bridge → (ip router_mac : String) → Option Ip → M Bool
add_hairpin ovs b ip router_mac none = pure false
add_hairpin ovs b ip router_mac (some a) = add_ovs_flow ovs b (flow_for b ip router_mac a)

abbrev pub or_stop : M Bool → Bool → M Bool
or_stop k true h = k h
or_stop k false h = (false, h)

unfoldable pub add_hairpins : Ovs → Bridge → List (String × String) → M Bool
unfolding add_ovs_flow hairpin_flow parse_ip
add_hairpins ovs b [] = pure true
add_hairpins ovs b ((ip, mac) ∷ macs) =
    add_hairpin ovs b ip mac (parse_ip ip) >>= or_stop (add_hairpins ovs b macs)

-- `ReconcileOVSHairpinFlows`
unfoldable pub reconcile_ovs_hairpin_flows : Ovs → Bridge → List (String × String) → M Bool
unfolding del_ovs_flows add_hairpins
reconcile_ovs_hairpin_flows ovs b macs =
    if b.dry_run || b.cached_ofport == ""
    then pure true
    else del_ovs_flows ovs b cookie_hairpin >>= or_stop (add_hairpins ovs b macs)

-- `RemoveOVSFlows`
unfoldable pub remove_ovs_flows : Ovs → Bridge → M Bool
unfolding del_ovs_flows
remove_ovs_flows ovs b =
    if b.dry_run
    then pure true
    else del_ovs_flows ovs b cookie_mac_tweak >>= or_stop (del_ovs_flows ovs b cookie_hairpin)
