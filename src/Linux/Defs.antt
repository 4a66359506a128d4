-- ===== src/Linux/Defs.antt =====
-- The calls of routing_linux.go and nftables_linux.go to the kernel and to `nft`, as a log of the
-- changes with their outcomes; what the kernel answers is a parameter.
use Prim.Native.String.{◌++◌ as ◌+++◌}
use ovn_route_agent.Base.{
  ℕ, ℤ, String, Bool, true, false, Option, none, some, List, ◌∷◌, eqb, contains_text,
}
use ovn_route_agent.Net.{Ip, v4, v6, IpNet}
use ovn_route_agent.Config.{PortForwardVip}

-- The fields of `RouteManager` that these files use.
pub record Manager : Type 0 where
  pub bridge_dev : String
  pub vrf_name : String
  pub veth_nexthop : String
  pub route_table_id : ℤ
  pub dry_run : Bool
  pub veth_leak_enabled : Bool
  pub veth_provider_ip : String
  pub veth_leak_table_id : ℤ
  pub veth_leak_rule_priority : ℤ
  pub network_filters : List IpNet
  pub port_forward_enabled : Bool
  pub port_forward_dev : String
  pub port_forward_table_id : ℤ
  pub port_forward_l3mdev_accept : Bool
  pub port_forward_ct_zone : ℤ
  pub port_forwards : List PortForwardVip

-- What the code reads of a `netlink.Link`; only a VRF has a table.
pub record Link : Type 0 where
  pub index : ℕ
  pub is_up : Bool
  pub hardware_addr : String
  pub vrf_table : Option ℤ

-- What the code reads or sets of a `netlink.Route`.
pub record Route : Type 0 where
  pub link_index : ℕ
  pub dst : Option IpNet
  pub gw : Option Ip
  pub scope_link : Bool
  pub table : ℤ
  pub protocol : ℕ

-- What the code reads or sets of a `netlink.Rule`; a mark comes with its mask.
pub record IpRule : Type 0 where
  pub src : Option IpNet
  pub dst : Option IpNet
  pub table : ℤ
  pub priority : ℤ
  pub mark : Option (ℕ × ℕ)

-- An address with the length of its prefix; the address is missing where its text does not parse.
pub record Addr : Type 0 where
  pub ip : Option Ip
  pub prefix : ℕ

-- What `RouteListFiltered` and `RouteList` are asked for.
pub record RouteFilter : Type 0 where
  pub link_index : Option ℕ
  pub table : Option ℤ
  pub protocol : Option ℕ

pub data Change : Type 0 where
  link_set_up : Link → Change
  link_add : (name peer : String) → Change
  link_set_master : Link → (vrf : Link) → Change
  link_del : Link → Change
  addr_add : Link → Addr → Change
  addr_replace : Link → Addr → Change
  addr_del : Link → Addr → Change
  neigh_set : (link_index : ℕ) → Option Ip → (hardware_addr : String) → Change
  route_replace : Route → Change
  route_del : Route → Change
  rule_add : IpRule → Change
  rule_del : IpRule → Change
  write_one : (path : String) → Change
  nft_delete_table : Change
  nft_load : (text : String) → Change

-- The error of a call: whether it is `EEXIST`, and its text.
pub data Outcome : Type 0 where
  done : Outcome
  failed : (exists : Bool) → (text : String) → Outcome

-- The changes so far, the last one first.
abbrev pub History : Type 0
History = List (Change × Outcome)

-- What the calls return, by the changes before them; none and false stand for an error.
pub record Kernel : Type 0 where
  pub is_root : Bool
  pub links : History → (name : String) → Option Link
  pub addrs : History → Link → Option (List Ip)
  pub routes : History → RouteFilter → Option (List Route)
  pub rules : History → Option (List IpRule)
  pub has_nft : Bool
  pub lists_table : History → Bool
  pub outcome : History → Change → Outcome

abbrev pub M : Type 0 → Type 0
M A = History → A × History

-- A method without further results is true where it returns no error.
abbrev pub Method : Type 0
Method = M Bool

abbrev pub ok : Method
ok h = (true, h)

abbrev pub fail : Method
fail h = (false, h)

-- The rest, unless the first part failed.
abbrev pub go_on : Bool → Method → Method
go_on true rest = rest
go_on false rest = fail

infixr 5 ◌>>◌
abbrev pub ◌>>◌ : Method → Method → Method
◌>>◌ first rest h = let (b, h') = first h in go_on b rest h'

-- A call whose error is looked at by the test.
abbrev pub call : Kernel → (accepts : Outcome → Bool) → Change → Method
call k accepts c h = (accepts (k.outcome h c), (c, k.outcome h c) ∷ h)

abbrev pub is_done : Outcome → Bool
is_done done = true
is_done (failed exists text) = false

-- `isFileExists`
abbrev pub is_done_or_exists : Outcome → Bool
is_done_or_exists done = true
is_done_or_exists (failed exists text) = exists

-- `isNoSuchRoute`
unfoldable pub is_done_or_absent : Outcome → Bool
unfolding contains_text
is_done_or_absent done = true
is_done_or_absent (failed exists text) = contains_text text "no such process"

abbrev pub any_outcome : Outcome → Bool
any_outcome o = true

abbrev pub must : Kernel → Change → Method
must k = call k is_done

-- A call whose error is logged and passed over.
abbrev pub attempt : Kernel → Change → Method
attempt k = call k any_outcome

abbrev pub on_found : {A : Type 0} → (missing : Method) → (A → Method) → Option A → Method
on_found missing found none = missing
on_found missing found (some a) = found a

-- A reading call, and what follows where it fails and where it succeeds.
abbrev pub reading :
    {A : Type 0} → (History → Option A) → (missing : Method) → (A → Method) → Method
reading query missing found h = on_found missing found (query h) h

abbrev pub link_by_name : Kernel → (name : String) → History → Option Link
link_by_name k name h = k.links h name

-- `IP.Equal`
abbrev pub ip_equal : Ip → Ip → Bool
ip_equal (v4 m) (v4 n) = eqb m n
ip_equal (v6 m) (v6 n) = eqb m n
ip_equal _ _ = false

-- `&net.IPNet{IP: ip, Mask: net.CIDRMask(32, 32)}`
abbrev pub host_net : Ip → IpNet
host_net ip = record { ip = ip; ones = 32; bits = 32 }

-- `filepath.Join("/proc/sys/net/ipv4/conf", dev, leaf)` for the name of a device.
abbrev pub sysctl_path : (dev leaf : String) → String
sysctl_path dev leaf = "/proc/sys/net/ipv4/conf/" +++ (dev +++ ("/" +++ leaf))
