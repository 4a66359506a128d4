-- ===== src/Ovn/Gateway/Defs.antt =====
-- The operations that the agent sends, and `transactOps`.
use ovn_route_agent.Base.{ℤ, String, Bool, true, List, [], ◌∷◌, filter}
use ovn_route_agent.Ovn.Rows.{NbGatewayChassis}

-- `LocalRouterInfo` of ovn.go
pub record LocalRouterInfo : Type 0 where
  pub router_name : String
  pub router_uuid : String
  pub lrp_name : String
  pub lrp_uuid : String
  pub lrp_mac : String
  pub lrp_networks : List String
  pub cr_port : String

-- The operations by what they change. An insertion into or a deletion from a router's
-- `static_routes` is a mutation of its row.
pub data Op : Type 0 where
  set_priority : NbGatewayChassis → ℤ → Op
  set_route_chassis : (route chassis : String) → Op
  set_route_target : (route nexthop output_port chassis : String) → Op
  insert_route : (nexthop output_port chassis : String) → Op
  link_route : (router route : String) → Op
  unlink_route : (router route : String) → Op
  delete_route : (route : String) → Op
  set_binding_mac : (binding mac : String) → Op
  insert_binding : (port ip mac : String) → Op
  delete_binding : (binding : String) → Op

abbrev pub Txn : Type 0
Txn = List Op

-- libovsdb: whether it can build an operation, and whether the server commits a transaction and
-- all of its operations, given the transactions that were sent before, the last one first.
pub record Database : Type 0 where
  pub builds : Op → Bool
  pub commits : List Txn → Txn → Bool

-- A writer returns its result and the transactions sent so far.
abbrev pub M {ℓ} : Type ℓ → Type ℓ
M A = List Txn → A × List Txn

infixl 5 ◌>>=◌ ◌>>◌
abbrev pub ◌>>=◌ {ℓ κ} : {A : Type ℓ} {B : Type κ} → M A → (A → M B) → M B
◌>>=◌ m f h = let (a, h') = m h in f a h'

abbrev pub ◌>>◌ {ℓ κ} : {A : Type ℓ} {B : Type κ} → M A → M B → M B
m >> k = m >>= λ _. k

abbrev pub pure {ℓ} : {A : Type ℓ} → A → M A
pure a h = (a, h)

-- `transactOps`: true where no error is returned.
unfoldable pub transact_ops : Database → Txn → M Bool
transact_ops db ops h = (db.commits h ops, ops ∷ h)

-- The operations that could be built; a failure is logged and passed over.
unfoldable pub built : Database → List Op → List Op
unfolding filter
built db ops = filter db.builds ops

-- `if len(allOps) == 0 { return nil }; return o.transactOps(ctx, allOps)`
unfoldable pub transact_if_any : Database → Txn → M Bool
transact_if_any db [] h = (true, h)
transact_if_any db (op ∷ ops) h = transact_ops db (op ∷ ops) h
