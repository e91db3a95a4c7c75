-- ===== src/WatchConfig.antt =====
-- watch_config: the registry of nodes and their loads, kept in the map of the watch server. A request
-- of the watch client that writes is its effect on that map; what one that reads ends with is an input
-- of allocLoad.
pub mod Alloc
pub mod Nodes
pub mod Registry
pub mod Tests
use goms.Base.{Bytes, codes, List, [], ◌∷◌, ◌++◌, ℕ, Option, none, some, get_elem?}
use goms.Base.Int.{ℤ, pos, negsuc}
use goms.Base.{◌+◌, ◌-◌, ◌%◌, ◌^◌}
use goms.Base.Decimal.{atoi}
use goms.Util.HashSet.{Data, hset_data}
use goms.Watch.Client.{Outcome, returned, panicked}
use goms.Util.Rand.{rand_less_weight}
use goms.Rpc.Node.{NodeInfo, ServiceInfo}

-- fmt.Sprintf("%v:%v", prefix, name)
abbrev pub join_key : Bytes → Bytes → Bytes
join_key prefix name = prefix ++ b':' ∷ name

abbrev pub register_key : Bytes → Bytes
register_key = join_key (codes "nodeRegister")

abbrev pub node_load_key : Bytes → Bytes
node_load_key = join_key (codes "node_load")

abbrev pub service_load_key : Bytes → Bytes
service_load_key = join_key (codes "service_load")

-- client.Hset
abbrev pub client_hset : Bytes → Bytes → Bytes → Data → Data
client_hset key field value content = (hset_data key field value content).0

-- The loop over the services: RegisterNode and DelRegisterNode have the same.
unfoldable pub zero_loads : Bytes → List ServiceInfo → Data → Data
zero_loads name [] content = content
zero_loads name (service ∷ services) content =
    zero_loads name services (client_hset (service_load_key service.name) name (codes "0") content)

-- RegisterNode; `text` is the node's JSON text.
unfoldable pub register_node : (NodeInfo → Bytes) → NodeInfo → Data → Data
unfolding zero_loads
register_node text info content = zero_loads info.name info.services (
    client_hset (node_load_key info.node_type) info.name (codes "0")
      (client_hset (register_key info.set) info.name (text info) content))

unfoldable pub del_register_node : NodeInfo → Data → Data
unfolding zero_loads
del_register_node info content = zero_loads info.name info.services (
    client_hset (node_load_key info.node_type) info.name []
      (client_hset (register_key info.set) info.name [] content))

-- uint64(n)
abbrev pub to_uint64 : ℤ → ℕ
to_uint64 (pos n) = n % 2 ^ 64
to_uint64 (negsuc n) = 2 ^ 64 - 1 - n % 2 ^ 64

-- The loop over the names and the loads; `none` is the panic of a name without a load.
unfoldable pub split_loads : List Bytes → Option (List Bytes × List ℕ)
split_loads [] = some ([], [])
split_loads (name ∷ []) = none
split_loads (name ∷ load ∷ values) = elim (split_loads values) [
  | none ↦ none
  | some (names, weights) ↦ some (name ∷ names, to_uint64 (atoi load) ∷ weights)
]

-- allocLoad from what client.Hgetall ends with: the chosen node, or `none` for a panic, which may be
-- that of Hgetall itself.
unfoldable pub alloc_load : ℕ → Outcome (List Bytes) → Option Bytes
unfolding split_loads
alloc_load random panicked = none
alloc_load random (returned values) = elim (split_loads values) [
  | none ↦ none
  | some (names, weights) ↦ elim (rand_less_weight random weights) [
    | none ↦ none
    | some (index, _) ↦ get_elem? names index
  ]
]
