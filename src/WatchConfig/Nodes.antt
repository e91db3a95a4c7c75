-- ===== src/WatchConfig/Nodes.antt =====
-- The configuration and the listings of nodes, the gates and the loads: the rest of
-- watch_config/node.go, watch_config/gate.go and watch_config/service.go. `parse` is what
-- json.Unmarshal leaves of a text, `text` what json.Marshal makes.
pub mod Lookup
pub mod Tests
use goms.Base.{
  ℕ, Bytes, bytes_Eq, codes, insert, remove, Option, none, some, List, [], ◌∷◌, ◌++◌, Bool, true,
  false, if◌then◌else◌, ◌==◌, length,
}
use goms.Base.Int.{ℤ}
use goms.Util.HashSet.{Data, hget, hgetall, key_prefix, is_blank, hincrby_data}
use goms.Rpc.Node.{NodeInfo, split_on}
use goms.Watch.Client
use goms.Watch.Client.{WatchClient}
use goms.WatchConfig.{client_hset, register_key, node_load_key, service_load_key}

-- A loop over hgetall's fields and values into a map; `none` is the panic of a field without a
-- value.
unfoldable pub collect :
    {V : Type 0} → (Bytes → V) → List Bytes → List (Bytes × V) → Option (List (Bytes × V))
collect parse [] m = some m
collect parse (key ∷ []) m = none
collect parse (key ∷ value ∷ values) m = collect parse values (insert key (parse value) m)

-- The loop of GetAllName.
unfoldable pub names_of : List Bytes → List Bytes
unfolding split_on
names_of [] = []
names_of (node ∷ nodes) =
    let rest = names_of nodes in
    elim (split_on b':' node) [ prefix ∷ name ∷ [] ↦ name ∷ rest | _ ↦ rest ]

unfoldable pub get_all_name : Bytes → Data → List Bytes
unfolding names_of key_prefix
get_all_name prefix content = names_of (key_prefix prefix content)

abbrev pub node_key : Bytes → Bytes
node_key name = codes "node:" ++ name

abbrev pub get_node_all_name : Data → List Bytes
get_node_all_name = get_all_name (codes "node:")

unfoldable pub get_node_all_config : Bytes → Data → Option (List (Bytes × Bytes))
unfolding collect hgetall
get_node_all_config node content = collect (λ value. value) (hgetall (node_key node) content) []

abbrev pub set_node_config : Bytes → Bytes → Bytes → Data → Data
set_node_config node key value content = client_hset (node_key node) key value content

abbrev pub del_node_config : Bytes → Data → Data
del_node_config node content = remove (node_key node) content

unfoldable pub get_node_config : Bytes → Bytes → Data → Bytes
unfolding hget
get_node_config node key content = hget (node_key node) key content

unfoldable pub get_all_register_node :
    (Bytes → NodeInfo) → Bytes → Data → Option (List (Bytes × NodeInfo))
unfolding collect hgetall
get_all_register_node parse set content = collect parse (hgetall (register_key set) content) []

unfoldable pub get_register_node : (Bytes → NodeInfo) → Bytes → Bytes → Data → Option NodeInfo
unfolding hget
get_register_node parse name set content =
    let value = hget (register_key set) name content in
    if is_blank value then none else some (parse value)

-- What AllocServiceNode and AllocNode ask for; alloc_load is what they make of its end.
abbrev pub alloc_service_node : {C : Type 0} → Bytes → WatchClient C → WatchClient C
alloc_service_node service = Client.hgetall (service_load_key service)

abbrev pub alloc_node : {C : Type 0} → Bytes → WatchClient C → WatchClient C
alloc_node node_type = Client.hgetall (node_load_key node_type)

unfoldable pub add_service_load : Bytes → Bytes → ℤ → Data → Data
unfolding hincrby_data
add_service_load node service add content =
    (hincrby_data (service_load_key service) node add content).0

unfoldable pub add_node_load : Bytes → Bytes → ℤ → Data → Data
unfolding hincrby_data
add_node_load node node_type add content =
    (hincrby_data (node_load_key node_type) node add content).0

pub record GateInfo : Type 0 where
  pub name : Bytes
  pub address : Bytes
  pub ssl_address : Bytes
  pub kcp_address : Bytes
  pub region : ℕ
  pub time : ℤ

-- The loop of GetAllGate; `parse` leaves an empty gate of a text that is none.
unfoldable pub gates_of : (Bytes → GateInfo) → List Bytes → Option (List GateInfo)
gates_of parse [] = some []
gates_of parse (name ∷ []) = none
gates_of parse (name ∷ value ∷ values) = elim (gates_of parse values) [
  | none ↦ none
  | some gates ↦ some (parse value ∷ gates)
]

unfoldable pub get_all_gate : (Bytes → GateInfo) → Data → Option (List GateInfo)
unfolding gates_of hgetall
get_all_gate parse content = gates_of parse (hgetall (codes "gate") content)

abbrev pub set_gate_info : (GateInfo → Bytes) → GateInfo → Data → Data
set_gate_info text gate content = client_hset (codes "gate") gate.name (text gate) content

-- GetGateInfo answers nothing for a text that is no gate.
unfoldable pub get_gate_info : (Bytes → Option GateInfo) → Bytes → Data → Option GateInfo
unfolding hget
get_gate_info parse name content =
    let value = hget (codes "gate") name content in if is_blank value then none else parse value
