-- ===== src/WatchConfig/Nodes/Tests.antt =====
-- The registry of two nodes, and the theorems of watch_config/node.go at it.
use goms.Base.{Bytes, codes, bytes_Eq, lookup, Option, none, some, List, [], ◌∷◌, ◌≡◌, refl}
use goms.Util.HashSet.Refine.{entry_at}
use goms.Rpc.Node.{NodeInfo}
use goms.WatchConfig.{register_key}
use goms.WatchConfig.Tests.{node, registry}
use goms.WatchConfig.Nodes.{get_all_register_node}
use goms.WatchConfig.Nodes.Lookup.{parsed, get_all_register_node_lem}

-- Every text stands for the one node.
abbrev text : NodeInfo → Bytes
text info = codes "{}"

abbrev parse : Bytes → NodeInfo
parse value = node

get_all_register_node_lem_example :
    (out : List (Bytes × NodeInfo)) × (get_all_register_node parse [] registry ≡ some out)
    × ((name : Bytes) → lookup name out ≡ parsed parse (entry_at (register_key []) name registry))
unfolding goms.Base.bytes_eq
get_all_register_node_lem_example = get_all_register_node_lem parse [] registry (refl, tt)
