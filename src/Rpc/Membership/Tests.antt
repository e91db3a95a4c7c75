-- ===== src/Rpc/Membership/Tests.antt =====
-- The node "me" and the peer "r" in the registry, and the theorems of rpc/rpc_node.go at them.
use goms.Base.{
  ℕ, Bytes, codes, bytes_Eq, lookup, List, [], ◌∷◌, Bool, true, false, Option, none, some, ◌≡◌, ◌≢◌,
  refl, arith,
}
use goms.Rpc.Node.{Client, NodeInfo, Node, get_node}
use goms.Rpc.Node.Tests.{dial, info_of, client_of, node}
use goms.WatchConfig.{register_node}
use goms.Rpc.Membership.{watch_node_register}
use goms.Rpc.Membership.Peers.{get_node-registered, get_node-left}

abbrev text : NodeInfo → Bytes
text info = codes "{}"

abbrev parse : Bytes → NodeInfo
parse value = info_of (codes "r") 4

-- The peer's address has an inner and an outer host, "a" and "b", and its region is another.
get_node-registered_example :
    (node' : Node) × (watch_node_register dial parse []
        (register_node text (info_of (codes "r") 4) [])
        (codes "r")
        (codes "{}")
        node
      ≡ some node')
    × (get_node dial (codes "r") node' ≡ (some (client_of 98 4), node'))
unfolding goms.Base.bytes_eq goms.Rpc.Node.get_node_address
get_node-registered_example =
    get_node-registered dial parse text (info_of (codes "r") 4) [] (codes "{}") node (codes "b:1")
      98 refl refl refl refl (ground arith) refl refl

get_node-left_example :
    (node' : Node) × (watch_node_register dial parse [] [] (codes "p") [] node ≡ some node')
    × (get_node dial (codes "p") node' ≡ (none, node'))
    × (lookup (codes "q") node'.rpc_client ≡ lookup (codes "q") node.rpc_client)
unfolding goms.Base.bytes_eq goms.Rpc.Node.get_node_address
get_node-left_example = get_node-left dial parse [] [] (codes "p") (codes "q") node
