-- ===== src/Rpc/Membership/Peers.antt =====
-- A node of rpc/rpc_node.go and a peer that comes and goes.
use goms.Base.{
  ℕ, Bytes, bytes_eq, bytes_eq_refl, bytes_eq_iff, bytes_Eq, lookup, lookup-remove, Option, none,
  some, [], false, if◌then◌else◌, ◌≡◌, ◌≢◌, refl, arith, ◌∙◌,
}
use goms.Util.HashSet.{Data, is_blank}
use goms.Rpc.Node.{new_client, NodeInfo, Node, get_node_address, get_node}
use goms.Rpc.Node.Lookup.{get_node-connect_node}
use goms.WatchConfig.{register_node}
use goms.WatchConfig.Nodes.Lookup.{get_register_node-register_node}
use goms.Rpc.Membership.{leave, watch_node_register}

lookup-leave :
    (k other : Bytes) (node : Node)
    → lookup other (leave k node).0.rpc_client
      ≡ (if bytes_eq k other then none else lookup other node.rpc_client)
unfolding leave
lookup-leave k other node =
    ground (arith, lookup-remove k other node.rpc_client, bytes_eq_iff k other)

module _ (dial : Bytes → Option ℕ) (parse : Bytes → NodeInfo) where
  -- For a peer that registered in the node's set with a name and a text that are not blank and
  -- that reads back, another name than the node's, and an address that is reached: the
  -- announcement of the registration makes the node connect, and the peer's client is at hand with
  -- the peer's region.
  pub get_node-registered :
      (text : NodeInfo → Bytes) (info : NodeInfo) (content : Data) (v : Bytes) (node : Node)
      (address : Bytes) (id : ℕ)
      → is_blank info.name ≡ false
      → is_blank (text info) ≡ false
      → parse (text info) ≡ info
      → is_blank v ≡ false
      → info.name ≢ node.name
      → get_node_address info.address info.region node ≡ some address
      → dial address ≡ some id
      → (node' : Node) × (watch_node_register dial parse info.set
            (register_node text info content)
            info.name
            v
            node
          ≡ some node')
        × (get_node dial info.name node'
            ≡ (some (record (new_client id) { region = info.region }), node'))
  unfolding watch_node_register
  get_node-registered text info content v node address id named full back news other ea ed =
      let (node', connected, found) = get_node-connect_node dial info node address id other ea ed in
      (
        node',
        ground (
          arith,
          get_register_node-register_node text parse info content named full back,
          bytes_eq_refl info.set,
          connected,
        ),
        found,
      )

  get_node-missing :
      (name : Bytes) (node : Node)
      → lookup name node.rpc_client ≡ none
      → get_node dial name node ≡ (none, node)
  unfolding get_node
  get_node-missing name node gone = rw (get_node, gone) refl

  -- The announcement of a blank text for a peer makes the node forget the peer's connection, so
  -- that it is not found again, and leaves the connection of every other peer.
  pub get_node-left :
      (set : Bytes) (content : Data) (k other : Bytes) (node : Node)
      → (node' : Node) × (watch_node_register dial parse set content k [] node ≡ some node')
        × (get_node dial k node' ≡ (none, node'))
        × (lookup other node'.rpc_client
            ≡ (if bytes_eq k other then none else lookup other node.rpc_client))
  unfolding watch_node_register leave
  get_node-left set content k other node = (
    (leave k node).0,
    refl,
    get_node-missing k (leave k node).0 (lookup-leave k k node ∙ rw (bytes_eq_refl k) refl),
    lookup-leave k other node,
  )
