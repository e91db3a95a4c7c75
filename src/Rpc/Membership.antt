-- ===== src/Rpc/Membership.antt =====
-- rpc/rpc_node.go: how a node starts, and how it follows the registry of its peers. `content` is
-- the map of the watch server at the time of the request, `parse` what json.Unmarshal leaves of a
-- registered text, and `exported` what ExportServiceFunction finds of a service by reflection.
pub mod Peers
pub mod Tests
use goms.Base.{
  ℕ, ◌%◌, ◌^◌, Bytes, bytes_eq, bytes_Eq, nat_eq, lookup, insert, remove, Option, none, some, List,
  [], ◌∷◌, ◌++◌, Bool, true, false, ◌&&◌, ◌||◌, not, if◌then◌else◌,
}
use goms.Base.Int.{ℤ, to_u64}
use goms.Base.Decimal.{itoa}
use goms.Util.HashSet.{Data, is_blank}
use goms.Rpc.Node.{
  Client, NodeInfo, NodeConn, ServiceInfo, Node, connect_node, split_on, add_functions,
}
use goms.WatchConfig.{register_node}
use goms.WatchConfig.Nodes.{get_register_node, get_all_register_node}

-- CloseCallback
unfoldable pub close_callback : Bytes → Node → Node
close_callback name node = record node { rpc_client = remove name node.rpc_client }

-- A blank text to WatchNodeRegister: the peer is gone; with it goes its connection, which is
-- closed.
unfoldable pub leave : Bytes → Node → Node × Option Client
leave k node = elim (lookup k node.rpc_client) [
  | none ↦ (node, none)
  | some peer ↦ (record node { rpc_client = remove k node.rpc_client }, peer.conn)
]

-- The nodes of all sets, and those of the own one.
abbrev pub in_set : Bytes → NodeInfo → Bool
in_set set info = is_blank info.set || bytes_eq info.set set

-- QueryNodeStatus
unfoldable pub query_node_status : List (Bytes × NodeConn) → List (ℕ × Bytes × Bytes × Bool)
query_node_status [] = []
query_node_status ((name, peer) ∷ peers) =
    (peer.info.id, peer.info.name, peer.info.address, peer.close) ∷ query_node_status peers

module _ (dial : Bytes → Option ℕ) (parse : Bytes → NodeInfo) where
  -- `none` is the panic of connectNode.
  unfoldable pub watch_node_register : Bytes → Data → Bytes → Bytes → Node → Option Node
  unfolding leave get_register_node connect_node
  watch_node_register set content k v node =
      if is_blank v then some (leave k node).0 else elim (get_register_node parse k set content) [
        | none ↦ some node
        | some info ↦ if in_set set info then connect_node dial info node else some node
      ]

  -- A loop of InitNode over the registered nodes.
  unfoldable pub connect_nodes : Bytes → List (Bytes × NodeInfo) → Node → Option Node
  unfolding connect_node
  connect_nodes set [] node = some node
  connect_nodes set ((name, info) ∷ nodes) node =
      if in_set set info
      then elim (connect_node dial info node) [
        | none ↦ none
        | some node' ↦ connect_nodes set nodes node'
      ]
      else connect_nodes set nodes node

  -- The task of InitNode that connects the node: the nodes of no set, and those of its own.
  unfoldable pub join_peers : Bytes → Data → Node → Option Node
  unfolding connect_nodes get_all_register_node
  join_peers set content node = elim (get_all_register_node parse [] content) [
    | none ↦ none
    | some nodes ↦ elim (connect_nodes set nodes node) [
      | none ↦ none
      | some node' ↦ elim (get_all_register_node parse set content) [
        | none ↦ none
        | some nodes' ↦ connect_nodes set nodes' node'
      ]
    ]
  ]

-- NodeConfig
pub record NodeConfig : Type 0 where
  pub id : ℕ
  pub nodename : Bytes
  pub nodetype : Bytes
  pub set : Bytes
  pub host : Bytes
  pub port : ℤ
  pub region : ℕ
  pub cmds : List (Bytes × ℤ)

-- The functions of a service among the commands: "service_function" with its number.
unfoldable pub functions_of : Bytes → List (Bytes × ℤ) → List (Bytes × ℕ)
unfolding split_on
functions_of service [] = []
functions_of service ((cmd, n) ∷ cmds) =
    let rest = functions_of service cmds in
    elim (split_on b'_' cmd) [
      | owner ∷ name ∷ [] ↦
          if bytes_eq service owner then (name, to_u64 n % 2 ^ 16) ∷ rest else rest
      | _ ↦ rest
    ]

module _ (exported : Bytes → List (Bytes × ℕ)) where
  abbrev pub service_info : List (Bytes × ℤ) → Bytes → ServiceInfo
  service_info [] service = record { name = service; funcs = exported service }
  service_info (cmd ∷ cmds) service = record {
    name = service;
    funcs = functions_of service (cmd ∷ cmds);
  }

  -- The task of InitNode that registers the node: its services with their functions.
  unfoldable pub own_services : List (Bytes × ℤ) → List (Bytes × Unit {0}) → List ServiceInfo
  unfolding functions_of
  own_services cmds [] = []
  own_services cmds ((service, _) ∷ services) =
      service_info cmds service ∷ own_services cmds services

  unfoldable pub own_info : NodeConfig → List (Bytes × Unit {0}) → NodeInfo
  unfolding own_services
  own_info config services = record {
    id = config.id;
    name = config.nodename;
    node_type = config.nodetype;
    address = config.host ++ b':' ∷ itoa config.port;
    services = own_services config.cmds services;
    region = config.region;
    set = config.set;
  }

  abbrev pub add_own_services :
      Bytes → List ServiceInfo → List (Bytes × Bytes) → List (Bytes × Bytes)
  unfolding add_functions
  add_own_services node_type [] m = m
  add_own_services node_type (service ∷ services) m =
      add_own_services node_type services (add_functions node_type service.name service.funcs m)

  -- InitNode up to its listener, for a node with a watch client (the command table and the registry
  -- are filled only then): the node, and the registry with the node in it.
  unfoldable pub init_node : (NodeInfo → Bytes) → NodeConfig → Node → Data → Node × Data
  unfolding own_info register_node
  init_node text config node content =
      let info = own_info config node.services in
      (
        record node {
          name = config.nodename;
          region = config.region;
          service_node = [];
          cmd_service = add_own_services config.nodetype info.services node.cmd_service;
        },
        register_node text info content,
      )
