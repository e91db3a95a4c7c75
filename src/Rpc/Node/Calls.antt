-- ===== src/Rpc/Node/Calls.antt =====
-- The calls of rpc/rpc_node.go, each written as in the source: a mock first, then the route that the
-- context names, then the node's own service, then a connected peer that offers the service.
use goms.Base.{
  ℕ, Bytes, bytes_eq, bytes_Eq, Option, none, some, List, [], ◌∷◌, ◌++◌, Bool, if◌then◌else◌,
}
use goms.Rpc.Node.{
  Client, Node, call_mock, is_local, split_service_method, get_node, get_client,
  find_rpc_conn_by_service,
}

-- How a request is handed over: the method of the client, or of the own server.
pub data Via : Type 0 where
  proto_call : Via
  proto_send : Via
  json_call : Via
  json_send : Via
  raw_call : Via
  raw_send : Via

pub data Outcome : Type 0 where
  mocked : ℕ → Outcome
  internal : Via → Outcome
  remote : Via → Client → Outcome
  node_not_exist : Bytes → Outcome
  not_supported : Outcome

-- `context.Nodes`: pairs of a service and the node to ask.
abbrev pub Routes : Type 0
Routes = List (Bytes × Bytes)

-- The loop over the routes.
abbrev pub route_of : Bytes → Routes → Option Bytes
route_of service [] = none
route_of service ((name, node) ∷ routes) =
    if bytes_eq service name then some node else route_of service routes

abbrev pub to_peer : Via → Bytes → Option Client × Node → Outcome × Node
to_peer via name (none, node) = (node_not_exist name, node)
to_peer via name (some c, node) = (remote via c, node)

abbrev pub to_provider : Via → Option Client × Node → Outcome × Node
to_provider via (none, node) = (not_supported, node)
to_provider via (some c, node) = (remote via c, node)

-- The loop of Broadcast: the node itself is skipped.
unfoldable pub send_each : Bytes → List (Bytes × Client) → List Outcome
send_each own [] = []
send_each own ((name, c) ∷ clients) =
    let rest = send_each own clients in
    if bytes_eq name own then rest else remote proto_send c ∷ rest

-- The loop of BroadcastCall: it ends when `f` answers no.
unfoldable pub call_each : (Bytes → Bool) → Bytes → List (Bytes × Client) → List Outcome
call_each f own [] = []
call_each f own ((name, c) ∷ clients) =
    let rest = call_each f own clients in
    if bytes_eq name own then rest else remote proto_call c ∷ (if f name then rest else [])

module _ (dial : Bytes → Option ℕ) where
  unfoldable pub call : Routes → Bytes → Node → Outcome × Node
  call routes method node = elim (call_mock method node) [
    | some m ↦ (mocked m, node)
    | none ↦
        let service = (split_service_method method).0 in
        elim (route_of service routes) [
          | some peer ↦ to_peer proto_call peer (get_node dial peer node)
          | none ↦
              if is_local service node
              then (internal proto_call, node)
              else to_provider proto_call (get_client dial service node)
        ]
  ]

  unfoldable pub send : Routes → Bytes → Node → Outcome × Node
  send routes method node = elim (call_mock method node) [
    | some m ↦ (mocked m, node)
    | none ↦
        let service = (split_service_method method).0 in
        elim (route_of service routes) [
          | some peer ↦ to_peer proto_send peer (get_node dial peer node)
          | none ↦
              if is_local service node
              then (internal proto_send, node)
              else to_provider proto_send (get_client dial service node)
        ]
  ]

  unfoldable pub json_call_method : Routes → Bytes → Node → Outcome × Node
  json_call_method routes method node = elim (call_mock method node) [
    | some m ↦ (mocked m, node)
    | none ↦
        let service = (split_service_method method).0 in
        elim (route_of service routes) [
          | some peer ↦ to_peer json_call peer (get_node dial peer node)
          | none ↦
              if is_local service node
              then (internal json_call, node)
              else to_provider json_call (get_client dial service node)
        ]
  ]

  unfoldable pub json_send_method : Routes → Bytes → Node → Outcome × Node
  json_send_method routes method node = elim (call_mock method node) [
    | some m ↦ (mocked m, node)
    | none ↦
        let service = (split_service_method method).0 in
        elim (route_of service routes) [
          | some peer ↦ to_peer json_send peer (get_node dial peer node)
          | none ↦
              if is_local service node
              then (internal json_send, node)
              else to_provider json_send (get_client dial service node)
        ]
  ]

  unfoldable pub raw_call_method : Routes → Bytes → Node → Outcome × Node
  raw_call_method routes method node = elim (call_mock method node) [
    | some m ↦ (mocked m, node)
    | none ↦
        let service = (split_service_method method).0 in
        elim (route_of service routes) [
          | some peer ↦ to_peer raw_call peer (get_node dial peer node)
          | none ↦
              if is_local service node
              then (internal raw_call, node)
              else to_provider raw_call (get_client dial service node)
        ]
  ]

  unfoldable pub raw_send_method : Routes → Bytes → Node → Outcome × Node
  raw_send_method routes method node = elim (call_mock method node) [
    | some m ↦ (mocked m, node)
    | none ↦
        let service = (split_service_method method).0 in
        elim (route_of service routes) [
          | some peer ↦ to_peer raw_send peer (get_node dial peer node)
          | none ↦
              if is_local service node
              then (internal raw_send, node)
              else to_provider raw_send (get_client dial service node)
        ]
  ]

  -- The calls of a node by its name: NodeCall, NodeSend and their variants, by the way they use.
  unfoldable pub node_call : Via → Bytes → Bytes → Node → Outcome × Node
  node_call via name method node = elim (call_mock method node) [
    | some m ↦ (mocked m, node)
    | none ↦
        if bytes_eq name node.name
        then (internal via, node)
        else to_peer via name (get_node dial name node)
  ]

  unfoldable pub broadcast : Bytes → Node → List Outcome × Node
  unfolding send_each
  broadcast method node = elim (call_mock method node) [
    | some m ↦ (mocked m ∷ [], node)
    | none ↦
        let service = (split_service_method method).0 in
        let (clients, node') = find_rpc_conn_by_service dial service node in
        (
          (if is_local service node then internal proto_send ∷ [] else [])
              ++ send_each node.name clients,
          node',
        )
  ]

  unfoldable pub broadcast_call : (Bytes → Bool) → Bytes → Node → List Outcome × Node
  unfolding call_each
  broadcast_call f method node = elim (call_mock method node) [
    | some m ↦ (mocked m ∷ [], node)
    | none ↦
        let service = (split_service_method method).0 in
        let (clients, node') = find_rpc_conn_by_service dial service node in
        if is_local service node
        then (if f node.name
            then (internal proto_call ∷ call_each f node.name clients, node')
            else (internal proto_call ∷ [], node))
        else (call_each f node.name clients, node')
  ]
