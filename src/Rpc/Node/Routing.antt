-- ===== src/Rpc/Node/Routing.antt =====
-- The six calls of rpc/rpc_node.go against one routing decision, and whom a broadcast reaches.
use goms.Base.{
  ℕ, Bytes, bytes_eq, bytes_Eq, Option, none, some, List, [], ◌∷◌, ◌++◌, Bool, true, false,
  if◌then◌else◌, ◌≡◌, refl, arith, map,
}
use goms.Rpc.Node.{
  Client, Node, call_mock, is_local, split_service_method, get_node, get_client,
  find_rpc_conn_by_service,
}
use goms.Rpc.Node.Calls.{
  Via, proto_call, proto_send, json_call, json_send, raw_call, raw_send, Outcome, mocked, internal,
  remote, Routes, route_of, to_peer, to_provider, call, send, json_call_method, json_send_method,
  raw_call_method, raw_send_method, node_call, send_each, broadcast, call_each, broadcast_call,
}

-- Where a request goes, whatever its encoding.
pub data Target : Type 0 where
  to_mock : ℕ → Target
  to_node : Bytes → Target
  to_self : Target
  to_service : Bytes → Target

abbrev by_service : Bool → Bytes → Target
by_service true service = to_self
by_service false service = to_service service

abbrev by_route : Option Bytes → Bytes → Node → Target
by_route (some peer) service node = to_node peer
by_route none service node = by_service (is_local service node) service

abbrev by_mock : Option ℕ → Target → Target
by_mock (some m) t = to_mock m
by_mock none t = t

-- The decision: a mock before a route of the context, that before the own service, and that before
-- a peer.
pub target : Routes → Bytes → Node → Target
target routes method node =
    let service = (split_service_method method).0 in
    by_mock (call_mock method node) (by_route (route_of service routes) service node)

-- What a request does at its target.
pub deliver : (Bytes → Option ℕ) → Via → Target → Node → Outcome × Node
deliver dial via (to_mock m) node = (mocked m, node)
deliver dial via (to_node peer) node = to_peer via peer (get_node dial peer node)
deliver dial via to_self node = (internal via, node)
deliver dial via (to_service service) node = to_provider via (get_client dial service node)

module _ (dial : Bytes → Option ℕ) (routes : Routes) (method : Bytes) (node : Node) where
  -- Call, Send, JsonCall, JsonSend, RawCall and RawSend take one decision: a mock before a route
  -- of the context, that before the own service, and that before a connected peer; they differ
  -- only in how the request is handed over.
  pub calls-target :
      (call dial routes method node ≡ deliver dial proto_call (target routes method node) node)
      × (send dial routes method node ≡ deliver dial proto_send (target routes method node) node)
      × (json_call_method dial routes method node
          ≡ deliver dial json_call (target routes method node) node)
      × (json_send_method dial routes method node
          ≡ deliver dial json_send (target routes method node) node)
      × (raw_call_method dial routes method node
          ≡ deliver dial raw_call (target routes method node) node)
      × (raw_send_method dial routes method node
          ≡ deliver dial raw_send (target routes method node) node)
  unfolding call send json_call_method json_send_method raw_call_method raw_send_method target
      deliver
  calls-target =
      (ground arith, ground arith, ground arith, ground arith, ground arith, ground arith)

  -- Under a mock a request leaves the node and its connections as they are.
  pub mocked_call :
      (m : ℕ) (via : Via) (name : Bytes)
      → call_mock method node ≡ some m
      → (call dial routes method node ≡ (mocked m, node))
        × (node_call dial via name method node ≡ (mocked m, node))
        × (broadcast dial method node ≡ (mocked m ∷ [], node))
  unfolding call node_call broadcast
  mocked_call m via name e = (ground arith, ground arith, ground arith)

-- Who receives a broadcast: the requests to peers, in the order of the clients.
abbrev pub others : Bytes → List (Bytes × Client) → List Client
others own [] = []
others own ((name, c) ∷ clients) =
    if bytes_eq name own then others own clients else c ∷ others own clients

send_each-others :
    (own : Bytes) (clients : List (Bytes × Client))
    → send_each own clients ≡ map (remote proto_send) (others own clients)
unfolding send_each
send_each-others own [] = refl
send_each-others own ((name, c) ∷ clients) = ground (arith, send_each-others own clients)

call_each-all :
    (f : Bytes → Bool) (own : Bytes) (clients : List (Bytes × Client))
    → ((name : Bytes) → f name ≡ true)
    → call_each f own clients ≡ map (remote proto_call) (others own clients)
unfolding call_each
call_each-all f own [] h = refl
call_each-all f own ((name, c) ∷ clients) h = ground (arith, call_each-all f own clients h, h name)

abbrev pub own_part : Via → Bool → List Outcome
own_part via b = if b then internal via ∷ [] else []

-- Without a mock a broadcast asks the own service once, if the node has it, and every other
-- connected provider once; BroadcastCall asks the same while its callback goes on.
pub broadcast-all :
    (dial : Bytes → Option ℕ) (method : Bytes) (node : Node) (f : Bytes → Bool)
    → call_mock method node ≡ none
    → ((name : Bytes) → f name ≡ true)
    → let service = (split_service_method method).0 in
      let clients = (find_rpc_conn_by_service dial service node).0 in
      ((broadcast dial method node).0
        ≡ own_part proto_send (is_local service node)
          ++ map (remote proto_send) (others node.name clients))
      × ((broadcast_call dial f method node).0
          ≡ own_part proto_call (is_local service node)
            ++ map (remote proto_call) (others node.name clients))
unfolding broadcast broadcast_call
broadcast-all dial method node f none_mocked goes_on =
    let service = (split_service_method method).0 in
    let clients = (find_rpc_conn_by_service dial service node).0 in
    (
      ground (arith, send_each-others node.name clients),
      ground (arith, call_each-all f node.name clients goes_on, goes_on node.name),
    )
