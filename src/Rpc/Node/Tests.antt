-- ===== src/Rpc/Node/Tests.antt =====
-- A node with two peers, and the theorems of rpc/rpc_node.go at it.
use goms.Base.{
  ℕ, Bytes, codes, bytes_Eq, lookup, List, [], ◌∷◌, ◌++◌, Bool, true, false, Option, none, some,
  ◌≡◌, ◌≢◌, refl, arith, map, All, if◌then◌else◌, ◌==◌,
}
use goms.Rpc.Node.{
  Client, new_client, NodeInfo, NodeConn, Node, split_service_method, get_node_address,
  find_rpc_conn_by_service, is_local, connect_node, get_node, get_client, dialled,
}
use goms.Rpc.Node.Calls.{
  proto_call, proto_send, json_call, json_send, raw_call, raw_send, remote, call, send,
  json_call_method, json_send_method, raw_call_method, raw_send_method, broadcast, broadcast_call,
}
use goms.Rpc.Node.Lookup.{
  get_client_lem, get_node-redialled, first_in_region, first_client, or_else,
}
use goms.Rpc.Node.Routing.{target, deliver, calls-target, broadcast-all, own_part, others}

-- An address is reached if it is not blank.
abbrev pub dial : Bytes → Option ℕ
dial [] = none
dial (c ∷ s) = some c

abbrev logger : Bytes
logger = codes "Log"

abbrev pub info_of : Bytes → ℕ → NodeInfo
info_of name region = record {
  id = 3;
  name = name;
  node_type = codes "t";
  address = codes "a/b:1";
  services = [];
  region = region;
  set = [];
}

abbrev pub client_of : ℕ → ℕ → Client
client_of id region = record { id = id; region = region; is_close = false }

-- The peer "p" is connected in region 2, and the connection to "q" was lost.
abbrev pub node : Node
node = record {
  name = codes "me";
  region = 1;
  services = [];
  rpc_client =
      (
        codes "p",
        record { info = info_of (codes "p") 2; conn = some (client_of 5 2); close = false },
      )
      ∷ (
        codes "q",
        record {
          info = info_of (codes "q") 1;
          conn = some (record { id = 6; region = 1; is_close = true });
          close = false;
        },
      )
      ∷ [];
  service_node = (logger, (codes "p", tt) ∷ (codes "q", tt) ∷ []) ∷ [];
  cmd_service = [];
  mock_data = none;
}

abbrev method : Bytes
method = codes "Log.Write"

get_client_lem_example :
    (get_client dial logger node).0
    ≡ or_else
        (first_in_region 1 (find_rpc_conn_by_service dial logger node).0)
        (first_client (find_rpc_conn_by_service dial logger node).0)
get_client_lem_example = get_client_lem dial logger node

-- The peer registered region 1.
get_node-redialled_example : ((client_of 97 0).region ≡ 0) × ((client_of 97 0).is_close ≡ false)
unfolding goms.Base.bytes_eq goms.Rpc.Node.usable get_node
get_node-redialled_example =
    get_node-redialled dial (codes "q") node
      (record {
        info = info_of (codes "q") 1;
        conn = some (record { id = 6; region = 1; is_close = true });
        close = false;
      })
      (client_of 97 0) refl refl refl

calls-target_example :
    (call dial [] method node ≡ deliver dial proto_call (target [] method node) node)
    × (send dial [] method node ≡ deliver dial proto_send (target [] method node) node)
    × (json_call_method dial [] method node ≡ deliver dial json_call (target [] method node) node)
    × (json_send_method dial [] method node ≡ deliver dial json_send (target [] method node) node)
    × (raw_call_method dial [] method node ≡ deliver dial raw_call (target [] method node) node)
    × (raw_send_method dial [] method node ≡ deliver dial raw_send (target [] method node) node)
calls-target_example = calls-target dial [] method node

broadcast-all_example :
    ((broadcast dial method node).0
      ≡ own_part proto_send (is_local logger node)
        ++ map
            (remote proto_send)
            (others (codes "me") (find_rpc_conn_by_service dial logger node).0))
    × ((broadcast_call dial (λ name. true) method node).0
        ≡ own_part proto_call (is_local logger node)
          ++ map
              (remote proto_call)
              (others (codes "me") (find_rpc_conn_by_service dial logger node).0))
unfolding goms.Rpc.Node.call_mock split_service_method
broadcast-all_example = broadcast-all dial method node (λ name. true) refl (λ name. refl)
