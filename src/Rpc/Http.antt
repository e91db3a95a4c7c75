-- ===== src/Rpc/Http.antt =====
-- rpc/http.go: rpc calls over HTTP. A request is what the handler reads of it, and a reply the body
-- that is written, with the texts of the refusals by their kind; the listener and its router, which
-- hands POST requests for /rpcapi/ over, are other packages; the headers of a reply are left out.
pub mod Paths
pub mod Tests
use goms.Base.{
  ℕ, Bytes, codes, Option, none, some, List, [], ◌∷◌, ◌++◌, Bool, true, false, ◌&&◌, ◌||◌, not,
  if◌then◌else◌, ◌==◌, length, bytes_eq,
}
use goms.Util.HashSet.{is_blank}
use goms.Util.Misc.{upper}
use goms.Rpc.Coder.{Context}
use goms.Rpc.Node.{Node, split_parts, split_on}
use goms.Rpc.Node.Calls.{Outcome, json_call, node_call, json_call_method}

-- `forwarded` is the header x-forwarded-for, blank if there is none, and `body` nothing if it
-- cannot be read. `remote_addr` is the address with its port that net/http gives, and `remote_ip` the
-- address without it that fasthttp gives; a query has the first value of each of its names.
pub record HttpRequest : Type 0 where
  pub method : Bytes
  pub path : Bytes
  pub forwarded : Bytes
  pub remote_addr : Bytes
  pub remote_ip : Bytes
  pub query : List (Bytes × Bytes)
  pub body : Option Bytes

pub data Reply : Type 0 where
  answered : Bytes → Reply
  bad_method : Reply
  bad_address : Reply
  bad_body : Reply
  call_failed : Bytes → Reply

-- What a call of a service ends with: its answer, an error, or a panic.
pub data Performed : Type 0 where
  done : Bytes → Performed
  failed : Bytes → Performed
  crashed : Performed

-- getRemote2, of the peer's IP address without a port.
unfoldable pub get_remote2 : Bytes → Bytes → Bytes
unfolding split_parts
get_remote2 forwarded remote_ip =
    let ip =
      if not (is_blank forwarded) && not (bytes_eq forwarded (codes "unknown"))
      then (split_parts b',' forwarded).0
      else forwarded in
    if is_blank ip then (split_parts b':' remote_ip).0 else ip

abbrev pub body_of : Bytes → Bytes
body_of buff = if is_blank buff then codes "{}" else buff

-- ProtectCall around the call, and what is written of its end.
abbrev pub written : Performed → Reply
written (done buff) = answered buff
written (failed text) = call_failed text
written crashed = call_failed (codes "server internal error")

abbrev pub http_context : Bytes → List (Bytes × Bytes) → Context
http_context remote kvs = record {
  gate_name = [];
  remote = remote;
  id = 0;
  token = [];
  uid = 0;
  nodes = [];
  call_id = 0;
  game = [];
  kvs = kvs;
  ps = [];
}

abbrev pub method_name : Bytes → Bytes → Bytes
method_name service method = upper service 1 ++ b'.' ∷ upper method 1

module _ (dial : Bytes → Option ℕ) (perform : Outcome → Context → Bytes → Performed) where
  -- JsonCall for an HTTP request, by the method's name.
  unfoldable pub json_reply : Bytes → Bytes → Context → Bytes → Node → Reply × Node
  unfolding node_call json_call_method
  json_reply node_name method context buff node =
      let (outcome, node') =
        if not (is_blank node_name)
        then node_call dial json_call node_name method node
        else json_call_method dial context.nodes method node in
      (written (perform outcome context (body_of buff)), node')

  -- What follows the split of the path.
  unfoldable pub rpc_route : List Bytes → Bytes → Bytes → Node → Reply × Node
  rpc_route (_ ∷ root ∷ service ∷ method ∷ []) remote buff node =
      if bytes_eq root (codes "rpcapi")
      then json_reply [] (method_name service method) (http_context remote []) buff node
      else (bad_address, node)
  rpc_route (_ ∷ root ∷ name ∷ service ∷ method ∷ []) remote buff node =
      if bytes_eq root (codes "rpcapi")
      then json_reply name (method_name service method) (http_context remote []) buff node
      else (bad_address, node)
  rpc_route _ remote buff node = (bad_address, node)

  -- rpcHandler, with the posted body.
  unfoldable pub rpc_handler : HttpRequest → Bytes → Node → Reply × Node
  rpc_handler req buff node =
      rpc_route (split_on b'/' req.path) (get_remote2 req.forwarded req.remote_ip) buff node
