-- ===== src/Rpc/Http/Tests.antt =====
-- A request of rpc/http.go, and the theorem at it.
use goms.Base.{bytes_eq, Bytes, codes, some, [], ◌∷◌, ◌≡◌, refl, arith}
use goms.Util.Misc.{upper}
use goms.Rpc.Coder.{Context}
use goms.Rpc.Node.Calls.{Outcome}
use goms.Rpc.Node.Tests.{dial, node}
use goms.Rpc.Http.{HttpRequest, Performed, done, get_remote2, http_context, json_reply, rpc_handler}
use goms.Rpc.Http.Paths.{path_of, rpc_handler-path_of}

abbrev pub request : HttpRequest
request = record {
  method = codes "POST";
  path = [];
  forwarded = codes "10.0.0.1,10.0.0.2";
  remote_addr = codes "127.0.0.1:80";
  remote_ip = codes "127.0.0.1";
  query = [];
  body = some (codes "{}");
}

abbrev pub perform : Outcome → Context → Bytes → Performed
perform outcome context body = done context.remote

first_hop : get_remote2 request.forwarded request.remote_ip ≡ codes "10.0.0.1"
unfolding get_remote2 bytes_eq
first_hop = refl

-- The word "unknown" is taken for the address.
unknown_hop : get_remote2 (codes "unknown") request.remote_ip ≡ codes "unknown"
unfolding get_remote2 bytes_eq
unknown_hop = refl

rpc_handler-path_of_example :
    (rpc_handler dial perform
        (record request { path = path_of (codes "rpcapi" ∷ codes "log" ∷ codes "write" ∷ []) })
        (codes "{}")
        node
      ≡ json_reply dial perform []
          (codes "Log.Write")
          (http_context (get_remote2 request.forwarded request.remote_ip) [])
          (codes "{}")
          node)
    × (rpc_handler dial perform
          (record request {
            path = path_of (codes "rpcapi" ∷ codes "p" ∷ codes "log" ∷ codes "write" ∷ []);
          })
          (codes "{}")
          node
        ≡ json_reply dial perform
            (codes "p")
            (codes "Log.Write")
            (http_context (get_remote2 request.forwarded request.remote_ip) [])
            (codes "{}")
            node)
unfolding upper
rpc_handler-path_of_example =
    rpc_handler-path_of dial perform request (codes "{}") node (codes "p") (codes "log")
      (codes "write") (omega arith) (omega arith) (omega arith)
