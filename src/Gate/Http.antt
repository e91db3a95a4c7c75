-- ===== src/Gate/Http.antt =====
-- gnet/http.go and gnet/fast_http.go: the calls of services over HTTP, once over net/http and once
-- over fasthttp. A method other than POST is refused by the handler of the one and by the router of
-- the other.
pub mod Same
pub mod Tests
use goms.Base.{
  ℕ, Bytes, codes, Option, none, some, List, [], ◌∷◌, Bool, true, false, ◌&&◌, not, if◌then◌else◌,
  bytes_eq,
}
use goms.Util.HashSet.{is_blank}
use goms.Rpc.Coder.{Context}
use goms.Rpc.Node.{Node, split_on, split_parts}
use goms.Rpc.Node.Calls.{Outcome}
use goms.Rpc.Http.{
  HttpRequest, Reply, bad_method, bad_address, bad_body, Performed, get_remote2, http_context,
  method_name, json_reply,
}

-- getRemote, of the peer's address with its port.
unfoldable pub get_remote : Bytes → Bytes → Bytes
unfolding split_parts
get_remote forwarded remote_addr =
    let ip =
      if not (is_blank forwarded) && not (bytes_eq forwarded (codes "unknown"))
      then (split_parts b',' forwarded).0
      else forwarded in
    if is_blank ip then (split_parts b':' remote_addr).0 else ip

module _ (dial : Bytes → Option ℕ) (perform : Outcome → Context → Bytes → Performed) where
  -- The service and the method of a path under /api/.
  abbrev pub api_route : List Bytes → Option (Bytes × Bytes)
  api_route (_ ∷ root ∷ service ∷ method ∷ []) =
      if bytes_eq root (codes "api") then some (service, method) else none
  api_route _ = none

  unfoldable pub protected_handler : HttpRequest → Node → Reply × Node
  protected_handler req node =
      if not (bytes_eq req.method (codes "POST"))
      then (bad_method, node)
      else elim (api_route (split_on b'/' req.path)) [
        | none ↦ (bad_address, node)
        | some (service, method) ↦ elim req.body [
          | none ↦ (bad_body, node)
          | some buff ↦
              json_reply dial perform [] (method_name service method)
                (http_context (get_remote req.forwarded req.remote_addr) req.query) buff node
        ]
      ]

  -- ProtectedHandler2, with the posted body.
  unfoldable pub protected_handler2 : HttpRequest → Bytes → Node → Reply × Node
  protected_handler2 req buff node = elim (api_route (split_on b'/' req.path)) [
    | none ↦ (bad_address, node)
    | some (service, method) ↦
        json_reply dial perform [] (method_name service method)
          (http_context (get_remote2 req.forwarded req.remote_ip) []) buff node
  ]
