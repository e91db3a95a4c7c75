-- ===== src/Gate/Http/Same.antt =====
-- The gateways of gnet/http.go, gnet/fast_http.go and rpc/http.go make the same calls.
use goms.Base.{
  ℕ, Bytes, codes, bytes_eq, bytes_eq_refl, true, Option, some, [], ◌∷◌, ◌++◌, ◌≡◌, refl, sym, ap,
  arith, ◌∙◌,
}
use goms.Rpc.Coder.{Context}
use goms.Rpc.Node.{Node, split_on}
use goms.Rpc.Node.Lookup.{Lacks, split_parts-append, split_parts-none}
use goms.Rpc.Node.Calls.{Outcome}
use goms.Rpc.Http.{HttpRequest, Performed, get_remote2, rpc_handler}
use goms.Rpc.Http.Paths.{path_of, split_on-path_of, rpc_handler-path_of}
use goms.Gate.Http.{get_remote, api_route, protected_handler, protected_handler2}

api_Lacks : Lacks b'/' (codes "api")
api_Lacks = omega arith

-- An IPv4 address stands before the colon of its port.
get_remote-get_remote2 :
    (forwarded ip port : Bytes)
    → Lacks b':' ip
    → get_remote forwarded (ip ++ b':' ∷ port) ≡ get_remote2 forwarded ip
unfolding get_remote get_remote2
get_remote-get_remote2 forwarded ip port h =
    rw (split_parts-append b':' ip port h, split_parts-none b':' ip h) refl

module _ (dial : Bytes → Option ℕ) (perform : Outcome → Context → Bytes → Performed) where
  api_path : Bytes → Bytes → Bytes
  api_path service method = path_of (codes "api" ∷ service ∷ method ∷ [])

  api_route-api_path :
      (service method : Bytes)
      → Lacks b'/' service
      → Lacks b'/' method
      → api_route dial perform (split_on b'/' (api_path service method)) ≡ some (service, method)
  unfolding api_path bytes_eq
  api_route-api_path service method hs hm =
      ap (api_route dial perform)
        (split_on-path_of (codes "api") (service ∷ method ∷ []) (api_Lacks, (hs, (hm, tt))))

  -- For a POST request without a query and with a body that can be read, from an IPv4 address,
  -- which net/http gives with a port and fasthttp without, and names without slashes: the path
  -- /api/service/method of either API server is answered as /rpcapi/service/method of the rpc
  -- gateway.
  pub handlers-rpc_handler :
      (req : HttpRequest) (buff : Bytes) (node : Node) (service method port : Bytes)
      → req.method ≡ codes "POST"
      → req.query ≡ []
      → req.body ≡ some buff
      → Lacks b'/' service
      → Lacks b'/' method
      → Lacks b':' req.remote_ip
      → req.remote_addr ≡ req.remote_ip ++ b':' ∷ port
      → let api = record req { path = path_of (codes "api" ∷ service ∷ method ∷ []) } in
        let rpcapi = record req { path = path_of (codes "rpcapi" ∷ service ∷ method ∷ []) } in
        (protected_handler dial perform api node ≡ rpc_handler dial perform rpcapi buff node)
        × (protected_handler2 dial perform api buff node
            ≡ rpc_handler dial perform rpcapi buff node)
  unfolding protected_handler protected_handler2 api_path rpc_handler
  handlers-rpc_handler req buff node service method port post plain body hs hm hi ported =
      let same = (rpc_handler-path_of dial perform req buff node [] service method tt hs hm).0 in
      let route = api_route-api_path service method hs hm in
      let posted : bytes_eq req.method (codes "POST") ≡ true =
        ap (λ m. bytes_eq m (codes "POST")) post ∙ bytes_eq_refl (codes "POST") in
      let remote : get_remote req.forwarded req.remote_addr
          ≡ get_remote2 req.forwarded req.remote_ip =
        ap (get_remote req.forwarded) ported
        ∙ get_remote-get_remote2 req.forwarded req.remote_ip port hi in
      (
        simp (posted, route, body, plain, remote) (sym same),
        rw (route, protected_handler2) (sym same),
      )
