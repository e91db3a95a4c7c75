-- ===== src/Gate/Http/Tests.antt =====
-- A request of the API servers, and the theorem at it.
use goms.Base.{codes, [], ◌∷◌, ◌≡◌, refl, arith}
use goms.Rpc.Node.Tests.{dial, node}
use goms.Rpc.Http.{HttpRequest, get_remote2, rpc_handler}
use goms.Rpc.Http.Tests.{request, perform}
use goms.Rpc.Http.Paths.{path_of}
use goms.Gate.Http.{get_remote, protected_handler, protected_handler2}
use goms.Gate.Http.Same.{handlers-rpc_handler}

abbrev api : HttpRequest
api = record request { path = path_of (codes "api" ∷ codes "log" ∷ codes "write" ∷ []) }

abbrev rpcapi : HttpRequest
rpcapi = record request { path = path_of (codes "rpcapi" ∷ codes "log" ∷ codes "write" ∷ []) }

handlers-rpc_handler_example :
    (protected_handler dial perform api node ≡ rpc_handler dial perform rpcapi (codes "{}") node)
    × (protected_handler2 dial perform api (codes "{}") node
        ≡ rpc_handler dial perform rpcapi (codes "{}") node)
handlers-rpc_handler_example =
    handlers-rpc_handler dial perform request (codes "{}") node (codes "log") (codes "write")
      (codes "80") refl refl refl (omega arith) (omega arith) (omega arith) refl

-- Of an IPv6 caller one API server passes on a bracket, and the other nothing.
get_remote_test : get_remote [] (codes "[::1]:80") ≡ codes "["
unfolding get_remote
get_remote_test = refl

get_remote2_test : get_remote2 [] (codes "::1") ≡ []
unfolding get_remote2
get_remote2_test = refl
