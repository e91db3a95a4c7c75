-- ===== src/Rpc/Http/Paths.antt =====
-- The paths of rpc/http.go.
use goms.Base.{
  ℕ, Bytes, codes, bytes_eq, Option, List, [], ◌∷◌, ◌++◌, append-nil, All, ◌≡◌, ap, arith, ◌∙◌,
}
use goms.Rpc.Coder.{Context}
use goms.Rpc.Node.{Node, split_on}
use goms.Rpc.Node.Lookup.{Lacks, split_parts-append, split_parts-none}
use goms.Rpc.Node.Calls.{Outcome}
use goms.Rpc.Http.{
  HttpRequest, Performed, get_remote2, http_context, method_name, json_reply, rpc_route,
  rpc_handler,
}

pub split_on-append :
    (sep : ℕ) (s rest : Bytes)
    → Lacks sep s
    → split_on sep (s ++ sep ∷ rest) ≡ s ∷ split_on sep rest
unfolding split_on
split_on-append sep s rest h = ground (arith, split_parts-append sep s rest h)

pub split_on-none : (sep : ℕ) (s : Bytes) → Lacks sep s → split_on sep s ≡ s ∷ []
unfolding split_on
split_on-none sep s h = ground (arith, split_parts-none sep s h)

-- The path with these parts.
abbrev pub path_of : List Bytes → Bytes
path_of [] = []
path_of (part ∷ parts) = b'/' ∷ (part ++ path_of parts)

split_parts_of :
    (part : Bytes) (parts : List Bytes)
    → All (Lacks b'/') (part ∷ parts)
    → split_on b'/' (part ++ path_of parts) ≡ part ∷ parts
split_parts_of part [] (h, _) = ap (split_on b'/') (append-nil part) ∙ split_on-none b'/' part h
split_parts_of part (next ∷ parts) (h, hs) =
    split_on-append b'/' part (next ++ path_of parts) h
    ∙ ap (λ p. part ∷ p) (split_parts_of next parts hs)

pub split_on-path_of :
    (part : Bytes) (parts : List Bytes)
    → All (Lacks b'/') (part ∷ parts)
    → split_on b'/' (path_of (part ∷ parts)) ≡ [] ∷ part ∷ parts
split_on-path_of part parts h =
    split_on-append b'/' [] (part ++ path_of parts) tt
    ∙ ap (λ p. [] ∷ p) (split_parts_of part parts h)

root_Lacks : Lacks b'/' (codes "rpcapi")
root_Lacks = omega arith

module _ (dial : Bytes → Option ℕ) (perform : Outcome → Context → Bytes → Performed) where
  -- For names without slashes, the path /rpcapi/service/method calls the method of the service at
  -- any node that offers it, and /rpcapi/name/service/method calls it at the node of that name;
  -- the service and the method get a capital.
  pub rpc_handler-path_of :
      (req : HttpRequest) (buff : Bytes) (node : Node) (name service method : Bytes)
      → Lacks b'/' name
      → Lacks b'/' service
      → Lacks b'/' method
      → let context = http_context (get_remote2 req.forwarded req.remote_ip) [] in
        (rpc_handler dial perform
            (record req { path = path_of (codes "rpcapi" ∷ service ∷ method ∷ []) })
            buff
            node
          ≡ json_reply dial perform [] (method_name service method) context buff node)
        × (rpc_handler dial perform
              (record req { path = path_of (codes "rpcapi" ∷ name ∷ service ∷ method ∷ []) })
              buff
              node
            ≡ json_reply dial perform name (method_name service method) context buff node)
  unfolding rpc_handler rpc_route bytes_eq
  rpc_handler-path_of req buff node name service method hn hs hm = (
    ap (λ parts. rpc_route dial perform parts (get_remote2 req.forwarded req.remote_ip) buff node)
        (split_on-path_of (codes "rpcapi") (service ∷ method ∷ []) (root_Lacks, (hs, (hm, tt)))),
    ap (λ parts. rpc_route dial perform parts (get_remote2 req.forwarded req.remote_ip) buff node)
        (split_on-path_of (codes "rpcapi") (name ∷ service ∷ method ∷ [])
          (root_Lacks, (hn, (hs, (hm, tt))))),
  )
