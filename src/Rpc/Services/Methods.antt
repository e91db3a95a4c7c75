-- ===== src/Rpc/Services/Methods.antt =====
-- The three entrances of rpc/go_server.go find a method in the same services.
use goms.Base.{
  Bytes, codes, bytes_Eq, bytes_eq_refl, lookup, lookup-insert, Option, none, some, List, ◌∷◌, ◌++◌,
  Bool, false, if◌then◌else◌, ◌≡◌, arith,
}
use goms.Util.HashSet.{is_blank, is_some}
use goms.Rpc.Coder.{Context}
use goms.Rpc.Node.{split_service_method}
use goms.Rpc.Node.Lookup.{Lacks, split_last-append}
use goms.Rpc.Services.{
  failed, Server, Signature, found, refused, count_call, suitable_methods, register_service,
  find_method, find_remote, find_local, outcome_of, internal_call,
}

module _ {M : Type 0} where
  -- What InternalCall says where it refuses a method with both parts.
  abbrev pub refusal : Bytes → Bytes → Server M → Bytes
  refusal service method server =
      if is_some (lookup service server.service_map)
      then codes "rpc2: can't find method " ++ method
      else codes "rpc: can't find service " ++ service

  -- For a service and a method with names that are not blank, the latter without dots,
  -- InternalCall runs and counts the method that a remote request would run, and fails where that
  -- is refused, without counting.
  pub internal_call-find_remote :
      (conn : Option Context) (arg : M) (service method : Bytes) (server : Server M)
      → is_blank service ≡ false
      → is_blank method ≡ false
      → Lacks b'.' method
      → let name = service ++ b'.' ∷ method in
        internal_call conn name arg server ≡ elim (find_remote name server) [
          | found m ↦ (outcome_of (m.function conn arg), count_call name server)
          | refused text ↦ (failed (refusal service method server), server)
        ]
  unfolding internal_call find_local find_remote find_method split_service_method
  internal_call-find_remote conn arg service method server s m l =
      ground (arith, split_last-append service method l)

  -- After a registration without an error, a remote request for the service with a method's name
  -- without dots finds the suitable method of that name, and is refused if there is none.
  pub register_service-find_remote :
      (type_name : Bytes) (exported : Bool) (name : Bytes) (use_name : Bool)
      (signatures : List (Signature M)) (server : Server M) (method : Bytes)
      → Lacks b'.' method
      → let (after, error) = register_service type_name exported name use_name signatures server in
        let sname = if use_name then name else type_name in
        error ≡ none
        → find_remote (sname ++ b'.' ∷ method) after
          ≡ elim (lookup method (suitable_methods signatures)) [
            | none ↦ refused (codes "rpc3: can't find method " ++ sname ++ b'.' ∷ method)
            | some m ↦ found m
          ]
  unfolding register_service find_remote find_method
  register_service-find_remote type_name exported name use_name signatures server method l e =
      let sname = if use_name then name else type_name in
      ground (
        arith,
        split_last-append sname method l,
        lookup-insert sname sname (suitable_methods signatures) server.service_map,
        bytes_eq_refl sname,
      )
