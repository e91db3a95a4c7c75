-- ===== src/Rpc/Services/Tests.antt =====
-- A service of rpc/go_server.go with one method, and the theorems at its calls.
use goms.Base.{
  ℕ, nat_eq, Bytes, codes, zero, suc, ◌+◌, ◌==◌, ◌++◌, lookup, length, Option, none, some, List, [],
  ◌∷◌, Bool, true, false, ◌≡◌, refl, arith, ap, sym, ◌<◌, ◌^◌,
}
use goms.Rpc.Coder.Wires.{body_wire}
use goms.Rpc.Services.{
  Returned, returned, MethodType, Signature, Server, Found, found, refused, find_remote,
  register_service, internal_call, replied, count_call,
}
use goms.Rpc.Services.Methods.{internal_call-find_remote, register_service-find_remote}

-- The method answers the code 3 and the double of its argument.
abbrev pub double : MethodType ℕ
double = record {
  arg_pb = body_wire;
  arg_json = body_wire;
  function = λ conn n. returned 3 (n + n) [];
}

abbrev signature : Signature ℕ
signature = record {
  name = codes "Double";
  exported = true;
  num_in = 4;
  arg_exported = true;
  reply_pointer = true;
  reply_exported = true;
  num_out = 2;
  second_is_error = true;
  first_is_uint16 = true;
  method = double;
}

abbrev pub server : Server ℕ
server = record { service_map = (codes "Math", (codes "Double", double) ∷ []) ∷ []; num_calls = [] }

register_service-find_remote_example :
    find_remote
      (codes "Math" ++ b'.' ∷ codes "Double")
      (register_service
        (codes "Math")
        true
        []
        false
        (signature ∷ [])
        (record { service_map = []; num_calls = [] })).0
    ≡ found double
unfolding register_service goms.Rpc.Services.suitable_methods goms.Base.bytes_eq
register_service-find_remote_example =
    register_service-find_remote (codes "Math") true [] false (signature ∷ [])
      (record { service_map = []; num_calls = [] }) (codes "Double") (ground arith) refl

internal_call-find_remote_example :
    internal_call none (codes "Math" ++ b'.' ∷ codes "Double") 4 server
    ≡ (replied 3 8, count_call (codes "Math.Double") server)
unfolding find_remote goms.Rpc.Node.split_last goms.Base.bytes_eq
internal_call-find_remote_example =
    internal_call-find_remote none 4 (codes "Math") (codes "Double") server refl refl (ground arith)
