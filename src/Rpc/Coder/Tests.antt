-- ===== src/Rpc/Coder/Tests.antt =====
-- Exchanges of rpc/coder.go over a small encoding, and the theorems at these exchanges.
use goms.Base.{Bytes, codes, [], ◌∷◌, ◌++◌, true, false, none, ◌≡◌, refl, arith, take}
use goms.Rpc.Frame.{ok, read_frame}
use goms.Rpc.Frame.RoundTrip.{frame, read_frame-Truncated, Truncated}
use goms.Rpc.Coder.{
  Request, Response, read_request_header, write_request, write_byte_request, decode,
}
use goms.Rpc.Coder.Wires.{req_wire, rsp_wire, body_wire}
use goms.Rpc.Coder.Exchange.{read-write_request, read-write_byte_request, received}

abbrev request : Request
request = record {
  service_method = codes "Log.Write";
  seq = 7;
  no_resp = true;
  conn = none;
  raw = 0;
}

abbrev response : Response
response = record { service_method = codes "Log.Write"; seq = 7; error = []; ret = 3; raw = 0 }

read-write_request_example :
    (bytes : Bytes) × (write_request req_wire req_wire rsp_wire rsp_wire body_wire body_wire request
        9
      ≡ ok bytes)
    × (read_request_header req_wire req_wire rsp_wire rsp_wire body_wire body_wire
          (bytes ++ codes "x")
        ≡ ok (received request, frame (9 ∷ []) ++ codes "x"))
    × (decode body_wire body_wire (frame (9 ∷ []) ++ codes "x") 0 ≡ ok (9, codes "x"))
read-write_request_example =
    read-write_request req_wire req_wire rsp_wire rsp_wire body_wire body_wire request 9
      (7 ∷ 1 ∷ 0 ∷ codes "Log.Write") (9 ∷ []) (codes "x") refl (omega arith) refl (omega arith)

read-write_byte_request_example :
    (bytes : Bytes) × (write_byte_request req_wire req_wire rsp_wire rsp_wire body_wire body_wire
        request
        (codes "{}")
      ≡ ok bytes)
    × (read_request_header req_wire req_wire rsp_wire rsp_wire body_wire body_wire
          (bytes ++ codes "x")
        ≡ ok (record (received request) { no_resp = false }, frame (codes "{}") ++ codes "x"))
    × (read_frame (frame (codes "{}") ++ codes "x") ≡ ok (codes "{}", codes "x"))
read-write_byte_request_example =
    read-write_byte_request req_wire req_wire rsp_wire rsp_wire body_wire body_wire request
      (codes "{}") (7 ∷ 0 ∷ 0 ∷ codes "Log.Write") (codes "x") refl (omega arith) (omega arith)

read_frame-Truncated_example : Truncated (read_frame (take 5 (frame (codes "abc"))))
read_frame-Truncated_example = read_frame-Truncated (codes "abc") 5 (omega arith) (omega arith)
