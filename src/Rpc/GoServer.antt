-- ===== src/Rpc/GoServer.antt =====
-- rpc/go_server.go: the requests that a connection brings. `serve_codec` lists the responses by the
-- requests that they answer; the goroutines of the pool may write them in another order, as in Pool.
pub mod Answers
pub mod Pool
pub mod RoundTrip
pub mod Single
pub mod Tests
use goms.Base.{
  ℕ, zero, suc, ◌+◌, Bytes, codes, bytes_eq, bytes_Eq, lookup, insert, Option, none, some, List, [],
  ◌∷◌, ◌++◌, Bool, true, false, ◌&&◌, ◌||◌, not, if◌then◌else◌, ◌==◌, leb, length, take, drop,
}
use goms.Util.HashSet.{is_blank, is_some}
use goms.Rpc.Frame.{WireError, Result, ok, err, uint32, too_big}
use goms.Rpc.Coder.{
  Wire, Context, Request, Response, decode, marshalled, write_response, read_request_header,
}
use goms.Rpc.GoClient.{Codec}
use goms.Rpc.Services.{
  Returned, returned, panicked, MethodType, Signature, RegisterError, no_name, not_exported,
  no_methods, already_defined, Methods, Server, Found, found, refused, Called, replied, failed,
  crashed, ill_formed, is_suitable, suitable_methods, register_service, count_call, find_method,
  find_remote, find_local, outcome_of, internal_call, raw_call,
}
use goms.Rpc.Node.{split_last, split_service_method}

-- Where the reader stands behind a frame that was read, in whole or up to an error.
unfoldable pub behind_frame : Bytes → Bytes
behind_frame s =
    let size = uint32 (take 4 s) in
    if leb 4 (length s) then (if leb too_big size then drop 4 s else drop (4 + size) s) else []

-- readRequest: an error that ends the connection, a request that is refused with a text, or one to
-- call; and where the reader stands.
pub data Incoming (M : Type 0) : Type 0 where
  broken : WireError → Incoming M
  rejected : Request → Bytes → Bytes → Incoming M
  accepted : Request → MethodType M → M → Bytes → Incoming M

-- `null` is the empty message that answers an error, `text_of` what the errors of reading say.
module _ {M : Type 0} (codec : Codec M) (null : M) (text_of : WireError → Bytes) where
  open codec use {req_pb, req_json, rsp_pb, rsp_json, pb, json}

  unfoldable pub read_body : Request → Bytes → Found M → Incoming M
  unfolding behind_frame
  read_body req s (refused text) = rejected req text (behind_frame s)
  read_body req s (found m) = elim (decode m.arg_pb m.arg_json s req.raw) [
    | err e ↦ rejected req (text_of e) (behind_frame s)
    | ok (arg, rest) ↦ accepted req m arg rest
  ]

  unfoldable pub read_request : Server M → Bytes → Incoming M
  unfolding read_body find_remote
  read_request server s = elim (read_request_header req_pb req_json rsp_pb rsp_json pb json s) [
    | err e ↦ broken e
    | ok (req, rest) ↦ read_body req rest (find_remote req.service_method server)
  ]

  -- sendResponse: what is written, which is nothing if the response cannot be encoded.
  unfoldable pub send_response : Request → M → ℕ → Bytes → List Bytes
  send_response req reply ret errmsg =
      elim (write_response req_pb req_json rsp_pb rsp_json pb json
        (record {
          service_method = req.service_method;
          seq = req.seq;
          error = errmsg;
          ret = ret;
          raw = req.raw;
        })
        (if is_blank errmsg then reply else null)) [ err e ↦ [] | ok bytes ↦ bytes ∷ [] ]

  -- `service.call` behind the call of the function.
  unfoldable pub answer_call : Request → Returned M → List Bytes
  unfolding send_response
  answer_call req (returned ret reply errmsg) =
      if req.no_resp then [] else send_response req reply ret errmsg
  answer_call req panicked =
      if req.no_resp then [] else send_response req null 1 (codes "server exception")

  unfoldable pub refuse : Request → Bytes → List Bytes
  unfolding send_response
  refuse req text = if req.no_resp then [] else send_response req null 0 text

  -- ServeCodec: the responses, and the server with its counts.
  unfoldable pub serve_codec : ℕ → Bytes → Server M → List Bytes × Server M
  unfolding read_request answer_call refuse
  serve_codec zero s server = ([], server)
  serve_codec (suc fuel) s server = elim (read_request server s) [
    | broken e ↦ ([], server)
    | rejected req text rest ↦
        let (out, after) = serve_codec fuel rest server in (refuse req text ++ out, after)
    | accepted req m arg rest ↦
        let (out, after) = serve_codec fuel rest (count_call req.service_method server) in
        (answer_call req (m.function req.conn arg) ++ out, after)
  ]

  -- What ServeRequest does with one request: an error of the connection, or the text that it
  -- returns, if any, what is written, the server, and where the reader stands.
  pub data Served : Type 0 where
    stopped : WireError → Served
    served : Option Bytes → List Bytes → Server M → Bytes → Served

  unfoldable pub serve_request : Bytes → Server M → Served
  unfolding read_request answer_call refuse
  serve_request s server = elim (read_request server s) [
    | broken e ↦ stopped e
    | rejected req text rest ↦ served (some text) (refuse req text) server rest
    | accepted req m arg rest ↦
        served none (answer_call req (m.function req.conn arg))
          (count_call req.service_method server) rest
  ]
