-- ===== src/Rpc/GoClient.antt =====
-- rpc/go_client.go: the calls of one client. A call object is a number, counted by `made`; `done`
-- holds the first completion that its own channel took, which has room for one. Each part of the
-- code that holds the client's lock is a function of its own, since other goroutines run between.
pub mod Rounds
pub mod Liveness
pub mod Steps
pub mod Tests
use goms.Base.{
  ℕ, zero, suc, ◌+◌, ◌%◌, ◌^◌, Bytes, nat_eq, lookup, insert, remove, Option, none, some, List, [],
  ◌∷◌, Bool, true, false, not, ◌||◌, if◌then◌else◌, ◌==◌,
}
use goms.Util.HashSet.{is_blank}
use goms.Rpc.Frame.{WireError, eof, unexpected_eof, bad_message, Result, ok, err, read_frame}
use goms.Rpc.Coder.{
  Wire, Context, ReqHeader, RspHeader, Request, Response, decode, skip_body, write_request,
  write_byte_request, read_response_header,
}

-- The encodings of the headers and of the bodies.
pub record Codec (M : Type 0) : Type 0 where
  pub req_pb : Wire ReqHeader
  pub req_json : Wire ReqHeader
  pub rsp_pb : Wire RspHeader
  pub rsp_json : Wire RspHeader
  pub pb : Wire M
  pub json : Wire M

-- The `Args` and the `Reply` of a call: a message, or the bytes of one.
pub data Body (M : Type 0) : Type 0 where
  message : M → Body M
  raw_bytes : Bytes → Body M

pub data CallError : Type 0 where
  shut_down : CallError
  lost_connection : CallError
  timeout : CallError
  wire : WireError → CallError
  server_error : Bytes → CallError
  reading_body : WireError → CallError
  reading_error_body : WireError → CallError

pub record CallInfo (M : Type 0) : Type 0 where
  pub id : ℕ
  pub service_method : Bytes
  pub args : Body M
  pub raw : ℕ
  pub conn : Option Context
  pub no_resp : Bool

-- `Ret`, `Error` and `Reply` of a call that is done.
pub record Completion (M : Type 0) : Type 0 where
  pub ret : ℕ
  pub error : Option CallError
  pub reply : Option (Body M)

pub record Client (M : Type 0) : Type 0 where
  pub seq : ℕ
  pub pending : List (ℕ × CallInfo M)
  pub closing : Bool
  pub shutdown : Bool
  pub made : ℕ
  pub done : List (ℕ × Completion M)

-- What a round of `input` leaves: the bytes behind the response, or the error that ends the loop.
pub data Next : Type 0 where
  go_on : Bytes → Next
  stop : CallError → Next

abbrev pub skipped : Result Bytes → Next
skipped (ok rest) = go_on rest
skipped (err e) = stop (reading_error_body e)

abbrev pub is_eof : CallError → Bool
is_eof (wire eof) = true
is_eof _ = false

-- The error that the pending calls get: a plain end of the connection is one of these two.
abbrev pub final_error : Bool → CallError → CallError
final_error closing e = if is_eof e then (if closing then shut_down else wire unexpected_eof) else e

module _ {M : Type 0} where
  abbrev pub new_client : Client M
  new_client = record {
    seq = 0;
    pending = [];
    closing = false;
    shutdown = false;
    made = 0;
    done = [];
  }

  abbrev pub failure : ℕ → CallError → Completion M
  failure ret e = record { ret = ret; error = some e; reply = none }

  -- `call.done()`: a full channel takes nothing.
  abbrev pub put_done : ℕ → Completion M → List (ℕ × Completion M) → List (ℕ × Completion M)
  put_done id r done = elim (lookup id done) [ none ↦ insert id r done | some old ↦ done ]

  unfoldable pub complete : ℕ → Completion M → Client M → Client M
  complete id r c = record c { done = put_done id r c.done }

  -- Go and RawGo up to `send`: the new call object.
  abbrev pub new_call : Bytes → Body M → ℕ → Option Context → Bool → Client M → CallInfo M
  new_call method args raw conn no_resp c = record {
    id = c.made;
    service_method = method;
    args = args;
    raw = raw;
    conn = conn;
    no_resp = no_resp;
  }

  -- The first part of `send`: the call's number, or `none` for a client that is shut down.
  unfoldable pub register : CallInfo M → Client M → Client M × Option ℕ
  unfolding complete
  register call c =
      if c.shutdown || c.closing
      then (complete call.id (failure 0 shut_down) (record c { made = call.id + 1 }), none)
      else (
        record c {
          seq = (c.seq + 1) % 2 ^ 64;
          pending = if call.no_resp then c.pending else insert c.seq call c.pending;
          made = call.id + 1;
        },
        some c.seq,
      )

  abbrev pub request_of : ℕ → CallInfo M → Request
  request_of seq call = record {
    service_method = call.service_method;
    seq = seq;
    no_resp = call.no_resp;
    conn = call.conn;
    raw = call.raw;
  }

  -- The last part of `send`, for a request that could not be written. The call is done right after the
  -- lock is free, by its owner alone, and so in this step.
  unfoldable pub fail_pending : ℕ → CallError → Client M → Client M
  unfolding complete
  fail_pending seq e c =
      let left = record c { pending = remove seq c.pending } in
      elim (lookup seq c.pending) [ none ↦ left | some call ↦ complete call.id (failure 0 e) left ]

  unfoldable pub send_written : ℕ → CallInfo M → Option CallError → Client M → Client M
  unfolding fail_pending
  send_written seq call error c =
      if call.no_resp then c else elim error [ none ↦ c | some e ↦ fail_pending seq e c ]

  unfoldable pub complete_all : List (ℕ × CallInfo M) → CallError → Client M → Client M
  unfolding complete
  complete_all [] e c = c
  complete_all ((seq, call) ∷ calls) e c = complete_all calls e (complete call.id (failure 0 e) c)

  -- The end of `input`: the client, and the error that the CloseCallback is called with, if it is.
  unfoldable pub terminate : CallError → Client M → Client M × Option CallError
  unfolding complete_all
  terminate error c =
      let e = final_error c.closing error in
      (complete_all c.pending e (record c { shutdown = true }), if c.closing then some e else none)

  -- Close: whether it closed the connection. Closing again is ErrShutdown and changes nothing.
  unfoldable pub close : Client M → Client M × Bool
  close c = (record c { closing = true }, not c.closing)

  abbrev pub is_close : Client M → Bool
  is_close c = c.shutdown || c.closing

module _ {M : Type 0} (codec : Codec M) where
  open codec use {req_pb, req_json, rsp_pb, rsp_json, pb, json}

  -- WriteRequest or WriteByteRequest, by the call's `Raw`; bytes are no message. A message comes with
  -- the `Raw` 0 from every caller; with another the code panics.
  unfoldable pub write_call : Request → Body M → Result Bytes
  write_call req (message m) = write_request req_pb req_json rsp_pb rsp_json pb json req m
  write_call req (raw_bytes buf) =
      if req.raw == 0
      then err bad_message
      else write_byte_request req_pb req_json rsp_pb rsp_json pb json req buf

  -- `send` with nothing between its parts; `fault` is an error of the connection. The bytes are
  -- what was written.
  unfoldable pub send : Option CallError → CallInfo M → Client M → Client M × Bytes
  unfolding register send_written write_call
  send fault call c =
      let (registered, number) = register call c in
      elim number [
        | none ↦ (registered, [])
        | some seq ↦ elim (write_call (request_of seq call) call.args) [
          | err e ↦ (send_written seq call (some (wire e)) registered, [])
          | ok bytes ↦ (send_written seq call fault registered, bytes)
        ]
      ]

  -- ReadResponseBody for a message, ReadByteResponseBody for bytes.
  unfoldable pub read_reply : CallInfo M → Bytes → Result (Body M × Bytes)
  read_reply call s =
      if call.raw == 0
      then elim (decode pb json s 0) [ err e ↦ err e | ok (m, rest) ↦ ok (message m, rest) ]
      else elim (read_frame s) [ err e ↦ err e | ok (buf, rest) ↦ ok (raw_bytes buf, rest) ]

  -- The `default` of the switch in `input`.
  unfoldable pub take_reply : Response → CallInfo M → Bytes → Client M → Client M × Next
  unfolding read_reply complete
  take_reply resp call s c = elim (read_reply call s) [
    | err e ↦ (complete call.id (failure resp.ret (reading_body e)) c, stop (wire e))
    | ok (reply, rest) ↦ (
      complete call.id (record { ret = resp.ret; error = none; reply = some reply }) c,
      go_on rest,
    )
  ]

  -- The switch: whom the response is for.
  unfoldable pub dispatch : Response → Option (CallInfo M) → Bytes → Client M → Client M × Next
  unfolding take_reply complete
  dispatch resp none s c = (c, skipped (skip_body s))
  dispatch resp (some call) s c =
      if is_blank resp.error
      then take_reply resp call s c
      else (complete call.id (failure 0 (server_error resp.error)) c, skipped (skip_body s))

  -- One round of the loop in `input`.
  unfoldable pub input_round : Bytes → Client M → Client M × Next
  unfolding dispatch
  input_round s c = elim (read_response_header req_pb req_json rsp_pb rsp_json pb json s) [
    | err e ↦ (c, stop (wire e))
    | ok (resp, rest) ↦
        dispatch resp (lookup resp.seq c.pending) rest
          (record c { pending = remove resp.seq c.pending })
  ]

  -- `input` on what the server sends before the connection ends. Each response takes eight bytes at
  -- least.
  unfoldable pub input : ℕ → Bytes → Client M → Client M
  unfolding input_round terminate
  input zero s c = c
  input (suc fuel) s c =
      let (after, next) = input_round s c in
      elim next [ stop e ↦ (terminate e after).0 | go_on rest ↦ input fuel rest after ]

-- What Call returns: the call's completion, or 1 and an error once the time is over.
unfoldable pub call_result : {M : Type 0} → ℕ → Client M → ℕ × Option CallError
call_result id c = elim (lookup id c.done) [ none ↦ (1, some timeout) | some r ↦ (r.ret, r.error) ]

-- RawCall and JsonCall return the reply only without an error.
unfoldable pub raw_call_result :
    {M : Type 0} → ℕ → Client M → ℕ × Option (Body M) × Option CallError
raw_call_result id c = elim (lookup id c.done) [
  | none ↦ (1, none, some timeout)
  | some r ↦ elim r.error [ some e ↦ (r.ret, none, some e) | none ↦ (r.ret, r.reply, none) ]
]
