-- ===== src/Rpc/GoServer/RoundTrip.antt =====
-- A call from rpc/go_client.go to rpc/go_server.go and back.
use goms.Base.{
  ℕ, suc, ◌+◌, Bytes, codes, nat_eq, ==_iff, lookup, insert, remove, lookup-insert, lookup-remove,
  Option, none, some, [], ◌∷◌, ◌++◌, Bool, false, if◌then◌else◌, length, ◌≡◌, refl, arith, ◌∙◌, ap,
  ◌<◌, ◌%◌, ◌^◌, Bool-cases, inl, inr,
}
use goms.Util.HashSet.{is_blank}
use goms.Rpc.Frame.{WireError, ok, read_frame, read_full, too_big}
use goms.Rpc.Frame.RoundTrip.{frame, read_frame-frame}
use goms.Rpc.Coder.{
  Wire, Context, Request, Response, req_header, rsp_header, decode, skip_body, read_request_header,
  read_response_header, write_request, write_response,
}
use goms.Rpc.Coder.Exchange.{routeless, read-write_request, read-write_response, received}
use goms.Rpc.GoClient.{
  Codec, message, CallInfo, Completion, server_error, Client, go_on, complete, failure, new_call,
  register, request_of, send, send_written, write_call, input_round, dispatch, take_reply,
  read_reply, is_close,
}
use goms.Rpc.GoClient.Rounds.{done-complete}
use goms.Rpc.GoServer.{
  Incoming, rejected, accepted, behind_frame, read_body, read_request, send_response, answer_call,
  refuse, serve_codec,
}
use goms.Rpc.Services.{
  Returned, returned, panicked, MethodType, Server, Found, found, refused, count_call, find_remote,
}

-- The reader stands behind a frame that was read whole.
pub behind_frame-read_frame :
    (s buf rest : Bytes) → read_frame s ≡ ok (buf, rest) → behind_frame s ≡ rest
unfolding behind_frame read_frame read_full
behind_frame-read_frame [] buf rest e = ground arith
behind_frame-read_frame (a ∷ []) buf rest e = ground arith
behind_frame-read_frame (a ∷ b ∷ []) buf rest e = ground arith
behind_frame-read_frame (a ∷ b ∷ c ∷ []) buf rest e = ground arith
behind_frame-read_frame (a ∷ b ∷ c ∷ d ∷ s) buf rest e = ground arith

-- The message has this encoding, which is below the limit of a frame.
abbrev pub Fits : {A : Type 0} → Wire A → A → Bytes → Type 0
Fits w m buf = (w.marshal m ≡ some buf) × (length buf < too_big)

module _ {M : Type 0} where
  -- What the method of a request returns; the text of a refusal is the error of a call.
  abbrev pub outcome : M → Option Context → M → Found M → Returned M
  outcome null conn arg (refused text) = returned 0 null text
  outcome null conn arg (found m) = m.function conn arg

  -- How the caller's call ends.
  abbrev pub completion_of : Returned M → Completion M
  completion_of panicked = failure 0 (server_error (codes "server exception"))
  completion_of (returned ret reply errmsg) =
      if is_blank errmsg
      then record { ret = ret; error = none; reply = some (message reply) }
      else failure 0 (server_error errmsg)

  abbrev pub code_of : Returned M → ℕ
  code_of panicked = 1
  code_of (returned ret reply errmsg) = ret

  abbrev pub error_of : Returned M → Bytes
  error_of panicked = codes "server exception"
  error_of (returned ret reply errmsg) = errmsg

  abbrev pub response_of : Bytes → ℕ → ℕ → Returned M → Response
  response_of name seq raw r = record {
    service_method = name;
    seq = seq;
    error = error_of r;
    ret = code_of r;
    raw = raw;
  }

  abbrev pub response_body : M → Returned M → M
  response_body null panicked = null
  response_body null (returned ret reply errmsg) = if is_blank errmsg then reply else null

  abbrev pub after_request : Bytes → Found M → Server M → Server M
  after_request name (refused text) server = server
  after_request name (found m) server = count_call name server

module _ {M : Type 0} (codec : Codec M) (null : M) (text_of : WireError → Bytes) where
  open codec use {req_pb, req_json, rsp_pb, rsp_json, pb, json}

  pub answer_call-response :
      (req : Request) (r : Returned M) (bytes : Bytes)
      → req.no_resp ≡ false
      → write_response req_pb req_json rsp_pb rsp_json pb json
          (response_of req.service_method req.seq req.raw r)
          (response_body null r)
        ≡ ok bytes
      → answer_call codec null text_of req r ≡ bytes ∷ []
  unfolding answer_call send_response
  answer_call-response req panicked bytes wanted e = ground arith
  answer_call-response req (returned ret reply errmsg) bytes wanted e = ground arith

  -- What readRequest makes of a request whose header and body were read.
  abbrev pub incoming : Request → M → Found M → Bytes → Incoming M
  incoming req arg (refused text) rest = rejected req text rest
  incoming req arg (found m) rest = accepted req m arg rest

  pub read_request-incoming :
      (s b rest : Bytes) (server : Server M) (req : Request) (arg : M) (f : Found M)
      → read_request_header req_pb req_json rsp_pb rsp_json pb json s ≡ ok (req, frame b ++ rest)
      → length b < too_big
      → find_remote req.service_method server ≡ f
      → ((m : MethodType M)
          → f ≡ found m
          → decode m.arg_pb m.arg_json (frame b ++ rest) req.raw ≡ ok (arg, rest))
      → read_request codec null text_of server s ≡ incoming req arg f rest
  unfolding read_request read_body
  read_request-incoming s b rest server req arg (refused text) eh small ef decodes =
      rw
        (
          read_request,
          eh,
          ef,
          read_body,
          behind_frame-read_frame (frame b ++ rest) b rest (read_frame-frame b rest small),
        )
        refl
  read_request-incoming s b rest server req arg (found m) eh small ef decodes =
      rw (read_request, eh, ef, read_body, decodes m refl) refl

  -- One round of ServeCodec.
  pub serve_codec-round :
      (fuel : ℕ) (s b rest : Bytes) (server : Server M) (req : Request) (arg : M) (f : Found M)
      → read_request_header req_pb req_json rsp_pb rsp_json pb json s ≡ ok (req, frame b ++ rest)
      → length b < too_big
      → find_remote req.service_method server ≡ f
      → ((m : MethodType M)
          → f ≡ found m
          → decode m.arg_pb m.arg_json (frame b ++ rest) req.raw ≡ ok (arg, rest))
      → serve_codec codec null text_of (suc fuel) s server ≡ (
          let (out, after) =
            serve_codec codec null text_of fuel rest (after_request req.service_method f server) in
          (answer_call codec null text_of req (outcome null req.conn arg f) ++ out, after))
  unfolding serve_codec refuse answer_call
  serve_codec-round fuel s b rest server req arg (refused text) eh small ef decodes =
      rw
        (
          serve_codec,
          read_request-incoming s b rest server req arg (refused text) eh small ef decodes,
        )
        refl
  serve_codec-round fuel s b rest server req arg (found m) eh small ef decodes =
      rw (serve_codec, read_request-incoming s b rest server req arg (found m) eh small ef decodes)
        refl

  -- What the client makes of a response to the first request that waits under its number.
  input_round-response :
      (c : Client M) (call : CallInfo M) (r : Returned M) (bytes b later : Bytes) (name : Bytes)
      (seq : ℕ)
      → lookup seq c.pending ≡ some call
      → call.raw ≡ 0
      → length b < too_big
      → read_response_header req_pb req_json rsp_pb rsp_json pb json (bytes ++ later)
        ≡ ok (record (response_of name seq 0 r) { raw = 0 }, frame b ++ later)
      → decode pb json (frame b ++ later) 0 ≡ ok (response_body null r, later)
      → input_round codec (bytes ++ later) c ≡ (
        complete call.id (completion_of r) (record c { pending = remove seq c.pending }),
        go_on later,
      )
  unfolding input_round dispatch take_reply read_reply skip_body
  input_round-response c call panicked bytes b later name seq waits raw small eh eb =
      rw (input_round, eh, waits, dispatch, skip_body, read_frame-frame b later small) refl
  input_round-response c call (returned ret reply errmsg) bytes b later name seq waits raw small eh
        eb =
      elim (Bool-cases (is_blank errmsg)) [
        | inl blank ↦
            rw (input_round, eh, waits, dispatch, blank, take_reply, raw)
              (rw (eb ∙ ap (λ (x : Bool). ok ((if x then reply else null), later)) blank) refl)
        | inr error ↦
            rw (input_round, eh, waits, dispatch, error, skip_body, read_frame-frame b later small)
              refl
      ]

  pub decode-unmarshal :
      (w j : Wire M) (m : M) (buf rest : Bytes)
      → w.unmarshal buf ≡ some m
      → length buf < too_big
      → decode w j (frame buf ++ rest) 0 ≡ ok (m, rest)
  unfolding decode
  decode-unmarshal w j m buf rest e small = ground (arith, read_frame-frame buf rest small)

  -- A client that is open sends a message: the call waits under the client's number.
  send-open :
      (c : Client M) (method : Bytes) (conn : Option Context) (arg : M) (bytes : Bytes)
      → is_close c ≡ false
      → let call = new_call method (message arg) 0 conn false c in
        write_request req_pb req_json rsp_pb rsp_json pb json (request_of c.seq call) arg ≡ ok bytes
        → send codec none call c ≡ (
          record c {
            seq = (c.seq + 1) % 2 ^ 64;
            pending = insert c.seq call c.pending;
            made = c.made + 1;
          },
          bytes,
        )
  unfolding send register write_call send_written
  send-open c method conn arg bytes o e =
      rw (send, register, o, write_call, e, send_written, register, o) refl

  -- For a client that is open, a message whose request and whose answer can be encoded below the
  -- frame limit, and a service code of 16 bits: what `Go` writes is served as one request, whether
  -- its method is found or refused, and counted if it is found; the response that this writes ends
  -- the client's call with the code and the reply of the method, or with the error's text, frees
  -- the call's number, and leaves the reader behind the response.
  pub call-answered :
      (c : Client M) (server : Server M) (method : Bytes) (conn : Option Context) (arg : M)
      (f : Found M) (h b h₂ b₂ more later : Bytes) (fuel : ℕ)
      → is_close c ≡ false
      → lookup c.made c.done ≡ none
      → let call = new_call method (message arg) 0 conn false c in
        let r = outcome null (routeless conn) arg f in
        let response = response_of method c.seq 0 r in
        Fits req_pb (req_header (request_of c.seq call)) h
        → Fits pb arg b
        → find_remote method server ≡ f
        → ((m : MethodType M) → f ≡ found m → m.arg_pb.unmarshal b ≡ some arg)
        → code_of r < 2 ^ 16
        → Fits rsp_pb (rsp_header req_pb req_json rsp_pb rsp_json pb json response) h₂
        → Fits pb (response_body null r) b₂
        → let (waiting, request) = send codec none call c in
          let (out, after) = serve_codec codec null text_of (suc fuel) (request ++ more) server in
          let rest = serve_codec codec null text_of fuel more (after_request method f server) in
          (bytes : Bytes) × (out ≡ bytes ∷ rest.0)
          × (after ≡ rest.1)
          × (let (client, next) = input_round codec (bytes ++ later) waiting in
              (lookup c.made client.done ≡ some (completion_of r))
              × (lookup c.seq client.pending ≡ none)
              × (next ≡ go_on later))
  unfolding complete
  call-answered c server method conn arg f h b h₂ b₂ more later fuel o fresh (eh, sh) (eb, sb) ef
        dec fits (eh₂, sh₂) (eb₂, sb₂) =
      let call = new_call method (message arg) 0 conn false c in
      let req = request_of c.seq call in
      let r = outcome null (routeless conn) arg f in
      let (request, written, read, _) =
        read-write_request req_pb req_json rsp_pb rsp_json pb json req arg h b more eh sh eb sb in
      let (bytes, answered, read_back, body) =
        read-write_response req_pb req_json rsp_pb rsp_json pb json (response_of method c.seq 0 r)
          (response_body null r) h₂ b₂ later fits eh₂ sh₂ eb₂ sb₂ in
      let waiting : Client M = record c {
        seq = (c.seq + 1) % 2 ^ 64;
        pending = insert c.seq call c.pending;
        made = c.made + 1;
      } in
      rw
        (
          send-open c method conn arg request o written,
          serve_codec-round fuel (request ++ more) b more server (received req) arg f read sb ef
              (λ m e. decode-unmarshal m.arg_pb m.arg_json arg b more (dec m e) sb),
          answer_call-response (received req) r bytes refl answered,
        )
        (
          bytes,
          refl,
          refl,
          rw
              (input_round-response waiting call r bytes b₂ later method c.seq
                (ground (arith, lookup-insert c.seq c.seq call c.pending, ==_iff c.seq c.seq)) refl
                sb₂ read_back body)
              (
                ground (
                  arith,
                  done-complete c.made c.made (completion_of r) waiting,
                  ==_iff c.made c.made,
                ),
                ground (arith, lookup-remove c.seq c.seq waiting.pending, ==_iff c.seq c.seq),
                refl,
              ),
        )
