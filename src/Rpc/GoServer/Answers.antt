-- ===== src/Rpc/GoServer/Answers.antt =====
-- A connection of rpc/go_server.go with many requests on it, and the calls inside the process.
use goms.Base.{
  ℕ, ◌+◌, Bytes, bytes_Eq, All, some, List, [], ◌∷◌, ◌++◌, if◌then◌else◌, length, length-append,
  ◌≡◌, refl, arith, ◌∙◌, ap, sym, Bool-cases, inl, inr,
}
use goms.Rpc.Frame.{WireError, Result, ok, err}
use goms.Rpc.Frame.RoundTrip.{frame}
use goms.Rpc.Coder.{Request, req_header, write_request, write_response, read_request_header, decode}
use goms.Rpc.Coder.Exchange.{routeless, read-write_request, received}
use goms.Rpc.GoClient.{Codec}
use goms.Rpc.GoServer.{read_request, answer_call, serve_codec}
use goms.Rpc.Services.{
  Returned, returned, panicked, MethodType, Server, Found, found, refused, find_method, find_remote,
}
use goms.Rpc.GoServer.RoundTrip.{
  Fits, outcome, response_of, response_body, after_request, serve_codec-round, incoming,
  read_request-incoming, answer_call-response, decode-unmarshal,
}

-- A request on the connection: what it asks, and the encodings of its header and body.
pub record Sent (M : Type 0) : Type 0 where
  pub req : Request
  pub arg : M
  pub header : Bytes
  pub body : Bytes
  pub bytes : Bytes

abbrev pub stream : {M : Type 0} → List (Sent M) → Bytes
stream [] = []
stream (x ∷ xs) = x.bytes ++ stream xs

-- How many of the requests want an answer.
abbrev pub wanted : {M : Type 0} → List (Sent M) → ℕ
wanted [] = 0
wanted (x ∷ xs) = (if x.req.no_resp then 0 else 1) + wanted xs

ok_value : {A : Type 0} → A → Result A → A
ok_value a (ok b) = b
ok_value a (err e) = a

find_remote-after :
    {M : Type 0} (name other : Bytes) (f : Found M) (server : Server M)
    → find_remote other (after_request name f server) ≡ find_remote other server
unfolding find_remote find_method
find_remote-after name other (refused text) server = refl
find_remote-after name other (found m) server = refl

module _ {M : Type 0} (codec : Codec M) (null : M) (text_of : WireError → Bytes) where
  open codec use {req_pb, req_json, rsp_pb, rsp_json, pb, json}

  abbrev pub outcome_for : Server M → Sent M → Returned M
  outcome_for server x =
      outcome null (routeless x.req.conn) x.arg (find_remote x.req.service_method server)

  abbrev pub answers : Server M → List (Sent M) → List Bytes
  answers server [] = []
  answers server (x ∷ xs) =
      answer_call codec null text_of (received x.req) (outcome_for server x) ++ answers server xs

  -- The bytes are those of the request, below the limits, and the method that is asked for can
  -- decode its argument.
  abbrev pub IsSent : Server M → Sent M → Type 0
  IsSent server x =
      (write_request req_pb req_json rsp_pb rsp_json pb json x.req x.arg ≡ ok x.bytes)
      × Fits req_pb (req_header x.req) x.header
      × Fits pb x.arg x.body
      × (x.req.raw ≡ 0)
      × ((m : MethodType M)
          → find_remote x.req.service_method server ≡ found m
          → m.arg_pb.unmarshal x.body ≡ some x.arg)

  -- The response can be encoded.
  abbrev pub IsAnswerable : Server M → Sent M → Type 0
  IsAnswerable server x =
      (bytes : Bytes) × (write_response req_pb req_json rsp_pb rsp_json pb json
          (response_of x.req.service_method x.req.seq x.req.raw (outcome_for server x))
          (response_body null (outcome_for server x))
        ≡ ok bytes)

  serve_codec-stream :
      (base server : Server M) (xs : List (Sent M))
      → ((name : Bytes) → find_remote name server ≡ find_remote name base)
      → All (IsSent base) xs
      → (serve_codec codec null text_of (length xs) (stream xs) server).0 ≡ answers base xs
  unfolding serve_codec ok_value
  serve_codec-stream base server [] same h = refl
  serve_codec-stream base server (x ∷ xs) same ((e, (eh, sh), (eb, sb), raw, dec), h) =
      let name = x.req.service_method in
      let f = find_remote name base in
      let (bytes, written, read, _) =
        read-write_request req_pb req_json rsp_pb rsp_json pb json x.req x.arg x.header x.body
          (stream xs) eh sh eb sb in
      let equal : bytes ≡ x.bytes = ap (ok_value []) (sym written ∙ e) in
      ap (λ r. r.0)
        (serve_codec-round codec null text_of (length xs) (x.bytes ++ stream xs) x.body (stream xs)
          server (received x.req) x.arg f
          (ap (λ w. read_request_header req_pb req_json rsp_pb rsp_json pb json (w ++ stream xs))
              (sym equal)
            ∙ read)
          sb (same name)
          (λ m ef.
            ap (decode m.arg_pb m.arg_json (frame x.body ++ stream xs)) raw
            ∙ decode-unmarshal codec null text_of m.arg_pb m.arg_json x.arg x.body (stream xs)
                (dec m ef) sb))
      ∙ ap (λ out. answer_call codec null text_of (received x.req) (outcome_for base x) ++ out)
          (serve_codec-stream base (after_request name f server) xs
            (λ other. find_remote-after name other f server ∙ same other) h)

  -- What readRequest makes of the next request on the connection.
  pub read_request-sent :
      (base server : Server M) (x : Sent M) (rest : Bytes)
      → ((name : Bytes) → find_remote name server ≡ find_remote name base)
      → IsSent base x
      → read_request codec null text_of server (x.bytes ++ rest)
        ≡ incoming codec null text_of
            (received x.req)
            x.arg
            (find_remote x.req.service_method base)
            rest
  unfolding ok_value
  read_request-sent base server x rest same (e, (eh, sh), (eb, sb), raw, dec) =
      let (bytes, written, read, _) =
        read-write_request req_pb req_json rsp_pb rsp_json pb json x.req x.arg x.header x.body rest
          eh sh eb sb in
      let equal : bytes ≡ x.bytes = ap (ok_value []) (sym written ∙ e) in
      read_request-incoming codec null text_of (x.bytes ++ rest) x.body rest server (received x.req)
        x.arg (find_remote x.req.service_method base)
        (ap (λ w. read_request_header req_pb req_json rsp_pb rsp_json pb json (w ++ rest))
            (sym equal)
          ∙ read)
        sb (same x.req.service_method)
        (λ m ef.
          ap (decode m.arg_pb m.arg_json (frame x.body ++ rest)) raw
          ∙ decode-unmarshal codec null text_of m.arg_pb m.arg_json x.arg x.body rest (dec m ef) sb)

  answer_call-wanted :
      (server : Server M) (x : Sent M)
      → IsAnswerable server x
      → length (answer_call codec null text_of (received x.req) (outcome_for server x))
        ≡ (if x.req.no_resp then 0 else 1)
  unfolding answer_call
  answer_call-wanted server x (bytes, e) = elim (Bool-cases x.req.no_resp) [
    | inl silent ↦
        elim (outcome_for server x)
          as (λ r.
            length (answer_call codec null text_of (received x.req) r)
            ≡ (if x.req.no_resp then 0 else 1)) [
              | panicked ↦ ground arith
              | returned ret reply text ↦ ground arith
            ]
    | inr asks ↦
        rw
          (
            answer_call-response codec null text_of (received x.req) (outcome_for server x) bytes
                asks e,
            asks,
          )
          refl
  ]

  length-answers :
      (server : Server M) (xs : List (Sent M))
      → All (IsAnswerable server) xs
      → length (answers server xs) ≡ wanted xs
  length-answers server [] h = refl
  length-answers server (x ∷ xs) (a, h) = omega (
    arith,
    length-append (answer_call codec null text_of (received x.req) (outcome_for server x))
        (answers server xs),
    answer_call-wanted server x a,
    length-answers server xs h,
  )

  -- The responses by the order of the requests.
  pub serve_codec-in_order :
      (server : Server M) (xs : List (Sent M))
      → All (IsSent server) xs
      → All (IsAnswerable server) xs
      → let out = (serve_codec codec null text_of (length xs) (stream xs) server).0 in
        (out ≡ answers server xs) × (length out ≡ wanted xs)
  serve_codec-in_order server xs h a =
      let e = serve_codec-stream server server xs (λ name. refl) h in
      (e, ap length e ∙ length-answers server xs a)
