-- ===== src/Rpc/Coder/Exchange.antt =====
-- The two ends of an rpc connection of rpc/coder.go.
use native.Mathlib.Nat.{mod-eq_of_lt}
use goms.Base.{
  ℕ, Bytes, Option, none, some, [], ◌++◌, false, if◌then◌else◌, ◌==◌, length, ◌≡◌, refl, arith, ◌∙◌,
  ap, ◌<◌, ◌%◌, ◌^◌, append_assoc, Bool-cases, inl, inr,
}
use goms.Rpc.Frame.{ok, ◌>>=◌, write_frame, read_frame, too_big}
use goms.Rpc.Frame.RoundTrip.{frame, read_frame-frame, write_frame_lem}
use goms.Rpc.Coder.{
  Wire, Context, ReqHeader, RspHeader, Request, Response, write_context, byte_context, read_context,
  encode, decode, req_header, byte_req_header, write_request, write_byte_request,
  read_request_header, write_response, read_response_header, rsp_header,
}

-- The encoding that `raw` chooses.
abbrev pub chosen : {M : Type 0} → Wire M → Wire M → ℕ → Wire M
chosen pb json raw = if raw == 2 then json else pb

module _ {M : Type 0} (pb json : Wire M) where
  decode-frame :
      (raw : ℕ) (m : M) (buf rest : Bytes)
      → (chosen pb json raw).marshal m ≡ some buf
      → length buf < too_big
      → decode pb json (frame buf ++ rest) raw ≡ ok (m, rest)
  unfolding decode
  decode-frame raw m buf rest e small = elim (Bool-cases (raw == 2)) [
    | inl two ↦ ground (arith, read_frame-frame buf rest small, json.unmarshal-marshal m buf)
    | inr other ↦ ground (arith, read_frame-frame buf rest small, pb.unmarshal-marshal m buf)
  ]

  encode-frame :
      (w : Bytes) (raw : ℕ) (m : M) (buf : Bytes)
      → (chosen pb json raw).marshal m ≡ some buf
      → length buf < too_big
      → encode pb json w raw m ≡ ok (w ++ frame buf)
  unfolding encode
  encode-frame w raw m buf e small = elim (Bool-cases (raw == 2)) [
    | inl two ↦ ground (arith, write_frame_lem w buf)
    | inr other ↦ ground (arith, write_frame_lem w buf)
  ]

-- A context without its routes, and otherwise as it was.
abbrev pub routeless : Option Context → Option Context
routeless none = none
routeless (some c) = some (record c { nodes = [] })

read-write_context : (c : Option Context) → read_context (write_context c) ≡ routeless c
read-write_context none = refl
read-write_context (some c) = refl

read-byte_context : (c : Option Context) → read_context (byte_context c) ≡ routeless c
read-byte_context none = refl
read-byte_context (some c) = refl

-- What the server sees of a request: all of it but the routes of its context.
abbrev pub received : Request → Request
received r = record r { conn = routeless r.conn }

module _ (req_pb req_json : Wire ReqHeader) (rsp_pb rsp_json : Wire RspHeader) {M : Type 0}
    (pb json : Wire M) where
  read_header :
      (h : ReqHeader) (buf rest : Bytes)
      → req_pb.marshal h ≡ some buf
      → length buf < too_big
      → read_request_header req_pb req_json rsp_pb rsp_json pb json (frame buf ++ rest)
        ≡ ok (
          record {
            service_method = h.method;
            seq = h.seq;
            no_resp = h.no_resp;
            conn = read_context h.context;
            raw = h.raw;
          },
          rest,
        )
  unfolding read_request_header
  read_header h buf rest e small =
      ap
        (λ d. d >>= λ (p : ReqHeader × Bytes). ok (
          record {
            service_method = p.0.method;
            seq = p.0.seq;
            no_resp = p.0.no_resp;
            conn = read_context p.0.context;
            raw = p.0.raw;
          },
          p.1,
        ))
        (decode-frame req_pb req_json 0 h buf rest e small)

  -- A request whose header and body can be encoded below the frame limit is written, and the
  -- server reads it back with its body from the stream: every field, and every field of its
  -- context but the routes.
  pub read-write_request :
      (r : Request) (body : M) (h b rest : Bytes)
      → req_pb.marshal (req_header r) ≡ some h
      → length h < too_big
      → pb.marshal body ≡ some b
      → length b < too_big
      → (bytes : Bytes) × (write_request req_pb req_json rsp_pb rsp_json pb json r body ≡ ok bytes)
        × (read_request_header req_pb req_json rsp_pb rsp_json pb json (bytes ++ rest)
            ≡ ok (received r, frame b ++ rest))
        × (decode pb json (frame b ++ rest) 0 ≡ ok (body, rest))
  unfolding write_request
  read-write_request r body h b rest eh sh eb sb = (
    frame h ++ frame b,
    ap (λ e. e >>= λ buff. encode pb json buff 0 body)
          (encode-frame req_pb req_json [] 0 (req_header r) h eh sh)
        ∙ encode-frame pb json (frame h) 0 body b eb sb,
    ap (read_request_header req_pb req_json rsp_pb rsp_json pb json)
          (append_assoc (frame h) (frame b) rest)
        ∙ read_header (req_header r) h (frame b ++ rest) eh sh
        ∙ ap (λ c. ok (record r { conn = c }, frame b ++ rest)) (read-write_context r.conn),
    decode-frame pb json 0 body b rest eb sb,
  )

  -- A request of raw bytes whose header and bytes fit the frame limit arrives with its bytes, but
  -- as one that wants an answer, also when the caller asked for none.
  pub read-write_byte_request :
      (r : Request) (body h rest : Bytes)
      → req_pb.marshal (byte_req_header r) ≡ some h
      → length h < too_big
      → length body < too_big
      → (bytes : Bytes) × (write_byte_request req_pb req_json rsp_pb rsp_json pb json r body
          ≡ ok bytes)
        × (read_request_header req_pb req_json rsp_pb rsp_json pb json (bytes ++ rest)
            ≡ ok (record (received r) { no_resp = false }, frame body ++ rest))
        × (read_frame (frame body ++ rest) ≡ ok (body, rest))
  unfolding write_byte_request
  read-write_byte_request r body h rest eh sh sb = (
    frame h ++ frame body,
    ap (λ e. e >>= λ buff. write_frame buff body)
          (encode-frame req_pb req_json [] 0 (byte_req_header r) h eh sh)
        ∙ write_frame_lem (frame h) body
        ∙ ground arith,
    ap (read_request_header req_pb req_json rsp_pb rsp_json pb json)
          (append_assoc (frame h) (frame body) rest)
        ∙ read_header (byte_req_header r) h (frame body ++ rest) eh sh
        ∙ ap (λ c. ok (record r { conn = c; no_resp = false }, frame body ++ rest))
            (read-byte_context r.conn),
    read_frame-frame body rest sb,
  )

  -- A response with a 16-bit code whose header and body can be encoded below the frame limit is
  -- written, and the client reads back the method, the number, the error and the code; the body
  -- behind them decodes in the encoding of the response.
  pub read-write_response :
      (resp : Response) (body : M) (h b rest : Bytes)
      → resp.ret < 2 ^ 16
      → rsp_pb.marshal (rsp_header req_pb req_json rsp_pb rsp_json pb json resp) ≡ some h
      → length h < too_big
      → (chosen pb json resp.raw).marshal body ≡ some b
      → length b < too_big
      → (bytes : Bytes) × (write_response req_pb req_json rsp_pb rsp_json pb json resp body
          ≡ ok bytes)
        × (read_response_header req_pb req_json rsp_pb rsp_json pb json (bytes ++ rest)
            ≡ ok (record resp { raw = 0 }, frame b ++ rest))
        × (decode pb json (frame b ++ rest) resp.raw ≡ ok (body, rest))
  unfolding write_response read_response_header
  read-write_response resp body h b rest fits eh sh eb sb = (
    frame h ++ frame b,
    ap (λ e. e >>= λ buff. encode pb json buff resp.raw body)
          (encode-frame rsp_pb rsp_json [] 0
            (rsp_header req_pb req_json rsp_pb rsp_json pb json resp) h eh sh)
        ∙ encode-frame pb json (frame h) resp.raw body b eb sb,
    ap (read_response_header req_pb req_json rsp_pb rsp_json pb json)
          (append_assoc (frame h) (frame b) rest)
        ∙ ap
            (λ d. d >>= λ (p : RspHeader × Bytes). ok (
              record {
                service_method = p.0.method;
                seq = p.0.seq;
                error = p.0.error;
                ret = p.0.ret % 2 ^ 16;
                raw = 0;
              },
              p.1,
            ))
            (decode-frame rsp_pb rsp_json 0
              (rsp_header req_pb req_json rsp_pb rsp_json pb json resp) h (frame b ++ rest) eh sh)
        ∙ ap (λ c. ok (record resp { ret = c; raw = 0 }, frame b ++ rest)) (mod-eq_of_lt fits),
    decode-frame pb json resp.raw body b rest eb sb,
  )
