-- ===== src/Rpc/Coder.antt =====
-- rpc/coder.go: requests and responses on the wire, each a frame with a header and a frame with a
-- body. The encodings of the messages (protobuf, JSON) are other packages: `Wire` is what is used
-- of them. `Raw` is 0, 1 or 2 and the codes of services are below 2^16, as their Go types say.
pub mod Exchange
pub mod Tests
pub mod Wires
use goms.Base.{
  ℕ, Bytes, Option, none, some, List, [], Bool, true, false, if◌then◌else◌, ◌==◌, ◌≡◌, ◌%◌, ◌^◌,
}
use goms.Base.Int.{ℤ}
use goms.Rpc.Frame.{Result, ok, err, bad_message, ◌>>=◌, write_frame, read_frame}

-- One encoding of the messages of one type: what was encoded is decoded again.
pub record Wire (M : Type 0) : Type 0 where
  pub marshal : M → Option Bytes
  pub unmarshal : Bytes → Option M
  pub unmarshal-marshal : (m : M) (buf : Bytes) → marshal m ≡ some buf → unmarshal buf ≡ some m

pub record Context : Type 0 where
  pub gate_name : Bytes
  pub remote : Bytes
  pub id : ℕ
  pub token : Bytes
  pub uid : ℕ
  pub nodes : List (Bytes × Bytes)
  pub call_id : ℕ
  pub game : Bytes
  pub kvs : List (Bytes × Bytes)
  pub ps : List (Bytes × ℤ)

pub record ReqHeader : Type 0 where
  pub method : Bytes
  pub seq : ℕ
  pub context : Option Context
  pub no_resp : Bool
  pub raw : ℕ

pub record RspHeader : Type 0 where
  pub method : Bytes
  pub seq : ℕ
  pub error : Bytes
  pub ret : ℕ
  pub context : Option Context
  pub no_resp : Bool
  pub raw : ℕ

pub record Request : Type 0 where
  pub service_method : Bytes
  pub seq : ℕ
  pub no_resp : Bool
  pub conn : Option Context
  pub raw : ℕ

pub record Response : Type 0 where
  pub service_method : Bytes
  pub seq : ℕ
  pub error : Bytes
  pub ret : ℕ
  pub raw : ℕ

-- The literal `&Context{…}` of WriteRequest, and those of WriteByteRequest and ReadRequestHeader.
abbrev pub write_context : Option Context → Option Context
write_context none = none
write_context (some c) = some (record {
  gate_name = c.gate_name;
  remote = c.remote;
  id = c.id;
  uid = c.uid;
  token = c.token;
  call_id = c.call_id;
  kvs = c.kvs;
  ps = c.ps;
  game = c.game;
  nodes = [];
})

abbrev pub byte_context : Option Context → Option Context
byte_context none = none
byte_context (some c) = some (record {
  gate_name = c.gate_name;
  remote = c.remote;
  id = c.id;
  uid = c.uid;
  token = c.token;
  call_id = c.call_id;
  kvs = c.kvs;
  ps = c.ps;
  game = c.game;
  nodes = [];
})

abbrev pub read_context : Option Context → Option Context
read_context none = none
read_context (some c) = some (record {
  gate_name = c.gate_name;
  remote = c.remote;
  id = c.id;
  uid = c.uid;
  token = c.token;
  call_id = c.call_id;
  kvs = c.kvs;
  ps = c.ps;
  game = c.game;
  nodes = [];
})

abbrev pub marshalled : {M : Type 0} → Wire M → M → Result Bytes
marshalled w m = elim (w.marshal m) [ none ↦ err bad_message | some buf ↦ ok buf ]

abbrev pub unmarshalled : {M : Type 0} → Wire M → Bytes → Result M
unmarshalled w buf = elim (w.unmarshal buf) [ none ↦ err bad_message | some m ↦ ok m ]

-- encode and decode with the protobuf and the JSON encoding of the type; 2 chooses JSON.
unfoldable pub encode : {M : Type 0} → Wire M → Wire M → Bytes → ℕ → M → Result Bytes
encode pb json w raw m = do
  buf ← (if raw == 2 then marshalled json m else marshalled pb m)
  write_frame w buf

unfoldable pub decode : {M : Type 0} → Wire M → Wire M → Bytes → ℕ → Result (M × Bytes)
decode pb json r raw = do
  (buf, rest) ← read_frame r
  m ← (if raw == 2 then unmarshalled json buf else unmarshalled pb buf)
  ok (m, rest)

-- decode into nil: the frame is read and thrown away.
unfoldable pub skip_body : Bytes → Result Bytes
skip_body r = do (buf, rest) ← read_frame r; ok rest

abbrev pub req_header : Request → ReqHeader
req_header r = record {
  method = r.service_method;
  seq = r.seq;
  context = write_context r.conn;
  no_resp = r.no_resp;
  raw = r.raw;
}

-- WriteByteRequest fills its own header, without NoResp.
abbrev pub byte_req_header : Request → ReqHeader
byte_req_header r = record {
  method = r.service_method;
  seq = r.seq;
  context = byte_context r.conn;
  no_resp = false;
  raw = r.raw;
}

module _ (req_pb req_json : Wire ReqHeader) (rsp_pb rsp_json : Wire RspHeader) {M : Type 0}
    (pb json : Wire M) where
  -- PbClientCodec: what is written to the connection.
  unfoldable pub write_request : Request → M → Result Bytes
  unfolding encode
  write_request r body = do
    buff ← encode req_pb req_json [] 0 (req_header r)
    encode pb json buff 0 body

  unfoldable pub write_byte_request : Request → Bytes → Result Bytes
  unfolding encode
  write_byte_request r buf = do
    buff ← encode req_pb req_json [] 0 (byte_req_header r)
    write_frame buff buf

  -- `Raw` of the header is not taken over.
  unfoldable pub read_response_header : Bytes → Result (Response × Bytes)
  unfolding decode
  read_response_header r = do
    (resp, rest) ← decode rsp_pb rsp_json r 0
    ok (
      record {
        service_method = resp.method;
        seq = resp.seq;
        error = resp.error;
        ret = resp.ret % 2 ^ 16;
        raw = 0;
      },
      rest,
    )

  -- PbServerCodec
  unfoldable pub read_request_header : Bytes → Result (Request × Bytes)
  unfolding decode
  read_request_header r = do
    (req, rest) ← decode req_pb req_json r 0
    ok (
      record {
        service_method = req.method;
        seq = req.seq;
        no_resp = req.no_resp;
        conn = read_context req.context;
        raw = req.raw;
      },
      rest,
    )

  abbrev pub rsp_header : Response → RspHeader
  rsp_header resp = record {
    method = resp.service_method;
    seq = resp.seq;
    error = resp.error;
    ret = resp.ret;
    context = none;
    no_resp = false;
    raw = resp.raw;
  }

  unfoldable pub write_response : Response → M → Result Bytes
  unfolding encode
  write_response resp body = do
    buff ← encode rsp_pb rsp_json [] 0 (rsp_header resp)
    encode pb json buff resp.raw body
