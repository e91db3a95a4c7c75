-- ===== src/Rpc/Coder/Wires.antt =====
-- A small encoding in place of protobuf and JSON, for the exchanges that the tests look at.
use goms.Base.{ℕ, Bytes, [], ◌∷◌, Bool, true, false, ◌==◌, Option, none, some, ◌≡◌, arith}
use goms.Rpc.Coder.{Wire, Context, ReqHeader, RspHeader}

abbrev flag : Bool → ℕ
flag true = 1
flag false = 0

abbrev marshal_req : ReqHeader → Option Bytes
marshal_req h = elim h.context [
  | none ↦ some (h.seq ∷ flag h.no_resp ∷ h.raw ∷ h.method)
  | some c ↦ none
]

abbrev unmarshal_req : Bytes → Option ReqHeader
unmarshal_req [] = none
unmarshal_req (s ∷ []) = none
unmarshal_req (s ∷ n ∷ []) = none
unmarshal_req (s ∷ n ∷ r ∷ m) =
    some (record { method = m; seq = s; context = none; no_resp = n == 1; raw = r })

unmarshal_req_fields :
    (m : Bytes) (s : ℕ) (c : Option Context) (b : Bool) (r : ℕ) (buf : Bytes)
    → marshal_req (record { method = m; seq = s; context = c; no_resp = b; raw = r }) ≡ some buf
    → unmarshal_req buf ≡ some (record { method = m; seq = s; context = c; no_resp = b; raw = r })
unmarshal_req_fields m s none true r buf e = ground arith
unmarshal_req_fields m s none false r buf e = ground arith
unmarshal_req_fields m s (some c) b r buf e = ground arith

pub unmarshal_req-marshal_req :
    (h : ReqHeader) (buf : Bytes) → marshal_req h ≡ some buf → unmarshal_req buf ≡ some h
unmarshal_req-marshal_req h buf e =
    unmarshal_req_fields h.method h.seq h.context h.no_resp h.raw buf e

abbrev pub req_wire : Wire ReqHeader
req_wire = record {
  marshal = marshal_req;
  unmarshal = unmarshal_req;
  unmarshal-marshal = unmarshal_req-marshal_req;
}

abbrev marshal_rsp : RspHeader → Option Bytes
marshal_rsp h = elim h.context [
  | none ↦ elim h.error [
    | [] ↦ some (h.seq ∷ h.ret ∷ flag h.no_resp ∷ h.raw ∷ h.method)
    | c ∷ rest ↦ none
  ]
  | some c ↦ none
]

abbrev unmarshal_rsp : Bytes → Option RspHeader
unmarshal_rsp [] = none
unmarshal_rsp (s ∷ []) = none
unmarshal_rsp (s ∷ t ∷ []) = none
unmarshal_rsp (s ∷ t ∷ n ∷ []) = none
unmarshal_rsp (s ∷ t ∷ n ∷ r ∷ m) =
    some (record {
      method = m;
      seq = s;
      error = [];
      ret = t;
      context = none;
      no_resp = n == 1;
      raw = r;
    })

unmarshal_rsp_fields :
    (m : Bytes) (s : ℕ) (u : Bytes) (t : ℕ) (c : Option Context) (b : Bool) (r : ℕ) (buf : Bytes)
    → marshal_rsp
        (record { method = m; seq = s; error = u; ret = t; context = c; no_resp = b; raw = r })
      ≡ some buf
    → unmarshal_rsp buf
      ≡ some (record { method = m; seq = s; error = u; ret = t; context = c; no_resp = b; raw = r })
unmarshal_rsp_fields m s [] t none true r buf e = ground arith
unmarshal_rsp_fields m s [] t none false r buf e = ground arith
unmarshal_rsp_fields m s (x ∷ u) t none b r buf e = ground arith
unmarshal_rsp_fields m s u t (some c) b r buf e = ground arith

pub unmarshal_rsp-marshal_rsp :
    (h : RspHeader) (buf : Bytes) → marshal_rsp h ≡ some buf → unmarshal_rsp buf ≡ some h
unmarshal_rsp-marshal_rsp h buf e =
    unmarshal_rsp_fields h.method h.seq h.error h.ret h.context h.no_resp h.raw buf e

abbrev pub rsp_wire : Wire RspHeader
rsp_wire = record {
  marshal = marshal_rsp;
  unmarshal = unmarshal_rsp;
  unmarshal-marshal = unmarshal_rsp-marshal_rsp;
}

-- The body is one number.
abbrev marshal_body : ℕ → Option Bytes
marshal_body n = some (n ∷ [])

abbrev unmarshal_body : Bytes → Option ℕ
unmarshal_body [] = none
unmarshal_body (n ∷ rest) = some n

pub unmarshal_body-marshal_body :
    (n : ℕ) (buf : Bytes) → marshal_body n ≡ some buf → unmarshal_body buf ≡ some n
unmarshal_body-marshal_body n buf e = ground arith

abbrev pub body_wire : Wire ℕ
body_wire = record {
  marshal = marshal_body;
  unmarshal = unmarshal_body;
  unmarshal-marshal = unmarshal_body-marshal_body;
}
