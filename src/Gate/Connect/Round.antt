-- ===== src/Gate/Connect/Round.antt =====
-- One round of handleConn of gnet/connect.go: a message that was read is answered once.
use goms.Base.{
  ℕ, ap, Bytes, bytes_eq, Option, List, [], ◌∷◌, ◌++◌, Bool, false, ◌&&◌, not, ◌==◌, All, ◌≡◌, refl,
  arith, ◌∙◌, inl, inr, Bool-cases,
}
use goms.Util.HashSet.{is_blank}
use goms.Util.Crypto.{BlockMode}
use goms.Rpc.Coder.{Context}
use goms.Rpc.Node.{Node, find_service_method}
use goms.Rpc.Node.Calls.{Outcome}
use goms.Gate.Message.{Request}
use goms.Gate.Connect.{
  ClientConn, Exchange, Answer, Interceptors, check_request, see_response, send_message, respond,
  first_message, forward, dispatch, arrival, handle_message,
}

-- An interceptor that may change the message's body and node and the connection's context, and
-- leaves what an answer is made of.
pub record Keeps (x y : Exchange) : Type 0 where
  pub same_cmd : y.msg.req.cmd ≡ x.msg.req.cmd
  pub same_seq : y.msg.req.seq ≡ x.msg.req.seq
  pub same_key : y.conn.key ≡ x.conn.key
  pub same_jobs : y.conn.jobs ≡ x.conn.jobs
  pub same_out : y.conn.out ≡ x.conn.out
  pub same_closed : y.conn.closed ≡ x.conn.closed

Keeps-refl : (x : Exchange) → Keeps x x
Keeps-refl x = record {
  same_cmd = refl;
  same_seq = refl;
  same_key = refl;
  same_jobs = refl;
  same_out = refl;
  same_closed = refl;
}

Keeps-trans : {x y z : Exchange} → Keeps x y → Keeps y z → Keeps x z
Keeps-trans a b = record {
  same_cmd = b.same_cmd ∙ a.same_cmd;
  same_seq = b.same_seq ∙ a.same_seq;
  same_key = b.same_key ∙ a.same_key;
  same_jobs = b.same_jobs ∙ a.same_jobs;
  same_out = b.same_out ∙ a.same_out;
  same_closed = b.same_closed ∙ a.same_closed;
}

abbrev pub ReqKeeps : (Exchange → ℕ × Exchange) → Type 0
ReqKeeps f = (x : Exchange) → Keeps x (f x).1

abbrev pub RspKeeps : (Bytes → ℕ → Bool → Exchange → Exchange) → Type 0
RspKeeps f = (buff : Bytes) (ret : ℕ) (error : Bool) (x : Exchange) → Keeps x (f buff ret error x)

abbrev pub AreKeeping : Interceptors → Type 0
AreKeeping hooks = All ReqKeeps hooks.req_funcs × All RspKeeps hooks.rsp_funcs

check_request-Keeps :
    (fs : List (Exchange → ℕ × Exchange)) (x : Exchange)
    → All ReqKeeps fs
    → Keeps x (check_request fs x).1
unfolding check_request
check_request-Keeps [] x h = Keeps-refl x
check_request-Keeps (f ∷ fs) x (k, h) = elim (Bool-cases ((f x).0 == 0)) [
  | inl passed ↦ rw passed (Keeps-trans (k x) (check_request-Keeps fs (f x).1 h))
  | inr refused ↦ rw refused (k x)
]

see_response-Keeps :
    (fs : List (Bytes → ℕ → Bool → Exchange → Exchange)) (buff : Bytes) (ret : ℕ) (error : Bool)
    (x : Exchange)
    → All RspKeeps fs
    → Keeps x (see_response fs buff ret error x)
unfolding see_response
see_response-Keeps [] buff ret error x h = Keeps-refl x
see_response-Keeps (f ∷ fs) buff ret error x (k, h) =
    Keeps-trans (k buff ret error x) (see_response-Keeps fs buff ret error (f buff ret error x) h)

-- The connection `after` has one message more than `before` to write, with the command and the
-- number of `req`, and is otherwise as open and with the same key.
abbrev pub AnswersOnce : Request → ClientConn → ClientConn → Type 0
AnswersOnce req before after =
    (reply : Request) × (reply.cmd ≡ req.cmd)
    × (reply.seq ≡ req.seq)
    × (after.jobs ≡ before.jobs ++ (reply, false) ∷ [])
    × (after.key ≡ before.key)
    × (after.closed ≡ before.closed)
    × (after.out ≡ before.out)

module _ (mode : BlockMode) where
  respond-AnswersOnce :
      (ret : ℕ) (buff : Bytes) (x y : Exchange)
      → Keeps x y
      → AnswersOnce x.msg.req x.conn (respond mode ret buff y)
  unfolding respond send_message
  respond-AnswersOnce ret buff x y k =
      let reply : Request = record {
        app = y.conn.app;
        mask = y.conn.mask;
        size = 0;
        cmd = y.msg.req.cmd;
        seq = y.msg.req.seq;
        ret = ret;
        buff = buff;
      } in
      (
        reply,
        k.same_cmd,
        k.same_seq,
        ap (λ jobs. jobs ++ (reply, false) ∷ []) k.same_jobs,
        k.same_key,
        k.same_closed,
        k.same_out,
      )

  first_message-Keeps :
      (req : Request) (conn : ClientConn)
      → Keeps (arrival req conn) (record (arrival req conn) { conn = first_message mode req conn })
  unfolding first_message
  first_message-Keeps req conn = record {
    same_cmd = refl;
    same_seq = refl;
    same_key = ground arith;
    same_jobs = ground arith;
    same_out = ground arith;
    same_closed = ground arith;
  }

  module _ (dial : Bytes → Option ℕ) (perform : Outcome → Context → Bytes → Answer) where
    dispatch-AnswersOnce :
        (hooks : Interceptors) (call_id : ℕ) (x y : Exchange) (node : Node)
        → AreKeeping hooks
        → Keeps x y
        → AnswersOnce x.msg.req x.conn (dispatch mode dial perform hooks call_id y node).0
    unfolding dispatch forward
    dispatch-AnswersOnce hooks call_id x y node (_, kept) k =
        let awake : Exchange = record y { conn = record y.conn { seconds = 120 } } in
        let k' : Keeps x awake = record {
          same_cmd = k.same_cmd;
          same_seq = k.same_seq;
          same_key = k.same_key;
          same_jobs = k.same_jobs;
          same_out = k.same_out;
          same_closed = k.same_closed;
        } in
        elim (Bool-cases (is_blank (find_service_method y.msg.node_type y.msg.req.cmd node))) [
          | inl missing ↦ rw (missing, dispatch) (respond-AnswersOnce 2 [] x awake k')
          | inr found ↦
              rw (found, dispatch)
                (respond-AnswersOnce _ _ x _
                  (Keeps-trans k' (see_response-Keeps hooks.rsp_funcs _ _ _ awake kept)))
        ]

    -- A message is answered once.
    pub handle_message-AnswersOnce :
        (hooks : Interceptors) (call_id : ℕ) (req : Request) (conn : ClientConn) (node : Node)
        → AreKeeping hooks
        → AnswersOnce req conn (handle_message mode dial perform hooks call_id req conn node).0
    unfolding handle_message
    handle_message-AnswersOnce hooks call_id req conn node kept =
        let x = arrival req conn in
        let named : Exchange = record x { conn = first_message mode req conn } in
        let checked =
          Keeps-trans (first_message-Keeps req conn)
            (check_request-Keeps hooks.req_funcs named kept.0) in
        elim (Bool-cases (is_blank req.app)) [
          | inl no_app ↦ rw (no_app, handle_message) (respond-AnswersOnce 1 [] x x (Keeps-refl x))
          | inr app ↦
              elim (Bool-cases (not (is_blank conn.app) && not (bytes_eq conn.app req.app))) [
                | inl other ↦
                    rw (app, handle_message)
                      (rw other (respond-AnswersOnce 1 [] x x (Keeps-refl x)))
                | inr same ↦ elim (Bool-cases ((check_request hooks.req_funcs named).0 == 0)) [
                  | inl passed ↦
                      rw (app, handle_message)
                        (rw same
                          (rw passed (dispatch-AnswersOnce hooks call_id x _ node kept checked)))
                  | inr refused ↦
                      rw (app, handle_message)
                        (rw same (rw refused (respond-AnswersOnce _ [] x _ checked)))
                ]
              ]
        ]
