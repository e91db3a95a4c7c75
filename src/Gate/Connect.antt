-- ===== src/Gate/Connect.antt =====
-- gnet/connect.go: the gate's connections and the messages that it forwards. The connections are a
-- map by their numbers. SendMessage gives a message to the pool: `jobs` are those that are not written
-- yet, and `out` what the pool wrote, in whatever order it runs the jobs. The gate is one with SyncCall,
-- so that a call ends before the next message is read. The reader is the bytes that it still gets
-- before an error. The interceptors are functions that their users register, and may change the
-- connection and the message that they are given; the ids of rpc.NewId are an input.
pub mod Ids
pub mod Reach
pub mod Answers
pub mod Round
pub mod Tests
use Prim.Native.Nat.{bit_and, bit_or}
use goms.Base.{
  ℕ, zero, suc, ◌+◌, ◌-◌, ◌*◌, ◌%◌, ◌^◌, Bytes, codes, bytes_eq, bytes_Eq, nat_eq, lookup, insert,
  remove, modify, Option, none, some, List, [], ◌∷◌, ◌++◌, Bool, true, false, ◌&&◌, not,
  if◌then◌else◌, ◌==◌,
}
use goms.Base.Int.{pos}
use goms.Util.HashSet.{is_blank, is_some}
use goms.Util.Crypto.{BlockMode}
use goms.Rpc.Coder.{Context}
use goms.Rpc.Node.{Node, split_parts, find_service_method}
use goms.Rpc.Node.Calls.{Outcome, json_call, raw_call, node_call, json_call_method, raw_call_method}
use goms.Gate.Message.{
  Request, got, failed, crashed, is_json, read_message_with_key, write_message_with_key,
}

-- `seconds` is what the timer T was last set to.
pub record ClientConn : Type 0 where
  pub context : Context
  pub app : Bytes
  pub mask : ℕ
  pub key : Bytes
  pub seconds : ℕ
  pub jobs : List (Request × Bool)
  pub out : Bytes
  pub closed : Bool

-- A message with the node that an interceptor chose for it.
pub record Incoming : Type 0 where
  pub req : Request
  pub node_name : Bytes
  pub node_type : Bytes

pub record Exchange : Type 0 where
  pub conn : ClientConn
  pub msg : Incoming

-- What a call of another service returns.
pub record Answer : Type 0 where
  pub ret : ℕ
  pub buff : Bytes
  pub failed : Bool

pub record Interceptors : Type 0 where
  pub new_funcs : List (ClientConn → Bool × ClientConn)
  pub req_funcs : List (Exchange → ℕ × Exchange)
  pub rsp_funcs : List (Bytes → ℕ → Bool → Exchange → Exchange)
  pub del_funcs : List (ClientConn → ClientConn)

-- `count` is the pattern of an int32. An entry of `uids` is the number of a connection.
pub record Gater : Type 0 where
  pub id_counter : ℕ
  pub ids : List (ℕ × ClientConn)
  pub uids : List (Bytes × ℕ)
  pub count : ℕ

abbrev pub new_gater : Gater
new_gater = record { id_counter = 1; ids = []; uids = []; count = 0 }

-- RegisterNewFuncs and its three sisters
abbrev pub register_new_funcs : (ClientConn → Bool × ClientConn) → Interceptors → Interceptors
register_new_funcs f hooks = record hooks { new_funcs = hooks.new_funcs ++ f ∷ [] }

abbrev pub register_req_funcs : (Exchange → ℕ × Exchange) → Interceptors → Interceptors
register_req_funcs f hooks = record hooks { req_funcs = hooks.req_funcs ++ f ∷ [] }

abbrev pub register_rsp_funcs :
    (Bytes → ℕ → Bool → Exchange → Exchange) → Interceptors → Interceptors
register_rsp_funcs f hooks = record hooks { rsp_funcs = hooks.rsp_funcs ++ f ∷ [] }

abbrev pub register_del_funcs : (ClientConn → ClientConn) → Interceptors → Interceptors
register_del_funcs f hooks = record hooks { del_funcs = hooks.del_funcs ++ f ∷ [] }

-- The id that a counter makes on a node.
unfoldable pub conn_id : ℕ → ℕ → ℕ
conn_id node_id counter =
    bit_or (bit_and counter (2 ^ 32 - 1)) (bit_and node_id (2 ^ 16 - 1) * 2 ^ 32)

-- newID, with fuel for its rounds.
unfoldable pub new_id : ℕ → ℕ → Gater → Option (ℕ × Gater)
unfolding conn_id
new_id zero node_id g = none
new_id (suc fuel) node_id g =
    let counter = (g.id_counter + 1) % 2 ^ 64 in
    let after = record g { id_counter = counter } in
    let more = new_id fuel node_id after in
    let id = conn_id node_id counter in if is_some (lookup id g.ids) then more else some (id, after)

abbrev pub get_conn_by_id : ℕ → Gater → Option ClientConn
get_conn_by_id id g = lookup id g.ids

abbrev pub get_conn_by_uid : Bytes → Gater → Option ℕ
get_conn_by_uid uid g = lookup uid g.uids

abbrev pub fresh_conn : Bytes → Bytes → ℕ → ClientConn
fresh_conn gate_name remote id = record {
  context = record {
    gate_name = gate_name;
    remote = remote;
    id = id;
    token = [];
    uid = 0;
    nodes = [];
    call_id = 0;
    game = [];
    kvs = [];
    ps = [];
  };
  app = [];
  mask = 0;
  key = [];
  seconds = 30;
  jobs = [];
  out = [];
  closed = false;
}

-- NewClientConn: the connection and the gate that has it.
unfoldable pub new_client_conn : ℕ → ℕ → Bytes → Bytes → Gater → Option (ClientConn × Gater)
unfolding new_id
new_client_conn fuel node_id gate_name remote g = elim (new_id fuel node_id g) [
  | none ↦ none
  | some (id, after) ↦
      let conn = fresh_conn gate_name remote id in
      some
        (conn, record after { count = (after.count + 1) % 2 ^ 32; ids = insert id conn after.ids })
]

unfoldable pub del_client_conn : ClientConn → Gater → Gater
del_client_conn conn g = record g {
  count = (g.count + (2 ^ 32 - 1)) % 2 ^ 32;
  ids = remove conn.context.id g.ids;
}

-- The keys of the map, as ForConn collects them.
unfoldable pub conn_ids : List (ℕ × ClientConn) → List ℕ
conn_ids [] = []
conn_ids ((id, conn) ∷ ids) = id ∷ conn_ids ids

unfoldable pub for_each : (ClientConn → Gater → Gater) → List ℕ → Gater → Gater
for_each f [] g = g
for_each f (id ∷ ids) g =
    for_each f ids (elim (lookup id g.ids) [ none ↦ g | some conn ↦ f conn g ])

unfoldable pub for_conn : (ClientConn → Gater → Gater) → Gater → Gater
unfolding conn_ids for_each
for_conn f g = for_each f (conn_ids g.ids) g

-- The interceptors of a new connection: whether one of them refused it.
unfoldable pub admit_new : List (ClientConn → Bool × ClientConn) → ClientConn → Bool × ClientConn
admit_new [] conn = (true, conn)
admit_new (f ∷ fs) conn =
    let (refused, conn') = f conn in
    let more = admit_new fs conn' in if refused then (false, conn') else more

-- The interceptors of a request: the first code that is not 0.
unfoldable pub check_request : List (Exchange → ℕ × Exchange) → Exchange → ℕ × Exchange
check_request [] x = (0, x)
check_request (f ∷ fs) x =
    let (ret, x') = f x in let more = check_request fs x' in if ret == 0 then more else (ret, x')

unfoldable pub see_response :
    List (Bytes → ℕ → Bool → Exchange → Exchange) → Bytes → ℕ → Bool → Exchange → Exchange
see_response [] buff ret error x = x
see_response (f ∷ fs) buff ret error x = see_response fs buff ret error (f buff ret error x)

unfoldable pub say_goodbye : List (ClientConn → ClientConn) → ClientConn → ClientConn
say_goodbye [] conn = conn
say_goodbye (f ∷ fs) conn = say_goodbye fs (f conn)

-- A message as it was read.
abbrev pub arrival : Request → ClientConn → Exchange
arrival req conn = record {
  conn = conn;
  msg = record { req = req; node_name = []; node_type = [] };
}

module _ (mode : BlockMode) where
  -- SendMessage: the message gets the connection's application and mask, and is left to the pool.
  unfoldable pub send_message : Request → Bool → ClientConn → ClientConn
  send_message msg disconn conn = record conn {
    jobs = conn.jobs ++ (record msg { app = conn.app; mask = conn.mask }, disconn) ∷ [];
  }

  -- The function that SendMessage submits: a connection that is closed takes nothing; an error of the
  -- key closes it.
  unfoldable pub write_job : Request × Bool → ClientConn → ClientConn
  write_job (msg, disconn) conn =
      if conn.closed then conn else elim (write_message_with_key mode msg conn.key) [
        | none ↦ record conn { closed = true }
        | some bytes ↦ record conn { out = conn.out ++ bytes; closed = disconn }
      ]

  -- The jobs in the order in which the pool runs them.
  unfoldable pub write_jobs : List (Request × Bool) → ClientConn → ClientConn
  unfolding write_job
  write_jobs [] conn = conn
  write_jobs (job ∷ jobs) conn = write_jobs jobs (write_job job conn)

  -- The messages of the gate itself have the command and the number of what they answer.
  unfoldable pub respond : ℕ → Bytes → Exchange → ClientConn
  unfolding send_message
  respond ret buff x =
      send_message
        (record {
          app = [];
          mask = 0;
          size = 0;
          cmd = x.msg.req.cmd;
          seq = x.msg.req.seq;
          ret = ret;
          buff = buff;
        })
        false x.conn

  -- The application of the first message is the connection's.
  unfoldable pub first_message : Request → ClientConn → ClientConn
  first_message req conn =
      if is_blank conn.app
      then record conn {
        app = req.app;
        mask = req.mask;
        context = record conn.context {
          ps = (codes "isJson", if is_json req then pos 1 else pos 0) ∷ [];
        };
      }
      else conn

  module _ (dial : Bytes → Option ℕ) (perform : Outcome → Context → Bytes → Answer) where
    -- Which call the gate makes for a message.
    unfoldable pub route : Bytes → Exchange → Node → Outcome × Node
    unfolding node_call json_call_method raw_call_method
    route method x node =
        if not (is_blank x.msg.node_name)
        then node_call dial (if is_json x.msg.req then json_call else raw_call) x.msg.node_name
            method node
        else if is_json x.msg.req
        then json_call_method dial x.conn.context.nodes method node
        else raw_call_method dial x.conn.context.nodes method node

    -- The function `f` of handleConn.
    unfoldable pub forward : Interceptors → ℕ → Bytes → Exchange → Node → ClientConn × Node
    unfolding route see_response respond
    forward hooks call_id method x node =
        let (outcome, node') = route method x node in
        let rpc_conn = record x.conn.context { call_id = call_id; game = x.msg.req.app } in
        let answer = perform outcome rpc_conn x.msg.req.buff in
        let ret = if answer.failed && (answer.ret == 0) then 1 else answer.ret in
        (
          respond ret answer.buff (see_response hooks.rsp_funcs answer.buff ret answer.failed x),
          node',
        )

    -- What follows the interceptors of the request.
    unfoldable pub dispatch : Interceptors → ℕ → Exchange → Node → ClientConn × Node
    unfolding forward respond
    dispatch hooks call_id x node =
        let awake = record x { conn = record x.conn { seconds = 120 } } in
        let method = find_service_method x.msg.node_type x.msg.req.cmd node in
        if is_blank method
        then (respond 2 [] awake, node)
        else forward hooks call_id method awake node

    -- One round of the loop of handleConn behind the read.
    unfoldable pub handle_message :
        Interceptors → ℕ → Request → ClientConn → Node → ClientConn × Node
    unfolding respond first_message check_request dispatch
    handle_message hooks call_id req conn node =
        let arrived = arrival req conn in
        if is_blank req.app
        then (respond 1 [] arrived, node)
        else if not (is_blank conn.app) && not (bytes_eq conn.app req.app)
        then (respond 1 [] arrived, node)
        else let (ret, x) =
            check_request hooks.req_funcs (record arrived { conn = first_message req conn }) in
          if ret == 0 then dispatch hooks call_id x node else (respond ret [] x, node)

    -- The loop of handleConn; the n-th message has the n-th call id. It ends where the reader fails
    -- or panics.
    unfoldable pub serve :
        Interceptors → (ℕ → ℕ) → ℕ → ℕ → Bytes → ClientConn → Node → ClientConn × Node
    unfolding handle_message
    serve hooks call_id zero n s conn node = (conn, node)
    serve hooks call_id (suc fuel) n s conn node = elim (read_message_with_key mode conn.key s) [
      | failed e ↦ (conn, node)
      | crashed ↦ (conn, node)
      | got req rest ↦
          let (conn', node') = handle_message hooks (call_id n) req conn node in
          serve hooks call_id fuel (n + 1) rest conn' node'
    ]

    -- handleConn from the accepted connection to its end, with no other connection between.
    unfoldable pub handle_conn :
        Interceptors
        → (ℕ → ℕ)
        → ℕ
        → ℕ
        → Bytes
        → Bytes
        → Node
        → Gater
        → Option (ClientConn × Node × Gater)
    unfolding new_client_conn admit_new serve del_client_conn say_goodbye split_parts
    handle_conn hooks call_id fuel node_id remote s node g =
        elim (new_client_conn fuel node_id node.name (split_parts b':' remote).0 g) [
          | none ↦ none
          | some (conn, g₁) ↦
              let (admitted, conn₁) = admit_new hooks.new_funcs conn in
              let (conn₂, node') =
                if admitted then serve hooks call_id fuel 0 s conn₁ node else (conn₁, node) in
              some (
                say_goodbye hooks.del_funcs (record conn₂ { closed = true }),
                node',
                del_client_conn conn₂ g₁,
              )
        ]
