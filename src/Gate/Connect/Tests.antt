-- ===== src/Gate/Connect/Tests.antt =====
-- Connections of gnet/connect.go, and the theorems at them.
use goms.Base.{
  ℕ, ◌+◌, ◌*◌, ◌/◌, ◌%◌, ◌^◌, if◌then◌else◌, Bytes, codes, lookup, nat_eq, bytes_Eq, none, some,
  List, [], ◌∷◌, ◌++◌, true, false, length, ◌==◌, ◌≡◌, refl, sym, subst, arith,
}
use mathlib.Core.List.{Perm, perm_append_comm}
use goms.Util.Crypto.{BlockMode}
use goms.Rpc.Coder.{Context}
use goms.Rpc.Node.{Node, cmd_key}
use goms.Rpc.Node.Calls.{Outcome}
use goms.Gate.Message.{Request, read_message_with_key}
use goms.Gate.Connect.{
  ClientConn, Exchange, Answer, Interceptors, Gater, new_gater, fresh_conn, new_id, new_client_conn,
  conn_id, get_conn_by_id, for_conn, serve, write_jobs,
}
use goms.Gate.Connect.Ids.{new_id-fresh}
use goms.Gate.Connect.Reach.{
  Reach, start, step, accepts, IsSound, Reach-IsSound, visit, for_conn-Reach,
}
use goms.Gate.Connect.Round.{Keeps}
use goms.Gate.Connect.Answers.{numbers, pending, stream, serve-answers}

abbrev mode : BlockMode
mode = record {
  valid_key = λ key. length key == 1;
  encrypt = λ key text. text;
  decrypt = λ key text. text;
  length-encrypt = λ key text. refl;
  decrypt-encrypt = λ key text h. refl;
}

abbrev first_conn : ClientConn
first_conn = fresh_conn (codes "gate") (codes "host") (3 * 2 ^ 32 + 2)

abbrev one_conn : Gater
one_conn = record { id_counter = 2; ids = (3 * 2 ^ 32 + 2, first_conn) ∷ []; uids = []; count = 1 }

one_conn-accepted :
    new_client_conn 1 3 (codes "gate") (codes "host") new_gater ≡ some (first_conn, one_conn)
unfolding new_client_conn new_id conn_id
one_conn-accepted = refl

one_conn-Reach : Reach 3 one_conn
one_conn-Reach =
    step new_gater one_conn (start new_gater refl)
      (accepts 1 (codes "gate") (codes "host") first_conn one_conn-accepted)

new_id-fresh_example :
    (id : ℕ) × (after : Gater) × (new_id (length one_conn.ids + 1) 3 one_conn ≡ some (id, after))
    × (lookup id one_conn.ids ≡ none)
    × (id / 2 ^ 32 ≡ 3 % 2 ^ 16)
    × (after ≡ record one_conn { id_counter = after.id_counter })
new_id-fresh_example = new_id-fresh 3 one_conn (omega arith)

Reach-IsSound_example : IsSound 3 one_conn
Reach-IsSound_example = Reach-IsSound 3 one_conn one_conn-Reach

abbrev hang_up : ClientConn → ClientConn
hang_up conn = record conn { closed = true }

for_conn-Reach_example :
    get_conn_by_id (3 * 2 ^ 32 + 2) (for_conn (visit hang_up) one_conn) ≡ some (hang_up first_conn)
for_conn-Reach_example =
    for_conn-Reach 3 hang_up (λ conn. refl) one_conn (3 * 2 ^ 32 + 2) one_conn-Reach

-- An interceptor that refuses one command and sends the others to a type of nodes.
abbrev to_game : Exchange → ℕ × Exchange
to_game x =
    if x.msg.req.cmd == 9
    then (4, x)
    else (0, record x { msg = record x.msg { node_type = codes "game" } })

to_game-Keeps : (x : Exchange) → Keeps x (to_game x).1
to_game-Keeps x = record {
  same_cmd = ground arith;
  same_seq = ground arith;
  same_key = ground arith;
  same_jobs = ground arith;
  same_out = ground arith;
  same_closed = ground arith;
}

abbrev hooks : Interceptors
hooks = record { new_funcs = []; req_funcs = to_game ∷ []; rsp_funcs = []; del_funcs = [] }

abbrev node : Node
node = record {
  name = codes "gate";
  region = 0;
  services = [];
  rpc_client = [];
  service_node = [];
  cmd_service = (cmd_key (codes "game") 7, codes "Room.Join") ∷ [];
  mock_data = some ((codes "Room.Join", 1) ∷ []);
}

abbrev perform : Outcome → Context → Bytes → Answer
perform outcome context body = record { ret = 0; buff = codes "done"; failed = false }

abbrev request : ℕ → ℕ → Request
request cmd seq = record {
  app = codes "demo";
  mask = 0;
  size = 0;
  cmd = cmd;
  seq = seq;
  ret = 0;
  buff = codes "hello";
}

abbrev requests : List Request
requests = request 7 1 ∷ request 9 2 ∷ request 8 3 ∷ []

abbrev served : ClientConn
served =
    (serve mode (λ address. none) perform hooks (λ n. n) 4 0 (stream requests) first_conn node).0

abbrev reply : ℕ → ℕ → ℕ → Bytes → Request
reply cmd seq ret buff = record (request cmd seq) { ret = ret; buff = buff }

-- The pool writes the last answer before the others.
abbrev order : List Request
order = reply 8 3 2 [] ∷ reply 7 1 0 (codes "done") ∷ reply 9 2 4 [] ∷ []

served_jobs :
    served.jobs ≡ pending (reply 7 1 0 (codes "done") ∷ reply 9 2 4 [] ∷ reply 8 3 2 [] ∷ [])
unfolding serve read_message_with_key goms.Gate.Message.frame goms.Rpc.Node.find_service_method
    goms.Base.bytes_eq goms.Base.Decimal.format_nat goms.Rpc.Node.call_mock
served_jobs = refl

order-Perm : Perm (pending order) served.jobs
order-Perm = subst (Perm (pending order)) (sym served_jobs) (
    perm_append_comm (pending (reply 8 3 2 [] ∷ []))
      (pending (reply 7 1 0 (codes "done") ∷ reply 9 2 4 [] ∷ [])))

serve-answers_example :
    Perm (numbers order) (numbers requests)
    × ((write_jobs mode (pending order) served).out ≡ stream order)
serve-answers_example =
    serve-answers mode (λ address. none) perform hooks (λ n. n) 4 0 requests order first_conn node
      ((to_game-Keeps, tt), tt) refl refl refl (omega arith) (omega arith) order-Perm
