-- ===== src/Rpc/GoServer/Tests.antt =====
-- A server of rpc/go_server.go with one service of one method, and the theorems at its calls.
use goms.Base.{
  ℕ, nat_eq, Bytes, codes, zero, suc, ◌+◌, ◌==◌, ◌++◌, lookup, length, Option, none, some, List, [],
  ◌∷◌, Bool, true, false, ◌≡◌, refl, arith, ap, sym, ◌<◌, ◌^◌,
}
use goms.Rpc.Frame.{WireError}
use goms.Rpc.Frame.RoundTrip.{frame}
use goms.Rpc.Coder.{write_request, write_response}
use goms.Rpc.Coder.Wires.{req_wire, rsp_wire, body_wire}
use goms.Rpc.GoClient.{Codec, message, new_client, new_call, send, input_round, go_on}
use goms.Rpc.Services.Tests.{double, server}
use mathlib.Core.List.{Perm}
use goms.Rpc.GoServer.{serve_codec, read_request, answer_call}
use goms.Rpc.GoServer.Pool.{
  Serving, begin, Reach, at_start, goes_on, submits, finishes, serve_codec-answers,
}
use goms.Rpc.Services.{
  Returned, returned, MethodType, Signature, Server, Found, found, refused, find_remote,
  register_service, internal_call, replied, count_call,
}
use goms.Rpc.GoServer.RoundTrip.{call-answered}
use goms.Rpc.GoServer.Answers.{Sent, answers, stream}

abbrev small : Codec ℕ
small = record {
  req_pb = req_wire;
  req_json = req_wire;
  rsp_pb = rsp_wire;
  rsp_json = rsp_wire;
  pb = body_wire;
  json = body_wire;
}

abbrev text_of : WireError → Bytes
text_of e = codes "wire"

read_of : Found ℕ → Bytes → Option ℕ
read_of (found m) s = m.arg_pb.unmarshal s
read_of (refused text) s = none

double_reads :
    (n : ℕ) (m : MethodType ℕ)
    → find_remote (codes "Math.Double") server ≡ found m
    → m.arg_pb.unmarshal (n ∷ []) ≡ some n
unfolding read_of find_remote goms.Rpc.Services.find_method goms.Rpc.Node.split_last
    goms.Base.bytes_eq
double_reads n m e = ap (λ f. read_of f (n ∷ [])) (sym e)

call-answered_example :
    let (waiting, request) =
      send small none
        (new_call (codes "Math.Double") (message 4) 0 none false new_client)
        new_client in
    let (out, after) = serve_codec small 0 text_of 1 (request ++ []) server in
    (bytes : Bytes) × (out ≡ bytes ∷ [])
    × (after ≡ count_call (codes "Math.Double") server)
    × (let (client, next) = input_round small (bytes ++ []) waiting in
        (lookup 0 client.done ≡ some (record { ret = 3; error = none; reply = some (message 8) }))
        × (lookup 0 client.pending ≡ none)
        × (next ≡ go_on []))
unfolding serve_codec goms.Rpc.Node.split_last goms.Base.bytes_eq
call-answered_example =
    call-answered small 0 text_of new_client server (codes "Math.Double") none 4 (found double)
      (0 ∷ 0 ∷ 0 ∷ codes "Math.Double") (4 ∷ []) (0 ∷ 3 ∷ 0 ∷ 0 ∷ codes "Math.Double") (8 ∷ []) []
      [] 0 refl refl (refl, omega arith) (refl, omega arith) refl (double_reads 4) (omega arith)
      (refl, omega arith) (refl, omega arith)

abbrev asking : Sent ℕ
asking = record {
  req = record {
    service_method = codes "Math.Double";
    seq = 5;
    no_resp = false;
    conn = none;
    raw = 0;
  };
  arg = 4;
  header = 5 ∷ 0 ∷ 0 ∷ codes "Math.Double";
  body = 4 ∷ [];
  bytes = frame (5 ∷ 0 ∷ 0 ∷ codes "Math.Double") ++ frame (4 ∷ []);
}

abbrev telling : Sent ℕ
telling = record {
  req = record {
    service_method = codes "Math.Double";
    seq = 6;
    no_resp = true;
    conn = none;
    raw = 0;
  };
  arg = 7;
  header = 6 ∷ 1 ∷ 0 ∷ codes "Math.Double";
  body = 7 ∷ [];
  bytes = frame (6 ∷ 1 ∷ 0 ∷ codes "Math.Double") ++ frame (7 ∷ []);
}

abbrev sent : List (Sent ℕ)
sent = telling ∷ asking ∷ []

-- What the two calls write: nothing, and one response.
abbrev answer : List Bytes
answer = answers small 0 text_of server sent

abbrev start : Serving ℕ
start = begin 2 (stream sent) server

abbrev one_call : Serving ℕ
one_call = record start {
  left = 1;
  rest = asking.bytes ++ [];
  server = count_call (codes "Math.Double") server;
  jobs = [] ∷ [];
}

abbrev two_calls : Serving ℕ
two_calls = record start {
  left = 0;
  rest = [];
  server = count_call (codes "Math.Double") (count_call (codes "Math.Double") server);
  jobs = [] ∷ answer ∷ [];
}

-- The second call ends before the first.
abbrev second_done : Serving ℕ
second_done = record two_calls { jobs = [] ∷ []; written = answer }

abbrev all_done : Serving ℕ
all_done = record two_calls { jobs = []; written = answer }

run : Reach small 0 text_of start all_done
unfolding read_request answer_call write_response goms.Rpc.Coder.read_request_header find_remote
    goms.Rpc.Services.find_method goms.Rpc.Node.split_last goms.Base.bytes_eq
    goms.Rpc.GoServer.send_response goms.Rpc.Frame.read_frame goms.Rpc.Frame.write_frame
run =
    goes_on
      (goes_on
        (goes_on
          (goes_on at_start (submits 1 telling.req double 7 (asking.bytes ++ []) refl refl refl))
          (submits 0 asking.req double 4 [] refl refl refl))
        (finishes ([] ∷ []) [] answer refl refl))
      (finishes [] [] [] refl refl)

serve_codec-answers_example :
    Perm (answers small 0 text_of server sent) all_done.written × (length all_done.written ≡ 1)
unfolding write_request goms.Rpc.Frame.write_frame write_response find_remote
    goms.Rpc.Node.split_last goms.Base.bytes_eq
serve_codec-answers_example =
    serve_codec-answers small 0 text_of server sent all_done
      (
        (refl, (refl, omega arith), (refl, omega arith), refl, double_reads 7),
        ((refl, (refl, omega arith), (refl, omega arith), refl, double_reads 4), tt),
      )
      ((_, refl), ((_, refl), tt)) run refl refl
