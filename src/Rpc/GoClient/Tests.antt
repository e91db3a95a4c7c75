-- ===== src/Rpc/GoClient/Tests.antt =====
-- A call of rpc/go_client.go that waits when the connection breaks.
use goms.Base.{ℕ, codes, none, false, refl, arith}
use goms.Rpc.Frame.{unexpected_eof}
use goms.Rpc.Coder.Wires.{req_wire, rsp_wire, body_wire}
use goms.Rpc.GoClient.{
  Codec, CallInfo, Client, message, wire, new_client, new_call, register, terminate, complete,
  complete_all,
}
use goms.Rpc.GoClient.Rounds.{IsDone}
use goms.Rpc.GoClient.Steps.{here, next, registered, ended}
use goms.Rpc.GoClient.Liveness.{Reach-answered}

abbrev small : Codec ℕ
small = record {
  req_pb = req_wire;
  req_json = req_wire;
  rsp_pb = rsp_wire;
  rsp_json = rsp_wire;
  pb = body_wire;
  json = body_wire;
}

abbrev first : CallInfo ℕ
first = new_call (codes "Log.Write") (message 9) 0 none false new_client

abbrev second : CallInfo ℕ
second = record first { id = 1 }

abbrev waiting : Client ℕ
waiting = (register first new_client).0

abbrev both : Client ℕ
both = (register second waiting).0

Reach-answered_example : IsDone 1 (terminate (wire unexpected_eof) both).0
unfolding register terminate complete_all complete
Reach-answered_example =
    Reach-answered small second {c = waiting} {d = (terminate (wire unexpected_eof) both).0}
      (next here (registered first (omega arith))) (omega arith) refl
      (next here (ended (wire unexpected_eof))) refl
