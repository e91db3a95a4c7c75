-- ===== src/Watch/Message/Tests.antt =====
-- Messages of watch/message.go, and the theorems at these messages.
use goms.Base.{codes, [], ◌∷◌, ◌++◌, some, ◌≡◌, arith}
use goms.Base.Int.{pos}
use goms.Watch.Message.{
  WatchMessage, newline, line, read_watch_message, write_watch_message, read_loop,
}
use goms.Watch.Message.RoundTrip.{
  IsSendable, read-write_watch_message, read-write_injection, read_loop-write_all, write_all,
}

abbrev request : WatchMessage
request = record { cmd = codes "hget"; seq = pos 7; values = codes "gate" ∷ codes "load" ∷ [] }

abbrev reply : WatchMessage
reply = record { cmd = codes "hget"; seq = pos 7; values = codes "42" ∷ [] }

request-IsSendable : IsSendable request
request-IsSendable = record {
  ascii = ground arith;
  word = ground arith;
  seq_fits = omega arith;
  one_line = ground arith;
  count_fits = omega arith;
}

reply-IsSendable : IsSendable reply
reply-IsSendable = record {
  ascii = ground arith;
  word = ground arith;
  seq_fits = omega arith;
  one_line = ground arith;
  count_fits = omega arith;
}

read_loop-write_all_example : read_loop 3 (write_all (request ∷ reply ∷ [])) ≡ request ∷ reply ∷ []
read_loop-write_all_example =
    read_loop-write_all (request ∷ reply ∷ []) 3 (request-IsSendable, (reply-IsSendable, tt))
      (omega arith)

read-write_watch_message_example :
    read_watch_message (write_watch_message request ++ codes "x") ≡ some (request, codes "x")
read-write_watch_message_example = read-write_watch_message request (codes "x") request-IsSendable

-- The value "7\ndel\n1\n1\ngate" sends a second message, which deletes a key.
read-write_injection_example :
    read_watch_message (
      write_watch_message (record {
        cmd = codes "hset";
        seq = pos 1;
        values = (codes "7" ++ newline ∷ codes "del") ∷ [];
      })
      ++ codes "x")
    ≡ some (
      record { cmd = codes "hset"; seq = pos 1; values = codes "7" ∷ [] },
      line (codes "del") ++ codes "x",
    )
read-write_injection_example =
    read-write_injection (codes "hset") (pos 1) (codes "7") (codes "del") (codes "x") (ground arith)
      (ground arith) (omega arith) (ground arith)
