-- ===== src/Gate/Message/Tests.antt =====
-- Messages of gnet/message.go with a block mode that changes nothing, and the theorems at them.
use goms.Base.{
  ℕ, Bytes, codes, some, [], ◌++◌, ◌==◌, length, replicate, length-replicate, ◌≡◌, refl, arith,
}
use goms.Util.Crypto.{BlockMode}
use goms.Gate.Message.{
  Request, got, read_message_with_key, write_message_with_key, read_message, write_message,
}
use goms.Gate.Message.RoundTrip.{IsSendable, read-write_message, read-write_message_overflow}

abbrev mode : BlockMode
mode = record {
  valid_key = λ key. length key == 1;
  encrypt = λ key text. text;
  decrypt = λ key text. text;
  length-encrypt = λ key text. refl;
  decrypt-encrypt = λ key text h. refl;
}

abbrev request : Request
request = record {
  app = codes "game";
  mask = 1;
  size = 0;
  cmd = 258;
  seq = 7;
  ret = 0;
  buff = codes "hello";
}

abbrev big : Request
big = record request { buff = replicate 65536 1 }

request-IsSendable : IsSendable request
request-IsSendable = record {
  four = refl;
  cmd_fits = omega arith;
  seq_fits = omega arith;
  ret_fits = omega arith;
}

big-IsSendable : IsSendable big
big-IsSendable = record {
  four = refl;
  cmd_fits = omega arith;
  seq_fits = omega arith;
  ret_fits = omega arith;
}

read-write_message_example :
    (bytes : Bytes) × (write_message_with_key mode request [] ≡ some bytes)
    × (read_message_with_key mode [] (bytes ++ codes "x")
        ≡ got (record request { size = 5 }) (codes "x"))
read-write_message_example =
    read-write_message mode request [] (codes "x") request-IsSendable refl (omega arith)

read-write_message_overflow_example :
    (bytes : Bytes) × (write_message mode big ≡ some bytes)
    × (read_message mode (bytes ++ []) ≡ got (record big { size = 0; buff = [] }) (big.buff ++ []))
read-write_message_overflow_example =
    read-write_message_overflow mode big [] big-IsSendable (length-replicate {A = ℕ} 65536 1)
