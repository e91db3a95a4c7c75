-- ===== src/Gate/Message.antt =====
-- gnet/message.go: messages with a header of 14 bytes. A reader is the bytes that are still to
-- come before the connection ends. The node's name and type of a request are not on the wire.
pub mod RoundTrip
pub mod Tests
use Prim.Native.Nat.{bit_and}
use goms.Base.{
  ℕ, zero, suc, ◌+◌, ◌*◌, ◌/◌, ◌%◌, ◌^◌, Bytes, Option, none, some, List, [], ◌∷◌, ◌++◌, Bool, true,
  false, ◌&&◌, not, if◌then◌else◌, ◌==◌, length, take, drop,
}
use goms.Util.HashSet.{is_blank}
use goms.Util.Crypto.{BlockMode, text_of, bad_key, panicked, aes_encrypt, aes_decrypt}
use goms.Rpc.Frame.{WireError, ok, err, read_full}

pub record Request : Type 0 where
  pub app : Bytes
  pub mask : ℕ
  pub size : ℕ
  pub cmd : ℕ
  pub seq : ℕ
  pub ret : ℕ
  pub buff : Bytes

pub data ReadError : Type 0 where
  wire : WireError → ReadError
  bad_flag : ReadError
  key_error : ReadError

-- How a read ends: a request and the bytes behind it, an error, or a panic.
pub data Read : Type 0 where
  got : Request → Bytes → Read
  failed : ReadError → Read
  crashed : Read

-- GetBit of util/misc.go
abbrev pub get_bit : ℕ → ℕ → Bool
get_bit mask i = not (bit_and mask (2 ^ i % 2 ^ 32) == 0)

abbrev pub is_crypto : Request → Bool
is_crypto req = get_bit req.mask 0

abbrev pub is_json : Request → Bool
is_json req = get_bit req.mask 1

abbrev pub uint8 : Bytes → ℕ
uint8 [] = 0
uint8 (b ∷ _) = b

-- binary.BigEndian.Uint16 and its inverse
abbrev pub uint16 : Bytes → ℕ
uint16 (a ∷ b ∷ _) = a * 256 + b
uint16 _ = 0

abbrev pub put_uint16 : ℕ → Bytes
put_uint16 n = (n / 256 % 256) ∷ (n % 256) ∷ []

unfoldable pub parse_header : Bytes → Request
parse_header header = record {
  app = take 4 (drop 2 header);
  mask = uint8 (drop 1 header);
  size = uint16 (drop 6 header);
  cmd = uint16 (drop 8 header);
  seq = uint16 (drop 10 header);
  ret = uint16 (drop 12 header);
  buff = [];
}

-- The bytes that WriteMessageWithKey puts together.
unfoldable pub frame : Request → Bytes → Bytes
frame req buff =
    b'G'
    ∷ req.mask
    ∷ (req.app
        ++ (put_uint16 (length buff % 2 ^ 16)
            ++ (put_uint16 req.cmd ++ (put_uint16 req.seq ++ (put_uint16 req.ret ++ buff)))))

module _ (mode : BlockMode) where
  -- What is read of a body.
  unfoldable pub open_body : Request → Bytes → Bytes → Bytes → Read
  unfolding aes_decrypt
  open_body req key buff rest =
      if not (is_blank key) && is_crypto req
      then elim (aes_decrypt mode buff key) [
        | text_of text ↦ got (record req { buff = text }) rest
        | bad_key ↦ failed key_error
        | panicked ↦ crashed
      ]
      else got (record req { buff = buff }) rest

  -- What is read behind the header.
  unfoldable pub read_body : Request → Bytes → Bytes → Read
  unfolding read_full open_body
  read_body req key rest = if req.size == 0 then got req rest else elim (read_full req.size rest) [
    | err e ↦ failed (wire e)
    | ok (buff, rest') ↦ open_body req key buff rest'
  ]

  unfoldable pub read_message_with_key : Bytes → Bytes → Read
  unfolding read_full parse_header read_body
  read_message_with_key key r = elim (read_full 14 r) [
    | err e ↦ failed (wire e)
    | ok (header, rest) ↦
        if not (uint8 header == b'G')
        then failed bad_flag
        else read_body (parse_header header) key rest
  ]

  -- WriteMessageWithKey: what is written, or nothing on an error of the key.
  unfoldable pub write_message_with_key : Request → Bytes → Option Bytes
  unfolding aes_encrypt frame
  write_message_with_key req key =
      if not (is_blank key) && is_crypto req
      then elim (aes_encrypt mode req.buff key) [ text_of buff ↦ some (frame req buff) | _ ↦ none ]
      else some (frame req req.buff)

  -- ReadMessage and WriteMessage have no key.
  abbrev pub read_message : Bytes → Read
  read_message = read_message_with_key []

  abbrev pub write_message : Request → Option Bytes
  write_message req = write_message_with_key req []
