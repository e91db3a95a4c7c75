-- ===== src/Gate/Handshake/Session.antt =====
-- The handshake of gnet/handshake.go, and the messages of gnet/message.go under its key.
use goms.Base.{
  ℕ, ◌+◌, ◌^◌, ◌<◌, Bytes, some, [], ◌∷◌, ◌++◌, true, false, ◌&&◌, not, length, ◌≡◌, refl, arith,
}
use goms.Util.HashSet.{is_blank}
use goms.Util.Crypto.{BlockMode}
use goms.Rpc.Frame.{ok}
use goms.Gate.Message.{Request, got, is_crypto, write_message_with_key, read_message_with_key}
use goms.Gate.Message.RoundTrip.{IsSendable, read-write_message_encrypted}
use goms.Gate.Handshake.{BigInt, client_hello, client_key, handshake}
use goms.Gate.Handshake.Agreement.{handshake-client_hello, client_key-answer}

not_blank : (key : Bytes) → length key ≡ 32 → is_blank key ≡ false
not_blank [] h = absurd (omega arith)
not_blank (c ∷ key) h = refl

-- sha256 has sums of 32 bytes, and AES takes a key of 32 bytes.
module _ (big : BigInt) (sum256 : Bytes → Bytes) (mode : BlockMode)
    (length-sum256 : (s : Bytes) → length (sum256 s) ≡ 32)
    (valid_32 : (key : Bytes) → length key ≡ 32 → mode.valid_key key ≡ true) where
  -- For sums of 32 bytes, a cipher that takes keys of 32 bytes, and numbers p, g and two public
  -- numbers of 128 bytes each: the handshake of both ends returns without an error and with the
  -- same key, and a message whose mask asks for encryption, with an application name of four
  -- bytes, numbers of 16 bits and a body with sixteen bytes of room below 2^16, that one end
  -- writes with the key is read back with its body by the other, whose reader stands right behind
  -- it.
  pub session :
      (p g a b : ℕ) (req : Request) (rest : Bytes)
      → length (big.bytes p) ≡ 128
      → length (big.bytes g) ≡ 128
      → length (big.bytes (big.exp g a p)) ≡ 128
      → length (big.bytes (big.exp g b p)) ≡ 128
      → IsSendable req
      → is_crypto req ≡ true
      → length req.buff + 16 < 2 ^ 16
      → (answer key bytes : Bytes) × (n : ℕ) × (handshake big sum256 b
            (client_hello big sum256 p g a)
          ≡ ok (answer, key))
        × (client_key big sum256 p a answer ≡ ok key)
        × (write_message_with_key mode req key ≡ some bytes)
        × (read_message_with_key mode key (bytes ++ rest) ≡ got (record req { size = n }) rest)
  session p g a b req rest hp hg ha hb sendable secret fits =
      let key = sum256 (big.bytes (big.exp (big.exp g a p) b p)) in
      let long = length-sum256 (big.bytes (big.exp (big.exp g a p) b p)) in
      let kept : (not (is_blank key) && is_crypto req) ≡ true = rw (not_blank key long) secret in
      let (bytes, n, written, read) =
        read-write_message_encrypted mode req key rest sendable kept (valid_32 key long) fits in
      (
        big.bytes (big.exp g b p) ++ [],
        key,
        bytes,
        n,
        handshake-client_hello big sum256 p g a b hp hg ha,
        client_key-answer big sum256 p g a b hb,
        written,
        read,
      )
