-- ===== src/Gate/Message/RoundTrip.antt =====
-- The reader of gnet/message.go at what its writer wrote.
use native.Mathlib.Nat.{mod-eq_of_lt}
use goms.Base.{
  ℕ, ◌+◌, ◌*◌, ◌/◌, ◌%◌, ◌^◌, ◌<◌, Bytes, some, [], ◌∷◌, ◌++◌, true, false, ◌&&◌, not, ◌==◌, length,
  ◌≡◌, refl, sym, subst, ap, arith, ◌∙◌,
}
use goms.Util.HashSet.{is_blank}
use goms.Util.Crypto.{BlockMode}
use goms.Util.Crypto.RoundTrip.{aes_decrypt-aes_encrypt}
use goms.Rpc.Frame.RoundTrip.{read_full-append}
use goms.Gate.Message.{
  Request, got, is_crypto, put_uint16, parse_header, open_body, read_body, read_message,
  write_message, read_message_with_key, frame, write_message_with_key,
}

-- The header's numbers have 16 bits, and the name of the application has four bytes.
pub record IsSendable (req : Request) : Type 0 where
  pub four : length req.app ≡ 4
  pub cmd_fits : req.cmd < 2 ^ 16
  pub seq_fits : req.seq < 2 ^ 16
  pub ret_fits : req.ret < 2 ^ 16

four_parts : (s : Bytes) → length s ≡ 4 → (a b c d : ℕ) × (s ≡ a ∷ b ∷ c ∷ d ∷ [])
four_parts [] h = absurd (omega arith)
four_parts (a ∷ []) h = absurd (omega arith)
four_parts (a ∷ b ∷ []) h = absurd (omega arith)
four_parts (a ∷ b ∷ c ∷ []) h = absurd (omega arith)
four_parts (a ∷ b ∷ c ∷ d ∷ []) h = (a, b, c, d, refl)
four_parts (a ∷ b ∷ c ∷ d ∷ x ∷ s) h = absurd (omega arith)

module _ (mode : BlockMode) where
  read-header :
      (mask cmd seq ret a b c d : ℕ) (key buff rest : Bytes)
      → cmd < 2 ^ 16
      → seq < 2 ^ 16
      → ret < 2 ^ 16
      → let req : Request = record {
        app = a ∷ b ∷ c ∷ d ∷ [];
        mask = mask;
        size = length buff % 2 ^ 16;
        cmd = cmd;
        seq = seq;
        ret = ret;
        buff = [];
      } in
        read_message_with_key mode key (frame req buff ++ rest)
        ≡ read_body mode req key (buff ++ rest)
  unfolding read_message_with_key frame
  read-header mask cmd seq ret a b c d key buff rest hc hs hr =
      let n = length buff % 2 ^ 16 in
      let header =
        b'G'
        ∷ mask
        ∷ a
        ∷ b
        ∷ c
        ∷ d
        ∷ (put_uint16 n ++ (put_uint16 cmd ++ (put_uint16 seq ++ put_uint16 ret))) in
      let size : n / 256 % 256 * 256 + n % 256 ≡ n = omega arith in
      let command : cmd / 256 % 256 * 256 + cmd % 256 ≡ cmd = omega arith in
      let number : seq / 256 % 256 * 256 + seq % 256 ≡ seq = omega arith in
      let result : ret / 256 % 256 * 256 + ret % 256 ≡ ret = omega arith in
      let parsed : parse_header header ≡ record {
        app = a ∷ b ∷ c ∷ d ∷ [];
        mask = mask;
        size = n;
        cmd = cmd;
        seq = seq;
        ret = ret;
        buff = [];
      } =
        unfold parse_header in rw (size, command, number, result) refl in
      rw (read_message_with_key, read_full-append header (buff ++ rest))
        (ap (λ req. read_body mode req key (buff ++ rest)) parsed)

  read-frame :
      (req : Request) (key buff rest : Bytes)
      → IsSendable req
      → read_message_with_key mode key (frame req buff ++ rest)
        ≡ read_body mode (record req { size = length buff % 2 ^ 16; buff = [] }) key (buff ++ rest)
  unfolding frame
  read-frame req key buff rest h =
      let (a, b, c, d, e) = four_parts req.app h.four in
      subst
        (λ app.
          read_message_with_key mode key (frame (record req { app = app }) buff ++ rest)
          ≡ read_body mode (record req { app = app; size = length buff % 2 ^ 16; buff = [] }) key
              (buff ++ rest))
        (sym e)
        (read-header req.mask req.cmd req.seq req.ret a b c d key buff rest h.cmd_fits h.seq_fits
          h.ret_fits)

  sized : Request → Bytes → Request
  sized req buff = record req { size = length buff; buff = [] }

  read_body-whole :
      (req : Request) (key buff rest : Bytes)
      → 0 < length buff
      → read_body mode (sized req buff) key (buff ++ rest)
        ≡ open_body mode (sized req buff) key buff rest
  unfolding read_body sized
  read_body-whole req key buff rest full =
      let filled : (length buff == 0) ≡ false = ground arith in
      rw (read_body, filled, read_full-append buff rest) refl

  plain_body :
      (req : Request) (key buff rest : Bytes)
      → (not (is_blank key) && is_crypto req) ≡ false
      → read_body mode (sized req buff) key (buff ++ rest)
        ≡ got (record req { size = length buff; buff = buff }) rest
  unfolding read_body sized open_body
  plain_body req key [] rest plain = refl
  plain_body req key (c ∷ buff) rest plain =
      read_body-whole req key (c ∷ buff) rest (omega arith) ∙ rw (open_body, plain) refl

  read-fitting :
      (req : Request) (key buff rest : Bytes)
      → IsSendable req
      → length buff < 2 ^ 16
      → read_message_with_key mode key (frame req buff ++ rest)
        ≡ read_body mode (sized req buff) key (buff ++ rest)
  unfolding sized
  read-fitting req key buff rest h fits =
      read-frame req key buff rest h
      ∙ ap (λ n. read_body mode (record req { size = n; buff = [] }) key (buff ++ rest))
          (mod-eq_of_lt fits)

  -- A message that is not encrypted, with an application name of four bytes, numbers of 16 bits
  -- and a body below 2^16 bytes, the empty one included, is read back with its body, and the
  -- reader stands right behind it.
  pub read-write_message :
      (req : Request) (key rest : Bytes)
      → IsSendable req
      → (not (is_blank key) && is_crypto req) ≡ false
      → length req.buff < 2 ^ 16
      → (bytes : Bytes) × (write_message_with_key mode req key ≡ some bytes)
        × (read_message_with_key mode key (bytes ++ rest)
            ≡ got (record req { size = length req.buff }) rest)
  unfolding write_message_with_key
  read-write_message req key rest h plain fits = (
    frame req req.buff,
    rw (write_message_with_key, plain) refl,
    read-fitting req key req.buff rest h fits ∙ plain_body req key req.buff rest plain,
  )

  -- A message whose mask asks for encryption, with a key that the cipher takes, an application
  -- name of four bytes, numbers of 16 bits and a body with sixteen bytes of room below 2^16, is
  -- read back with its body by the same key, and the reader stands right behind it.
  pub read-write_message_encrypted :
      (req : Request) (key rest : Bytes)
      → IsSendable req
      → (not (is_blank key) && is_crypto req) ≡ true
      → mode.valid_key key ≡ true
      → length req.buff + 16 < 2 ^ 16
      → (bytes : Bytes) × (n : ℕ) × (write_message_with_key mode req key ≡ some bytes)
        × (read_message_with_key mode key (bytes ++ rest) ≡ got (record req { size = n }) rest)
  unfolding write_message_with_key open_body sized
  read-write_message_encrypted req key rest h secret valid fits =
      let (crypted, sealed, opened, _, longer, bound) =
        aes_decrypt-aes_encrypt mode req.buff key valid in
      (
        frame req crypted,
        length crypted,
        rw (write_message_with_key, secret, sealed) refl,
        read-fitting req key crypted rest h (omega (arith, bound))
            ∙ read_body-whole req key crypted rest (omega (arith, longer))
            ∙ rw (open_body, secret, opened) refl,
      )

  empty_body :
      (req : Request) (key r : Bytes)
      → read_body mode (record req { size = 0 }) key r ≡ got (record req { size = 0 }) r
  unfolding read_body
  empty_body req key r = refl

  -- A body of 2^16 bytes without a key, under an application name of four bytes and numbers of 16
  -- bits, is announced as empty: the reader answers an empty message, and the body stands at the
  -- head of what it reads as the next one.
  pub read-write_message_overflow :
      (req : Request) (rest : Bytes)
      → IsSendable req
      → length req.buff ≡ 2 ^ 16
      → (bytes : Bytes) × (write_message mode req ≡ some bytes)
        × (read_message mode (bytes ++ rest)
            ≡ got (record req { size = 0; buff = [] }) (req.buff ++ rest))
  unfolding write_message_with_key
  read-write_message_overflow req rest h long = (
    frame req req.buff,
    refl,
    read-frame req [] req.buff rest h
        ∙ ap (λ n. read_body mode (record req { size = n; buff = [] }) [] (req.buff ++ rest))
            (omega (arith, long))
        ∙ empty_body (record req { buff = [] }) [] (req.buff ++ rest),
  )
