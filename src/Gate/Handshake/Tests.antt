-- ===== src/Gate/Handshake/Tests.antt =====
-- The handshake of gnet/handshake.go with numbers to base 256, a sum of zeros in place of sha256 and
-- a block mode that changes nothing.
use goms.Base.{
  ℕ, zero, suc, ◌+◌, ◌*◌, ◌/◌, ◌%◌, ◌-◌, ◌^◌, ◌≤◌, Bytes, codes, some, [], ◌∷◌, ◌++◌, true, false,
  ◌==◌, length, replicate, length-replicate, ◌≡◌, refl, ap, arith, ◌∙◌, inl, inr,
}
use goms.Base.{Bool-cases}
use goms.Util.Crypto.{BlockMode}
use goms.Rpc.Frame.{ok}
use goms.Gate.Message.{Request, got, write_message_with_key, read_message_with_key}
use goms.Gate.Message.RoundTrip.{IsSendable}
use goms.Gate.Handshake.{BigInt, client_hello, client_key, handshake}
use goms.Gate.Handshake.Session.{session}

-- Big-endian, without leading zeros, with fuel for the digits.
unfoldable to_bytes : ℕ → ℕ → Bytes
to_bytes zero n = []
to_bytes (suc fuel) n = elim (n == 0) [
  | true ↦ []
  | false ↦ to_bytes fuel (n / 256) ++ n % 256 ∷ []
]

unfoldable from_bytes : ℕ → Bytes → ℕ
from_bytes n [] = n
from_bytes n (c ∷ s) = from_bytes (n * 256 + c) s

from_bytes-append : (n c : ℕ) (s : Bytes) → from_bytes n (s ++ c ∷ []) ≡ from_bytes n s * 256 + c
unfolding from_bytes
from_bytes-append n c [] = refl
from_bytes-append n c (d ∷ s) = from_bytes-append (n * 256 + d) c s

from_bytes-to_bytes : (fuel n : ℕ) → n ≤ fuel → from_bytes 0 (to_bytes fuel n) ≡ n
unfolding from_bytes to_bytes
from_bytes-to_bytes zero n h = omega arith
from_bytes-to_bytes (suc fuel) n h = elim (Bool-cases (n == 0)) [
  | inl blank ↦ rw (to_bytes, blank) (ground (arith, blank))
  | inr more ↦
      rw (to_bytes, more)
        (from_bytes-append 0 (n % 256) (to_bytes fuel (n / 256))
          ∙ ap (λ k. k * 256 + n % 256) (from_bytes-to_bytes fuel (n / 256) (ground (arith, more)))
          ∙ omega arith)
]

abbrev big : BigInt
big = record {
  bytes = λ n. to_bytes n n;
  set_bytes = from_bytes 0;
  exp = λ x y m. x ^ y % m;
  set_bytes-bytes = λ n. from_bytes-to_bytes n n (omega arith);
  exp_lem = λ x y m. refl;
}

abbrev sum256 : Bytes → Bytes
sum256 s = replicate 32 0

abbrev mode : BlockMode
mode = record {
  valid_key = λ key. length key == 32;
  encrypt = λ key text. text;
  decrypt = λ key text. text;
  length-encrypt = λ key text. refl;
  decrypt-encrypt = λ key text h. refl;
}

abbrev request : Request
request = record {
  app = codes "game";
  mask = 1;
  size = 0;
  cmd = 258;
  seq = 7;
  ret = 0;
  buff = codes "hello";
}

request-IsSendable : IsSendable request
request-IsSendable = record {
  four = refl;
  cmd_fits = omega arith;
  seq_fits = omega arith;
  ret_fits = omega arith;
}

-- Numbers of 128 bytes; the private numbers are 2 for the client and 3 for the server.
abbrev p : ℕ
p = 2 ^ 1024 - 1

abbrev g : ℕ
g = 2 ^ 1024 - 2 ^ 1020 - 3

len_p : length (big.bytes p) ≡ 128
unfolding to_bytes
len_p = refl

len_g : length (big.bytes g) ≡ 128
unfolding to_bytes
len_g = refl

len_a : length (big.bytes (big.exp g 2 p)) ≡ 128
unfolding to_bytes
len_a = refl

len_b : length (big.bytes (big.exp g 3 p)) ≡ 128
unfolding to_bytes
len_b = refl

session_example :
    (answer key bytes : Bytes) × (n : ℕ) × (handshake big sum256 3 (client_hello big sum256 p g 2)
      ≡ ok (answer, key))
    × (client_key big sum256 p 2 answer ≡ ok key)
    × (write_message_with_key mode request key ≡ some bytes)
    × (read_message_with_key mode key (bytes ++ codes "x")
        ≡ got (record request { size = n }) (codes "x"))
session_example =
    session big sum256 mode (λ s. length-replicate {A = ℕ} 32 0) (λ key h. ground (arith, h)) p g 2
      3 request (codes "x") len_p len_g len_a len_b request-IsSendable refl (omega arith)
