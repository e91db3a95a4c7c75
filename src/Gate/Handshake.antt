-- ===== src/Gate/Handshake.antt =====
-- gnet/handshake.go: the agreement on a key. The numbers are those of math/big, whose bytes have no
-- leading zeros; the random primes are inputs, the hash of crypto/sha256 is a parameter. A reader is
-- the bytes that the other end sends.
pub mod Agreement
pub mod Session
pub mod Tests
use goms.Base.{ℕ, ◌%◌, ◌^◌, Bytes, Option, none, some, List, [], ◌∷◌, ◌++◌, length, ◌≡◌}
use goms.Rpc.Frame.{Result, ok, err, ◌>>=◌, read_full}

-- What is used of math/big: Bytes, SetBytes and Exp, which does not reduce for the modulus 0, as `%`
-- does not.
pub record BigInt : Type 0 where
  pub bytes : ℕ → Bytes
  pub set_bytes : Bytes → ℕ
  pub exp : ℕ → ℕ → ℕ → ℕ
  pub set_bytes-bytes : (n : ℕ) → set_bytes (bytes n) ≡ n
  pub exp_lem : (x y m : ℕ) → exp x y m ≡ x ^ y % m

module _ (big : BigInt) (sum256 : Bytes → Bytes) where
  unfoldable pub read_big_int : Bytes → Result (ℕ × Bytes)
  unfolding read_full
  read_big_int conn = do (buff, rest) ← read_full 128 conn; ok (big.set_bytes buff, rest)

  unfoldable pub write_big_ints : List ℕ → Bytes
  write_big_ints [] = []
  write_big_ints (i ∷ is) = big.bytes i ++ write_big_ints is

  -- What the client sends, and its key from what the server sends.
  unfoldable pub client_hello : ℕ → ℕ → ℕ → Bytes
  unfolding write_big_ints
  client_hello p g a = write_big_ints (p ∷ g ∷ big.exp g a p ∷ [])

  unfoldable pub client_key : ℕ → ℕ → Bytes → Result Bytes
  unfolding read_big_int
  client_key p a conn = do (b, rest) ← read_big_int conn; ok (sum256 (big.bytes (big.exp b a p)))

  -- Handshake: what the server sends, and its key.
  unfoldable pub handshake : ℕ → Bytes → Result (Bytes × Bytes)
  unfolding read_big_int write_big_ints
  handshake b conn = do
    (p, r₁) ← read_big_int conn
    (g, r₂) ← read_big_int r₁
    (a, r₃) ← read_big_int r₂
    ok (write_big_ints (big.exp g b p ∷ []), sum256 (big.bytes (big.exp a b p)))
