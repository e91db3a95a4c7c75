-- ===== src/Gate/Handshake/Agreement.antt =====
-- Both ends of gnet/handshake.go agree.
use native.Mathlib.Nat.{
  mul-add-mod_self_left, div-add-mod, pow-suc, pow-zero, add-mul, mul_comm, mul_assoc,
}
use goms.Base.{ℕ, zero, suc, ◌+◌, ◌*◌, ◌/◌, ◌%◌, ◌^◌, Bytes, [], ◌++◌, length, ◌≡◌, sym, ap, ◌∙◌}
use goms.Rpc.Frame.{Result, ok, read_full, ◌>>=◌}
use goms.Rpc.Frame.RoundTrip.{read_full-append}
use goms.Gate.Handshake.{BigInt, read_big_int, write_big_ints, client_hello, client_key, handshake}

mod_mul : (x y m : ℕ) → x % m * y % m ≡ x * y % m
mod_mul x y m =
    sym (mul-add-mod_self_left m (x / m * y) (x % m * y))
    ∙ ap (λ n. n % m)
        (ap (λ n. n + x % m * y) (sym (mul_assoc m (x / m) y))
          ∙ sym (add-mul (m * (x / m)) (x % m) y)
          ∙ ap (λ n. n * y) (div-add-mod x m))

mod_pow : (x n m : ℕ) → (x % m) ^ n % m ≡ x ^ n % m
mod_pow x zero m = ap (λ k. k % m) (pow-zero (x % m) ∙ sym (pow-zero x))
mod_pow x (suc n) m =
    ap (λ k. k % m) (pow-suc (x % m) n)
    ∙ sym (mod_mul ((x % m) ^ n) (x % m) m)
    ∙ ap (λ k. k * (x % m) % m) (mod_pow x n m)
    ∙ mod_mul (x ^ n) (x % m) m
    ∙ ap (λ k. k % m) (mul_comm (x ^ n) (x % m))
    ∙ mod_mul x (x ^ n) m
    ∙ ap (λ k. k % m) (mul_comm x (x ^ n) ∙ sym (pow-suc x n))

mul_four : (x y a b : ℕ) → x * y * (a * b) ≡ x * a * (y * b)
mul_four x y a b =
    mul_assoc x y (a * b)
    ∙ ap (λ k. x * k) (sym (mul_assoc y a b) ∙ ap (λ k. k * b) (mul_comm y a) ∙ mul_assoc a y b)
    ∙ sym (mul_assoc x a (y * b))

mul_pow : (x y n : ℕ) → (x * y) ^ n ≡ x ^ n * y ^ n
mul_pow x y zero =
    pow-zero (x * y) ∙ sym (ap (λ k. k * y ^ 0) (pow-zero x) ∙ ap (λ k. 1 * k) (pow-zero y))
mul_pow x y (suc n) =
    pow-suc (x * y) n
    ∙ ap (λ k. k * (x * y)) (mul_pow x y n)
    ∙ mul_four (x ^ n) (y ^ n) x y
    ∙ sym (ap (λ k. k * y ^ suc n) (pow-suc x n) ∙ ap (λ k. x ^ n * x * k) (pow-suc y n))

one_pow : (n : ℕ) → 1 ^ n ≡ 1
one_pow zero = pow-zero 1
one_pow (suc n) = pow-suc 1 n ∙ ap (λ k. k * 1) (one_pow n)

pow_swap : (g a b : ℕ) → (g ^ a) ^ b ≡ (g ^ b) ^ a
pow_swap g a zero = pow-zero (g ^ a) ∙ sym (ap (λ k. k ^ a) (pow-zero g) ∙ one_pow a)
pow_swap g a (suc b) =
    pow-suc (g ^ a) b
    ∙ ap (λ k. k * g ^ a) (pow_swap g a b)
    ∙ sym (mul_pow (g ^ b) g a)
    ∙ ap (λ k. k ^ a) (sym (pow-suc g b))

-- Raising the other end's number to one's own exponent gives the same number at both ends.
exp_agree : (g a b p : ℕ) → (g ^ a % p) ^ b % p ≡ (g ^ b % p) ^ a % p
exp_agree g a b p =
    mod_pow (g ^ a) b p ∙ ap (λ k. k % p) (pow_swap g a b) ∙ sym (mod_pow (g ^ b) a p)

module _ (big : BigInt) (sum256 : Bytes → Bytes) where
  read_big_int-bytes :
      (n : ℕ) (rest : Bytes)
      → length (big.bytes n) ≡ 128
      → read_big_int big sum256 (big.bytes n ++ rest) ≡ ok (n, rest)
  unfolding read_big_int
  read_big_int-bytes n rest h =
      let whole : read_full 128 (big.bytes n ++ rest) ≡ ok (big.bytes n, rest) =
        ap (λ k. read_full k (big.bytes n ++ rest)) (sym h) ∙ read_full-append (big.bytes n) rest in
      rw whole (ap (λ k. ok (k, rest)) (big.set_bytes-bytes n))

  exp_swap : (g a b p : ℕ) → big.exp (big.exp g b p) a p ≡ big.exp (big.exp g a p) b p
  exp_swap g a b p =
      big.exp_lem (big.exp g b p) a p
      ∙ ap (λ k. k ^ a % p) (big.exp_lem g b p)
      ∙ sym (exp_agree g a b p)
      ∙ sym (ap (λ k. k ^ b % p) (big.exp_lem g a p))
      ∙ sym (big.exp_lem (big.exp g a p) b p)

  -- The server's side on what it reads.
  handshake_lem :
      (b p g a : ℕ)
      → (r r₁ r₂ r₃ : Bytes) → read_big_int big sum256 r ≡ ok (p, r₁)
      → read_big_int big sum256 r₁ ≡ ok (g, r₂)
      → read_big_int big sum256 r₂ ≡ ok (a, r₃)
      → handshake big sum256 b r
        ≡ ok (big.bytes (big.exp g b p) ++ [], sum256 (big.bytes (big.exp a b p)))
  unfolding handshake write_big_ints
  handshake_lem b p g a r r₁ r₂ r₃ hp hg ha =
      let answer : ℕ → ℕ → ℕ × Bytes → Result (Bytes × Bytes) =
        λ p g x. ok (big.bytes (big.exp g b p) ++ [], sum256 (big.bytes (big.exp x.0 b p))) in
      ap
        (λ (k : Result (ℕ × Bytes)). k >>= λ x.
          read_big_int big sum256 x.1 >>= λ y. read_big_int big sum256 y.1 >>= answer x.0 y.0)
        hp
      ∙ ap (λ (k : Result (ℕ × Bytes)). k >>= λ y. read_big_int big sum256 y.1 >>= answer p y.0) hg
      ∙ ap (λ (k : Result (ℕ × Bytes)). k >>= answer p g) ha

  -- For a private number b of the server and p, g and a of the client, when each of p, g and the
  -- client's public number has 128 bytes: the server answers with its public number, and its key is
  -- the hash of the client's public number raised to b.
  pub handshake-client_hello :
      (p g a b : ℕ)
      → length (big.bytes p) ≡ 128
      → length (big.bytes g) ≡ 128
      → length (big.bytes (big.exp g a p)) ≡ 128
      → handshake big sum256 b (client_hello big sum256 p g a)
        ≡ ok (big.bytes (big.exp g b p) ++ [], sum256 (big.bytes (big.exp (big.exp g a p) b p)))
  unfolding client_hello write_big_ints
  handshake-client_hello p g a b hp hg ha =
      let rest_a = big.bytes (big.exp g a p) ++ [] in
      let rest_g = big.bytes g ++ rest_a in
      handshake_lem b p g (big.exp g a p) (big.bytes p ++ rest_g) rest_g rest_a []
        (read_big_int-bytes p rest_g hp) (read_big_int-bytes g rest_a hg)
        (read_big_int-bytes (big.exp g a p) [] ha)

  -- For a private number b of the server and p, g and a of the client, when the server's public
  -- number has 128 bytes: the client that reads it has the key the server has.
  pub client_key-answer :
      (p g a b : ℕ)
      → length (big.bytes (big.exp g b p)) ≡ 128
      → client_key big sum256 p a (big.bytes (big.exp g b p) ++ [])
        ≡ ok (sum256 (big.bytes (big.exp (big.exp g a p) b p)))
  unfolding client_key
  client_key-answer p g a b hb =
      rw (read_big_int-bytes (big.exp g b p) [] hb)
        (ap (λ k. ok (sum256 (big.bytes k))) (exp_swap g a b p))
