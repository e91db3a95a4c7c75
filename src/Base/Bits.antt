-- ===== src/Base/Bits.antt =====
-- Laws of `&` and `|` on unsigned words, from the recursion on binary digits that the native
-- operations stand for.
use Prim.Native.Nat.{
  ℕ, zero, suc, ◌+◌, ◌-◌, ◌*◌, ◌/◌, ◌%◌, ◌^◌, ◌≤◌, ◌<◌, min, max, bit_and, bit_or, digits,
  bit_and-bitwise, bit_or-bitwise,
}
use mathlib.Core.Path.{◌≡◌, refl, sym, ◌∙◌, ap, ap₂, ◌≡⟨◌⟩◌, ◌∎}
use native.Mathlib.Nat.{
  pow-succ', div-div-eq-div-mul, mod-lt, div-add-mod, mul-add-mod_self_left, mod-eq_of_lt,
  mul_assoc,
}
use native.Mathlib.Omega.{arith}

module _ (z : ℕ → ℕ) (f : ℕ → ℕ → ℕ) where
  -- Any count of digits from the first number on gives the same result.
  digits_enough : (n m a b : ℕ) → a ≤ n → a ≤ m → digits z f n a b ≡ digits z f m a b
  digits_enough zero zero a b p q = refl
  digits_enough zero (suc m) zero b p q = refl
  digits_enough zero (suc m) (suc a) b p q = absurd (omega arith)
  digits_enough (suc n) zero zero b p q = refl
  digits_enough (suc n) zero (suc a) b p q = absurd (omega arith)
  digits_enough (suc n) (suc m) zero b p q = refl
  digits_enough (suc n) (suc m) (suc a) b p q =
      ap (λ d. d * 2 + f (suc a % 2) (b % 2))
        (digits_enough n m (suc a / 2) (b / 2) (omega arith) (omega arith))

zero-bit_or : (b : ℕ) → bit_or 0 b ≡ b
zero-bit_or b = bit_or-bitwise 0 b

pub zero-bit_and : (b : ℕ) → bit_and 0 b ≡ 0
zero-bit_and b = bit_and-bitwise 0 b

-- One digit of each.
pub bit_or_digit : (a b : ℕ) → bit_or a b ≡ bit_or (a / 2) (b / 2) * 2 + max (a % 2) (b % 2)
bit_or_digit zero b = omega (arith, zero-bit_or b, zero-bit_or (b / 2))
bit_or_digit (suc a) b = omega (
  arith,
  bit_or-bitwise (suc a) b,
  bit_or-bitwise (suc a / 2) (b / 2),
  digits_enough (λ d. d) max a (suc a / 2) (suc a / 2) (b / 2) (omega arith) (omega arith),
)

pub bit_and_digit : (a b : ℕ) → bit_and a b ≡ bit_and (a / 2) (b / 2) * 2 + min (a % 2) (b % 2)
bit_and_digit zero b = omega (arith, zero-bit_and b, zero-bit_and (b / 2))
bit_and_digit (suc a) b = omega (
  arith,
  bit_and-bitwise (suc a) b,
  bit_and-bitwise (suc a / 2) (b / 2),
  digits_enough (λ d. 0) min a (suc a / 2) (suc a / 2) (b / 2) (omega arith) (omega arith),
)

bit_or-zero_below : (n a : ℕ) → a ≤ n → bit_or a 0 ≡ a
bit_or-zero_below n zero h = zero-bit_or 0
bit_or-zero_below zero (suc a) h = absurd (omega arith)
bit_or-zero_below (suc n) (suc a) h =
    omega (arith, bit_or_digit (suc a) 0, bit_or-zero_below n (suc a / 2) (omega arith))

pub bit_or-zero : (a : ℕ) → bit_or a 0 ≡ a
bit_or-zero a = bit_or-zero_below a a (omega arith)

pub zero_bit_or : (a : ℕ) → bit_or 0 a ≡ a
zero_bit_or = zero-bit_or

-- Shifts by `k` follow the digits one at a time.
pub div-double : (a k : ℕ) → a / 2 / 2 ^ k ≡ a / 2 ^ suc k
div-double a k = div-div-eq-div-mul a 2 (2 ^ k) ∙ ap (λ p. a / p) (sym (pow-succ' 2 k))

pub pow_pos : (k : ℕ) → 0 < 2 ^ k
pow_pos zero = omega arith
pow_pos (suc k) = omega (arith, pow-succ' 2 k, pow_pos k)

mod_double_by : (a p : ℕ) → 0 < p → a % (2 * p) ≡ a / 2 % p * 2 + a % 2
mod_double_by a p h =
    let r = a / 2 % p * 2 + a % 2 in
    let small : r < 2 * p = omega (arith, mod-lt (a / 2) h) in
    let split : 2 * p * (a / 2 / p) + r ≡ a =
      omega (arith, ap (λ (x : ℕ). 2 * x) (div-add-mod (a / 2) p)) in
    ap (λ x. x % (2 * p)) (sym split)
    ∙ mul-add-mod_self_left (2 * p) (a / 2 / p) r
    ∙ mod-eq_of_lt small

mod-double : (a k : ℕ) → a % 2 ^ suc k ≡ a / 2 % 2 ^ k * 2 + a % 2
mod-double a k = ap (λ p. a % p) (pow-succ' 2 k) ∙ mod_double_by a (2 ^ k) (pow_pos k)

bit_or-half : (a b : ℕ) → bit_or a b / 2 ≡ bit_or (a / 2) (b / 2)
bit_or-half a b = omega (arith, bit_or_digit a b)

-- `(a | b) >> k` is `a >> k | b >> k`.
pub bit_or-div : (k a b : ℕ) → bit_or a b / 2 ^ k ≡ bit_or (a / 2 ^ k) (b / 2 ^ k)
bit_or-div zero a b = omega (arith, ap₂ bit_or (div_one a) (div_one b))
  where
    div_one : (a : ℕ) → a / 2 ^ 0 ≡ a
    div_one a = omega arith
bit_or-div (suc k) a b =
    bit_or a b / 2 ^ suc k
    ≡⟨ sym (div-double (bit_or a b) k) ⟩ bit_or a b / 2 / 2 ^ k
    ≡⟨ ap (λ x. x / 2 ^ k) (bit_or-half a b) ⟩ bit_or (a / 2) (b / 2) / 2 ^ k
    ≡⟨ bit_or-div k (a / 2) (b / 2) ⟩ bit_or (a / 2 / 2 ^ k) (b / 2 / 2 ^ k)
    ≡⟨ ap₂ bit_or (div-double a k) (div-double b k) ⟩ bit_or (a / 2 ^ suc k) (b / 2 ^ suc k) ∎

-- The low bits of `a | b`.
pub bit_or-mod : (k a b : ℕ) → bit_or a b % 2 ^ k ≡ bit_or (a % 2 ^ k) (b % 2 ^ k)
bit_or-mod zero a b = omega (arith, zero-bit_or 0, ap₂ bit_or (mod_one a) (mod_one b))
  where
    mod_one : (a : ℕ) → a % 2 ^ 0 ≡ 0
    mod_one a = omega arith
bit_or-mod (suc k) a b = omega (
  arith,
  mod-double (bit_or a b) k,
  mod-double a k,
  mod-double b k,
  ap (λ x. x % 2 ^ k) (bit_or-half a b),
  bit_or_digit a b,
  bit_or-mod k (a / 2) (b / 2),
  bit_or_digit (a % 2 ^ suc k) (b % 2 ^ suc k),
  ap₂ bit_or (half_mod a k) (half_mod b k),
)
  where
    half_mod : (a k : ℕ) → a % 2 ^ suc k / 2 ≡ a / 2 % 2 ^ k
    half_mod a k = omega (arith, mod-double a k)

bit_and-nothing : (a : ℕ) → bit_and a 0 ≡ 0
bit_and-nothing a = below a a (omega arith)
  where
    below : (n a : ℕ) → a ≤ n → bit_and a 0 ≡ 0
    below n zero h = zero-bit_and 0
    below zero (suc a) h = absurd (omega arith)
    below (suc n) (suc a) h =
        omega (arith, bit_and_digit (suc a) 0, below n (suc a / 2) (omega arith))

pub half_pow : (k : ℕ) → 2 ^ suc k / 2 ≡ 2 ^ k
half_pow k = omega (arith, pow-succ' 2 k)

-- A mask of the one bit `k`.
pub bit_and-pow : (k a : ℕ) → bit_and a (2 ^ k) ≡ a / 2 ^ k % 2 * 2 ^ k
bit_and-pow zero a = omega (arith, bit_and_digit a 1, bit_and-nothing (a / 2))
bit_and-pow (suc k) a =
    let half : bit_and a (2 ^ suc k) ≡ bit_and (a / 2) (2 ^ k) * 2 =
      omega
        (arith, pow-succ' 2 k, bit_and_digit a (2 ^ suc k), ap (bit_and (a / 2)) (half_pow k)) in
    half
    ∙ ap (λ n. n * 2) (bit_and-pow k (a / 2))
    ∙ mul_assoc (a / 2 / 2 ^ k % 2) (2 ^ k) 2
    ∙ ap₂ (λ n p. n % 2 * p) (div-double a k) (omega (arith, pow-succ' 2 k))

-- A mask of `k` ones.
pub bit_and-ones : (k a : ℕ) → bit_and a (2 ^ k - 1) ≡ a % 2 ^ k
bit_and-ones zero a = omega (arith, bit_and-nothing a)
bit_and-ones (suc k) a =
    let p : 0 < 2 ^ k = pow_pos k in
    omega (
      arith,
      pow-succ' 2 k,
      mod-double a k,
      bit_and_digit a (2 ^ suc k - 1),
      ap (bit_and (a / 2)) (half_ones k p),
      bit_and-ones k (a / 2),
    )
  where
    half_ones : (k : ℕ) → 0 < 2 ^ k → (2 ^ suc k - 1) / 2 ≡ 2 ^ k - 1
    half_ones k p = omega (arith, pow-succ' 2 k)
