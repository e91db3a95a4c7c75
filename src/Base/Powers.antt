-- ===== src/Base/Powers.antt =====
-- The order and the digits of the powers of two.
use Prim.Native.Nat.{ℕ, zero, suc, ◌+◌, ◌-◌, ◌/◌, ◌%◌, ◌^◌, ◌≤◌, ◌<◌}
use mathlib.Core.Path.{◌≡◌, refl, sym, ◌∙◌, ap, subst}
use native.Mathlib.Nat.{pow-succ', zero-div}
use native.Mathlib.Omega.{arith}
use goms.Base.Bits.{pow_pos, div-double, half_pow}
use native.Mathlib.Decide.{dec_lt}
use goms.Base.Tests.{◌==◌, if◌then◌else◌}

pow_add-le : (a d : ℕ) → 2 ^ a ≤ 2 ^ (a + d)
pow_add-le a zero = subst (λ n. 2 ^ a ≤ 2 ^ n) {x = a} (omega arith) (omega arith)
pow_add-le a (suc d) =
    omega (arith, pow_add-le a d, pow-succ' 2 (a + d), ap (λ n. 2 ^ n) (step a d))
  where
    step : (a d : ℕ) → a + suc d ≡ suc (a + d)
    step a d = omega arith

pub pow_mono : (a b : ℕ) → a ≤ b → 2 ^ a ≤ 2 ^ b
pow_mono a b h = subst (λ n. 2 ^ a ≤ 2 ^ n) {x = a + (b - a)} (omega arith) (pow_add-le a (b - a))

pub pow_mono_lt : (a b : ℕ) → a < b → 2 ^ a < 2 ^ b
pow_mono_lt a b h = omega (arith, pow_mono (suc a) b, pow-succ' 2 a, pow_pos a)

pub pow-lt : (a b : ℕ) → 2 ^ a < 2 ^ b → a < b
pow-lt a b h = elim (dec_lt a b) [
  | yes p ↦ p
  | no p ↦ absurd (omega (arith, pow_mono b a (omega arith)))
]

pub pow-le : (a b : ℕ) → 2 ^ a ≤ 2 ^ b → a ≤ b
pow-le a b h = elim (dec_lt b a) [
  | no p ↦ omega arith
  | yes p ↦ absurd (omega (arith, pow_mono_lt b a p))
]

-- A power has one digit that is not 0.
pub pow_digit : (i j : ℕ) → 2 ^ i / 2 ^ j % 2 ≡ (if i == j then 1 else 0)
pow_digit zero zero = refl
pow_digit (suc i) zero = ground (arith, pow-succ' 2 i)
pow_digit zero (suc j) = ap (λ n. n % 2) (sym (div-double 1 j) ∙ zero-div (2 ^ j)) ∙ ground arith
pow_digit (suc i) (suc j) =
    ap (λ n. n % 2) (sym (div-double (2 ^ suc i) j) ∙ ap (λ n. n / 2 ^ j) (half_pow i))
    ∙ pow_digit i j
    ∙ ground arith
