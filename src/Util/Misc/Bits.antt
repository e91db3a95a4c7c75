-- ===== src/Util/Misc/Bits.antt =====
-- The bits of a mask: RemBit, SetBit and GetBit of util/misc.go, on 32 bits. A shift by 32 or more
-- leaves nothing of the one.
use Prim.Native.Nat.{bit_and, bit_or, bit_xor}
use native.Mathlib.Nat.{mod-eq_of_lt}
use goms.Base.{
  ℕ, zero, suc, ◌*◌, ◌/◌, ◌%◌, ◌^◌, ◌<◌, true, not, ◌||◌, ◌==◌, ◌≡◌, refl, ap, arith, ◌∙◌,
}
use goms.Base.Bits.{bit_and-pow, bit_or_digit, bit_or-div, pow_pos}
use goms.Base.Powers.{pow_mono_lt, pow_digit}
use goms.Gate.Message.{get_bit}

unfoldable rem_bit : ℕ → ℕ → ℕ
rem_bit mask i = bit_xor mask (2 ^ i % 2 ^ 32)

unfoldable set_bit : ℕ → ℕ → ℕ
set_bit mask i = bit_or (2 ^ i % 2 ^ 32) mask

-- RemBit of a bit that is not there sets it.
rem_bit_test : get_bit (rem_bit 0 3) 3 ≡ true
unfolding rem_bit
rem_bit_test = refl

pow_below : (i : ℕ) → i < 32 → 2 ^ i % 2 ^ 32 ≡ 2 ^ i
pow_below i h = mod-eq_of_lt (pow_mono_lt i 32 h)

-- GetBit is the digit.
get_bit-digit : (mask i : ℕ) → i < 32 → get_bit mask i ≡ (mask / 2 ^ i % 2 == 1)
get_bit-digit mask i h =
    let one : bit_and mask (2 ^ i % 2 ^ 32) ≡ mask / 2 ^ i % 2 * 2 ^ i =
      ap (bit_and mask) (pow_below i h) ∙ bit_and-pow i mask in
    rw one (digit (mask / 2 ^ i % 2) (2 ^ i) (pow_pos i) (omega arith))
  where
    digit : (d p : ℕ) → 0 < p → d < 2 → not (d * p == 0) ≡ (d == 1)
    digit zero p h small = ground (arith)
    digit (suc zero) p h small = ground (arith)
    digit (suc (suc d)) p h small = absurd (omega arith)

-- After SetBit of a bit below 32 a bit below 32 is there if it is the one that was set or was there.
get_bit-set_bit :
    (mask i j : ℕ) → i < 32 → j < 32 → get_bit (set_bit mask i) j ≡ (i == j || get_bit mask j)
unfolding set_bit
get_bit-set_bit mask i j hi hj =
    let kept = pow_below i hi in
    ap (λ p. get_bit (bit_or p mask) j) kept
    ∙ get_bit-digit (bit_or (2 ^ i) mask) j hj
    ∙ ground (
      arith,
      bit_or-div j (2 ^ i) mask,
      bit_or_digit (2 ^ i / 2 ^ j) (mask / 2 ^ j),
      pow_digit i j,
      get_bit-digit mask j hj,
    )
