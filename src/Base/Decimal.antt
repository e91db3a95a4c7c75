-- ===== src/Base/Decimal.antt =====
-- strconv.Itoa and strconv.Atoi on 64-bit integers. Every caller here drops Atoi's error and uses
-- its value: 0 after a syntax error, the nearest bound when the number is out of range.
use goms.Base.Tests.{ltb, leb, ◌==◌, if◌then◌else◌}
use goms.Base.Keys.{Bytes, codes}
use goms.Base.Lists.{All}
use goms.Base.Int.{ℤ, pos, negsuc, IsInt64}
use Prim.Native.Nat.{ℕ, zero, suc, ◌+◌, ◌-◌, ◌*◌, ◌/◌, ◌%◌, ◌^◌, ◌≤◌, ◌<◌}
use mathlib.Core.Path.{◌≡◌, refl, sym, ◌∙◌}
use mathlib.Core.Bool.{false, Bool, ◌&&◌}
use mathlib.Core.List.{[], ◌∷◌}
use mathlib.Core.Logic.{◌≢◌}
use mathlib.Core.Option.{Option, none, some}
use native.Mathlib.Omega.{arith}

-- The digits of `n` before `out`; `n < fuel` rounds are enough.
print : ℕ → ℕ → Bytes → Bytes
print zero n out = out
print (suc f) n out =
    let rest = print f (n / 10) ((b'0' + n % 10) ∷ out) in
    if ltb n 10 then (b'0' + n) ∷ out else rest

unfoldable pub format_nat : ℕ → Bytes
unfolding print
format_nat n = print (suc n) n []

unfoldable pub itoa : ℤ → Bytes
itoa (pos n) = format_nat n
itoa (negsuc n) = b'-' ∷ format_nat (suc n)

abbrev pub is_digit : ℕ → Bool
is_digit c = leb b'0' c && leb c b'9'

-- The loop of ParseUint: a byte that is no digit is a syntax error, and the first digit past
-- 2^64 - 1 ends it with that bound.
read : Bytes → ℕ → Option ℕ
read [] n = some n
read (c ∷ s) n =
    let m = n * 10 + (c - b'0') in
    let rest = read s m in
    if is_digit c then (if ltb (2 ^ 64 - 1) m then some (2 ^ 64 - 1) else rest) else none

read_number : Bytes → Option ℕ
unfolding read
read_number [] = none
read_number (c ∷ s) = read (c ∷ s) 0

clamp_pos : Option ℕ → ℤ
clamp_pos none = pos 0
clamp_pos (some n) = if ltb n (2 ^ 63) then pos n else pos (2 ^ 63 - 1)

clamp_neg : Option ℕ → ℤ
clamp_neg none = pos 0
clamp_neg (some zero) = pos 0
clamp_neg (some (suc n)) = if ltb n (2 ^ 63) then negsuc n else negsuc (2 ^ 63 - 1)

unfoldable pub atoi : Bytes → ℤ
unfolding read_number clamp_pos clamp_neg
atoi [] = pos 0
atoi (c ∷ s) =
    if c == b'-'
    then clamp_neg (read_number s)
    else if c == b'+'
    then clamp_pos (read_number s)
    else clamp_pos (read_number (c ∷ s))

read-print : (f n : ℕ) (out : Bytes) → n < f → n < 2 ^ 64 → read (print f n out) 0 ≡ read out n
unfolding read print
read-print zero n out h k = absurd (omega arith)
read-print (suc f) n out h k = ground (arith, read-print f (n / 10) ((b'0' + n % 10) ∷ out))

-- The first byte of a print is a digit.
abbrev StartsWithDigit : Bytes → Type 0
StartsWithDigit [] = ⊥
StartsWithDigit (c ∷ s) = (b'0' ≤ c) × (c ≤ b'9')

print-StartsWithDigit : (f n : ℕ) (out : Bytes) → n < f → StartsWithDigit (print f n out)
unfolding print
print-StartsWithDigit zero n out h = absurd (omega arith)
print-StartsWithDigit (suc f) n out h =
    ground (arith, print-StartsWithDigit f (n / 10) ((b'0' + n % 10) ∷ out))

read_number-read : (s : Bytes) → StartsWithDigit s → read_number s ≡ read s 0
unfolding read_number
read_number-read [] h = absurd h
read_number-read (c ∷ s) h = refl

format_nat-StartsWithDigit : (n : ℕ) → StartsWithDigit (format_nat n)
unfolding format_nat
format_nat-StartsWithDigit n = print-StartsWithDigit (suc n) n [] (omega arith)

read_number-format : (n : ℕ) → n < 2 ^ 64 → read_number (format_nat n) ≡ some n
unfolding read
read_number-format n h =
    read_number-read (format_nat n) (format_nat-StartsWithDigit n)
    ∙ unfold format_nat in read-print (suc n) n [] (omega arith) h

atoi-unsigned : (s : Bytes) → StartsWithDigit s → atoi s ≡ clamp_pos (read_number s)
unfolding atoi
atoi-unsigned [] h = absurd h
atoi-unsigned (c ∷ s) h = ground arith

clamp_pos-small : (n : ℕ) → n < 2 ^ 63 → clamp_pos (some n) ≡ pos n
unfolding clamp_pos
clamp_pos-small n h = ground arith

atoi_negative :
    (n : ℕ) (s : Bytes) → n < 2 ^ 63 → read_number s ≡ some (suc n) → atoi (b'-' ∷ s) ≡ negsuc n
unfolding atoi
atoi_negative n s h e = ground arith

-- A 64-bit integer is read back from its print.
pub atoi-itoa : (z : ℤ) → IsInt64 z → atoi (itoa z) ≡ z
unfolding itoa
atoi-itoa (pos n) h =
    atoi-unsigned (format_nat n) (format_nat-StartsWithDigit n)
    ∙ rw (read_number-format n (omega arith)) (clamp_pos-small n h)
atoi-itoa (negsuc n) h =
    atoi_negative n (format_nat (suc n)) h (read_number-format (suc n) (omega arith))

atoi_tests :
    (atoi (codes "-12") ≡ negsuc 11)
    × (atoi (codes "1x") ≡ pos 0)
    × (atoi (codes "99999999999999999999x") ≡ pos (2 ^ 63 - 1))
unfolding atoi
atoi_tests = (refl, refl, refl)

pub itoa-ne-nil : (z : ℤ) → itoa z ≢ []
unfolding itoa
itoa-ne-nil (pos n) = ne-nil (format_nat n) (format_nat-StartsWithDigit n)
  where
    ne-nil : (s : Bytes) → StartsWithDigit s → s ≢ []
    ne-nil [] h = absurd h
    ne-nil (c ∷ s) h = cc
itoa-ne-nil (negsuc n) = cc

-- Every byte of a print is a digit or the sign.
print-AtLeast :
    (f n : ℕ) (out : Bytes) → All (λ c. b'-' ≤ c) out → All (λ c. b'-' ≤ c) (print f n out)
unfolding print
print-AtLeast zero n out h = h
print-AtLeast (suc f) n out h =
    ground (arith, print-AtLeast f (n / 10) ((b'0' + n % 10) ∷ out) (omega arith, h))

pub itoa-AtLeast : (z : ℤ) → All (λ c. b'-' ≤ c) (itoa z)
unfolding itoa format_nat
itoa-AtLeast (pos n) = print-AtLeast (suc n) n [] tt
itoa-AtLeast (negsuc n) = (omega arith, print-AtLeast (suc (suc n)) (suc n) [] tt)

-- No byte of a print is this one, if it is neither a digit nor the sign.
print-Misses :
    (b f n : ℕ) (out : Bytes)
    → is_digit b ≡ false
    → All (λ c. c ≢ b) out
    → All (λ c. c ≢ b) (print f n out)
unfolding print
print-Misses b zero n out k h = h
print-Misses b (suc f) n out k h =
    ground (arith, print-Misses b f (n / 10) ((b'0' + n % 10) ∷ out) k)

pub itoa-Misses : (b : ℕ) (z : ℤ) → is_digit b ≡ false → b ≢ b'-' → All (λ c. c ≢ b) (itoa z)
unfolding itoa format_nat
itoa-Misses b (pos n) k m = print-Misses b (suc n) n [] k tt
itoa-Misses b (negsuc n) k m = (λ e. m (sym e), print-Misses b (suc (suc n)) (suc n) [] k tt)
