-- ===== src/Util/Rand/Draws/Uniform.antt =====
-- The draws of Int31n, Int63n and Intn in util/rand.go are uniform.
use Prim.Native.Nat.{bit_and}
use native.Mathlib.Nat.{
  pow-succ', mod-lt, mod-eq_of_lt, div-add-mod, mul-add-mod_self_left, mul_comm, mul_assoc,
}
use goms.Base.{
  ℕ, zero, suc, ◌+◌, ◌-◌, ◌*◌, ◌/◌, ◌%◌, ◌^◌, ◌≤◌, ◌<◌, false, if◌then◌else◌, ◌==◌, ltb, leb, List,
  [], ◌∷◌, All, ◌≡◌, inl, inr, Bool-cases, refl, sym, ap, arith, ◌∙◌,
}
use goms.Base.Bits.{bit_and_digit, zero-bit_and, bit_and-ones, pow_pos}
use goms.Util.Rand.Draws.{
  Drawn, drawn, starved, draw_until, mask_first, below, int31n, int63n, int63, intn,
}

-- The result of the first step whose value is below the limit.
abbrev pub first_below : (ℕ → ℕ) → ℕ → ℕ → List ℕ → Drawn ℕ
first_below value limit n [] = starved
first_below value limit n (u ∷ us) =
    let again = first_below value limit n us in
    if ltb (value u) limit then drawn (value u % n) us else again

bit_and-even : (m : ℕ) → 0 < m → bit_and (2 * m) (2 * m - 1) ≡ 2 * bit_and m (m - 1)
bit_and-even m p = omega (
  arith,
  bit_and_digit (2 * m) (2 * m - 1),
  ap (λ a. bit_and a ((2 * m - 1) / 2)) (half m),
  ap (bit_and m) (halved m p),
)
  where
    half : (m : ℕ) → 2 * m / 2 ≡ m
    half m = omega arith

    halved : (m : ℕ) → 0 < m → (2 * m - 1) / 2 ≡ m - 1
    halved m p = omega arith

bit_and_self : (fuel n : ℕ) → n ≤ fuel → bit_and n n ≡ n
bit_and_self fuel zero h = zero-bit_and 0
bit_and_self zero (suc n) h = absurd (omega arith)
bit_and_self (suc fuel) (suc n) h =
    omega (arith, bit_and_digit (suc n) (suc n), bit_and_self fuel (suc n / 2) (omega arith))

bit_and-odd : (m : ℕ) → bit_and (2 * m + 1) (2 * m) ≡ 2 * m
bit_and-odd m = omega (
  arith,
  bit_and_digit (2 * m + 1) (2 * m),
  ap (λ a. bit_and a (2 * m / 2)) (half_odd m),
  ap (bit_and m) (half m),
  bit_and_self m m (omega arith),
)
  where
    half : (m : ℕ) → 2 * m / 2 ≡ m
    half m = omega arith

    half_odd : (m : ℕ) → (2 * m + 1) / 2 ≡ m
    half_odd m = omega arith

-- The test `n & (n - 1) == 0` of a number that is not 0.
pub power_of :
    (bits n : ℕ)
    → 0 < n
    → n < 2 ^ bits
    → bit_and n (n - 1) ≡ 0
    → (k : ℕ) × (d : ℕ) × (n ≡ 2 ^ k) × (bits ≡ k + suc d)
power_of zero n p h t = absurd (omega arith)
power_of (suc bits) n p h t = elim (Bool-cases (n % 2 == 0)) [
  | inl even ↦
      let m = n / 2 in
      let e : n ≡ 2 * m = ground arith in
      let halved : bit_and m (m - 1) ≡ 0 =
        omega (arith, bit_and-even m (omega arith), sym t, ap (λ k. bit_and k (k - 1)) e) in
      let (k, d, exact, rest) =
        power_of bits m (omega arith) (omega (arith, pow-succ' 2 bits)) halved in
      (suc k, d, omega (arith, pow-succ' 2 k, e, exact), omega (arith, rest))
  | inr odd ↦
      let m = n / 2 in
      let e : n ≡ 2 * m + 1 = ground arith in
      let none_left : 2 * m ≡ 0 =
        sym (bit_and-odd m)
        ∙ ap (bit_and (2 * m + 1)) (omega arith)
        ∙ sym (ap (λ k. bit_and k (k - 1)) e)
        ∙ t in
      (0, bits, omega (arith, e, none_left), omega arith)
]

pow-add : (k e : ℕ) → 2 ^ (k + e) ≡ 2 ^ k * 2 ^ e
pow-add k zero = ap (λ n. 2 ^ n) {y = k} (omega arith) ∙ omega arith
pow-add k (suc e) =
    ap (λ n. 2 ^ n) {y = suc (k + e)} (omega arith)
    ∙ pow-succ' 2 (k + e)
    ∙ ap (λ n. 2 * n) (pow-add k e)
    ∙ sym (mul_assoc 2 (2 ^ k) (2 ^ e))
    ∙ ap (λ n. n * 2 ^ e) (mul_comm 2 (2 ^ k))
    ∙ mul_assoc (2 ^ k) 2 (2 ^ e)
    ∙ ap (λ n. 2 ^ k * n) (sym (pow-succ' 2 e))

multiple-mod : (a b : ℕ) → 0 < a → a * b % a ≡ 0
multiple-mod a b p = ap (λ n. n % a) (omega arith) ∙ mul-add-mod_self_left a b 0 ∙ mod-eq_of_lt p

-- Where a power of two is the bound, each step has one value.
mask-first_below :
    (value : ℕ → ℕ) (bits k n : ℕ) (us : List ℕ)
    → n ≡ 2 ^ k
    → All (λ u. value u < 2 ^ bits) us
    → mask_first value n us ≡ first_below value (2 ^ bits) n us
mask-first_below value bits k n [] e h = refl
mask-first_below value bits k n (u ∷ us) e (small, h) =
    let masked : bit_and (value u) (n - 1) ≡ value u % n =
      ap (λ m. bit_and (value u) (m - 1)) e
      ∙ bit_and-ones k (value u)
      ∙ ap (λ m. value u % m) (sym e) in
    ground (arith, masked, small)

draw_until-first_below :
    (value : ℕ → ℕ) (max n : ℕ) (us : List ℕ)
    → draw_until value max n us ≡ first_below value (max + 1) n us
unfolding draw_until
draw_until-first_below value max n [] = refl
draw_until-first_below value max n (u ∷ us) = ground (arith, draw_until-first_below value max n us)

pub below-positive :
    (bits : ℕ) (value : ℕ → ℕ) (n : ℕ) (us : List ℕ)
    → (n == 0) ≡ false
    → below bits value n us ≡ (
        if bit_and n (n - 1) == 0
        then mask_first value n us
        else draw_until value (2 ^ bits - 1 - 2 ^ bits % n) n us)
unfolding below
below-positive bits value n us h = rw h refl

-- A limit that is a multiple of n and leaves out fewer than n of the values.
abbrev pub IsFair : ℕ → ℕ → ℕ → Type 0
IsFair bits n limit = (limit % n ≡ 0) × (2 ^ bits < limit + n) × (limit ≤ 2 ^ bits)

below-uniform :
    (bits : ℕ) (value : ℕ → ℕ) (n : ℕ)
    → 0 < n
    → n < 2 ^ bits
    → (limit : ℕ) × IsFair bits n limit
      × ((us : List ℕ)
          → All (λ u. value u < 2 ^ bits) us
          → below bits value n us ≡ first_below value limit n us)
below-uniform bits value n p h =
    let positive : (n == 0) ≡ false = ground arith in
    elim (Bool-cases (bit_and n (n - 1) == 0)) [
      | inl power ↦
          let (k, d, exact, rest) = power_of bits n p h (ground arith) in
          (
            2 ^ bits,
            (
              ap (λ b. 2 ^ b % n) rest
                  ∙ ap (λ m. 2 ^ (k + suc d) % m) exact
                  ∙ ap (λ m. m % 2 ^ k) (pow-add k (suc d))
                  ∙ multiple-mod (2 ^ k) (2 ^ suc d) (pow_pos k),
              omega arith,
              omega arith,
            ),
            λ us small.
                below-positive bits value n us positive
                ∙ rw power (mask-first_below value bits k n us exact small),
          )
      | inr other ↦
          let left = mod-lt (2 ^ bits) p in
          let parts = div-add-mod (2 ^ bits) n in
          (
            2 ^ bits - 1 - 2 ^ bits % n + 1,
            (
              ap (λ m. m % n) {y = n * (2 ^ bits / n)} (omega (arith, left, parts))
                  ∙ multiple-mod n (2 ^ bits / n) p,
              omega (arith, left),
              omega (arith, left),
            ),
            λ us small.
                below-positive bits value n us positive
                ∙ rw other (draw_until-first_below value _ n us),
          )
    ]

abbrev pub IsWord : ℕ → Type 0
IsWord u = u < 2 ^ 64

half-All : (us : List ℕ) → All IsWord us → All (λ u. int63 u < 2 ^ 63) us
half-All [] h = tt
half-All (u ∷ us) (small, h) = (omega arith, half-All us h)

value-All :
    (int31 : ℕ → ℕ) (us : List ℕ) → ((u : ℕ) → int31 u < 2 ^ 31) → All (λ u. int31 u < 2 ^ 31) us
value-All int31 [] small = tt
value-All int31 (u ∷ us) small = (small u, value-All int31 us small)

abbrev pub bits_of : ℕ → ℕ
bits_of n = if leb n (2 ^ 31 - 1) then 31 else 63

abbrev pub value_of : (ℕ → ℕ) → ℕ → ℕ → ℕ
value_of int31 n = if leb n (2 ^ 31 - 1) then int31 else int63

-- For a number that is not 0 and fits an int, Intn takes the first step of the generator whose
-- value is below a limit, and answers the value's remainder. The limit is a multiple of the
-- number, so that every answer has as many values, and fewer values than the number are passed
-- over. The value is that of rand.Int31 for numbers below 2^31, and the upper 63 bits of the step
-- for others.
pub intn-uniform :
    (int31 : ℕ → ℕ) (n : ℕ)
    → ((u : ℕ) → int31 u < 2 ^ 31)
    → 0 < n
    → n < 2 ^ 63
    → (limit : ℕ) × IsFair (bits_of n) n limit
      × ((us : List ℕ)
          → All IsWord us
          → intn int31 n us ≡ first_below (value_of int31 n) limit n us)
unfolding intn int31n int63n
intn-uniform int31 n small p h =
    let positive : (n == 0) ≡ false = ground arith in
    elim (Bool-cases (leb n (2 ^ 31 - 1))) [
      | inl few ↦
          let (limit, fair, same) = below-uniform 31 int31 n p (ground arith) in
          rw few (limit, fair, λ us words. rw positive (same us (value-All int31 us small)))
      | inr many ↦
          let (limit, fair, same) = below-uniform 63 int63 n p h in
          rw many (limit, fair, λ us words. rw positive (same us (half-All us words)))
    ]
