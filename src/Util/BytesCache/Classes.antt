-- ===== src/Util/BytesCache/Classes.antt =====
-- The size classes of getIndex in util/bytes_cache/cache.go.
use Prim.Native.Nat.{bit_and}
use native.Mathlib.Nat.{pow-succ'}
use goms.Base.{
  ℕ, zero, suc, ◌+◌, ◌-◌, ◌*◌, ◌/◌, ◌%◌, ◌^◌, ◌≤◌, ◌<◌, true, false, ◌==◌, ◌≡◌, ◌≢◌, ◌↔◌, inl, inr,
  Bool-cases, refl, sym, ap, arith, ◌∙◌, subst,
}
use goms.Base.Bits.{bit_and_digit, zero-bit_and, pow_pos}
use goms.Base.Powers.{pow_mono, pow-lt, pow-le}
use goms.Util.BytesCache.{is_power, shifts, get_index}

-- A number and its complement share no bit.
bit_and-complement : (w n : ℕ) → n < 2 ^ w → bit_and n (2 ^ w - 1 - n) ≡ 0
bit_and-complement zero zero h = zero-bit_and 0
bit_and-complement zero (suc n) h = absurd (omega arith)
bit_and-complement (suc w) n h = omega (
  arith,
  pow-succ' 2 w,
  bit_and_digit n (2 ^ suc w - 1 - n),
  ap (bit_and (n / 2)) (halved w n h),
  bit_and-complement w (n / 2) (omega (arith, pow-succ' 2 w)),
)
  where
    halved : (w n : ℕ) → n < 2 ^ suc w → (2 ^ suc w - 1 - n) / 2 ≡ 2 ^ w - 1 - n / 2
    halved w n h = omega (arith, pow-succ' 2 w)

-- The negative of an even number, and that of an odd one.
bit_and-negative_even : (w m : ℕ) → bit_and (2 * m) (2 ^ suc w - 2 * m) ≡ 2 * bit_and m (2 ^ w - m)
bit_and-negative_even w m = omega (
  arith,
  pow-succ' 2 w,
  bit_and_digit (2 * m) (2 ^ suc w - 2 * m),
  ap (λ a. bit_and a ((2 ^ suc w - 2 * m) / 2)) (half m),
  ap (bit_and m) (halved w m),
)
  where
    half : (m : ℕ) → 2 * m / 2 ≡ m
    half m = omega arith

    halved : (w m : ℕ) → (2 ^ suc w - 2 * m) / 2 ≡ 2 ^ w - m
    halved w m = omega (arith, pow-succ' 2 w)

bit_and-negative_odd : (w m : ℕ) → m < 2 ^ w → bit_and (2 * m + 1) (2 ^ suc w - (2 * m + 1)) ≡ 1
bit_and-negative_odd w m h = omega (
  arith,
  pow-succ' 2 w,
  bit_and_digit (2 * m + 1) (2 ^ suc w - (2 * m + 1)),
  ap (λ a. bit_and a ((2 ^ suc w - (2 * m + 1)) / 2)) (half m),
  ap (bit_and m) (halved w m h),
  bit_and-complement w m h,
)
  where
    half : (m : ℕ) → (2 * m + 1) / 2 ≡ m
    half m = omega arith

    halved : (w m : ℕ) → m < 2 ^ w → (2 ^ suc w - (2 * m + 1)) / 2 ≡ 2 ^ w - 1 - m
    halved w m h = omega (arith, pow-succ' 2 w)

shifts-zero : (fuel i : ℕ) → shifts fuel 0 i ≡ i
unfolding shifts
shifts-zero zero i = refl
shifts-zero (suc fuel) i = refl

-- What the loop and the test say of a size: its highest power of two, and whether it is that.
abbrev HasTop : ℕ → ℕ → ℕ → Type 0
HasTop w n k =
    ((i : ℕ) → shifts w n i ≡ suc k + i)
    × (2 ^ k ≤ n)
    × (n < 2 ^ suc k)
    × (is_power w n ≡ true → n ≡ 2 ^ k)
    × (is_power w n ≡ false → 2 ^ k < n)

shifts-step : (w n i : ℕ) → n ≢ 0 → shifts (suc w) n i ≡ shifts w (n / 2) (i + 1)
unfolding shifts
shifts-step w n i h = ground arith

is_power-one : (w : ℕ) → is_power (suc w) 1 ≡ true
is_power-one w = ground (arith, bit_and-negative_odd w 0, pow_pos w)

is_power-even : (w m : ℕ) → is_power (suc w) (2 * m) ≡ is_power w m
is_power-even w m = ground (arith, bit_and-negative_even w m)

is_power-odd : (w m : ℕ) → 0 < m → m < 2 ^ w → is_power (suc w) (2 * m + 1) ≡ false
is_power-odd w m p h = ground (arith, bit_and-negative_odd w m)

HasTop-even : (w m k : ℕ) → 0 < m → HasTop w m k → HasTop (suc w) (2 * m) (suc k)
HasTop-even w m k p (count, low, high, exact, more) = (
  (λ i.
      shifts-step w (2 * m) i (omega arith)
      ∙ ap (λ n. shifts w n (i + 1)) (half m)
      ∙ count (i + 1)
      ∙ omega arith),
  omega (arith, pow-succ' 2 k),
  omega (arith, pow-succ' 2 (suc k)),
  (λ t. omega (arith, pow-succ' 2 k, exact (sym (is_power-even w m) ∙ t))),
  (λ t. omega (arith, pow-succ' 2 k, more (sym (is_power-even w m) ∙ t))),
)
  where
    half : (m : ℕ) → 2 * m / 2 ≡ m
    half m = omega arith

HasTop-odd : (w m k : ℕ) → 0 < m → m < 2 ^ w → HasTop w m k → HasTop (suc w) (2 * m + 1) (suc k)
HasTop-odd w m k p h (count, low, high, exact, more) = (
  (λ i.
      shifts-step w (2 * m + 1) i (omega arith)
      ∙ ap (λ n. shifts w n (i + 1)) (half m)
      ∙ count (i + 1)
      ∙ omega arith),
  omega (arith, pow-succ' 2 k),
  omega (arith, pow-succ' 2 (suc k)),
  (λ t. absurd (cc (is_power-odd w m p h))),
  (λ t. omega (arith, pow-succ' 2 k)),
)
  where
    half : (m : ℕ) → (2 * m + 1) / 2 ≡ m
    half m = omega arith

has_top : (w n : ℕ) → 0 < n → n < 2 ^ w → (k : ℕ) × HasTop w n k
has_top zero n p h = absurd (omega arith)
has_top (suc w) n p h = elim (Bool-cases (n / 2 == 0)) [
  | inl last ↦
      let e : n ≡ 1 = ground arith in
      (
        0,
        subst (λ n. HasTop (suc w) n 0) (sym e)
            (
              (λ i. shifts-step w 1 i (omega arith) ∙ shifts-zero w (i + 1) ∙ omega arith),
              omega arith,
              omega arith,
              (λ t. refl),
              (λ t. absurd (cc (is_power-one w))),
            ),
      )
  | inr more ↦
      let (k, top) = has_top w (n / 2) (ground arith) (omega (arith, pow-succ' 2 w)) in
      elim (Bool-cases (n % 2 == 0)) [
        | inl even ↦
            let e : n ≡ 2 * (n / 2) = ground arith in
            (
              suc k,
              subst (λ n. HasTop (suc w) n (suc k)) (sym e)
                  (HasTop-even w (n / 2) k (ground arith) top),
            )
        | inr odd ↦
            let e : n ≡ 2 * (n / 2) + 1 = ground arith in
            (
              suc k,
              subst (λ n. HasTop (suc w) n (suc k)) (sym e)
                  (HasTop-odd w (n / 2) k (ground arith) (omega (arith, pow-succ' 2 w)) top),
            )
      ]
]

get_index-power :
    (size k : ℕ) → 0 < size → is_power 64 size ≡ true → HasTop 64 size k → get_index size ≡ k
unfolding get_index
get_index-power size k p t top = ground (arith, top.0 0)

get_index-between :
    (size k : ℕ) → 0 < size → is_power 64 size ≡ false → HasTop 64 size k → get_index size ≡ suc k
unfolding get_index
get_index-between size k p t top = ground (arith, top.0 0)

get_index-zero : get_index 0 ≡ 0
unfolding get_index
get_index-zero = refl

-- For a size that fits 64 bits, getIndex is the least class whose power of two is enough: it is at
-- most `i` exactly when the size is at most the i-th power.
pub get_index_iff : (size i : ℕ) → size < 2 ^ 64 → (get_index size ≤ i) ↔ (size ≤ 2 ^ i)
get_index_iff zero i h = (λ _. omega arith, λ _. omega (arith, get_index-zero))
get_index_iff (suc n) i h =
    let (k, top) = has_top 64 (suc n) (omega arith) h in
    elim (Bool-cases (is_power 64 (suc n))) [
      | inl t ↦
          let e = get_index-power (suc n) k (omega arith) t top in
          let exact : suc n ≡ 2 ^ k = top.3 t in
          (
            λ le. omega (arith, e, exact, pow_mono k i (omega (arith, e))),
            λ le. omega (arith, e, pow-le k i (omega (arith, exact))),
          )
      | inr t ↦
          let e = get_index-between (suc n) k (omega arith) t top in
          let more : 2 ^ k < suc n = top.4 t in
          (
            λ le. omega (arith, e, top.2, pow_mono (suc k) i (omega (arith, e))),
            λ le. omega (arith, e, pow-lt k i (omega (arith, more))),
          )
    ]

-- A capacity that Put keeps, if there is any, is the power of its class.
pub get_index-exact :
    (capa : ℕ) → 0 < capa → capa < 2 ^ 64 → is_power 64 capa ≡ true → 2 ^ get_index capa ≡ capa
get_index-exact capa p h t =
    let (k, top) = has_top 64 capa p h in
    ap (λ n. 2 ^ n) (get_index-power capa k p t top) ∙ sym (top.3 t)
