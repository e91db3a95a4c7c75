-- ===== src/Util/Rand/Draws/Shuffled.antt =====
-- The range of the draws of util/rand.go, and the arrays that it shuffles.
use Prim.Native.Nat.{bit_and}
use mathlib.Core.List.Perm
use mathlib.Core.List.{Perm}
use native.Mathlib.Nat.{mod-lt}
use goms.Base.{
  ℕ, zero, suc, ◌+◌, ◌-◌, ◌%◌, ◌^◌, ◌≤◌, ◌<◌, false, ◌==◌, ltb, leb, List, [], ◌∷◌, set, get_or,
  length, length-set, ◌≡◌, inl, inr, Bool-cases, refl, sym, ap, arith, ◌∙◌, subst,
}
use goms.Base.Bits.{bit_and-ones}
use goms.Util.Rand.Draws.{
  Drawn, drawn, starved, panicked, draw_until, mask_first, below, int31n, int63n, int63, intn,
  random_uint32, swap, shuffle_down, shuffle_array,
}
use goms.Util.Rand.Draws.Uniform.{power_of, below-positive}

-- What a draw may end with: a value with a property, or no more steps.
abbrev pub Returns {ℓ} : {A : Type ℓ} → (A → Type 0) → Drawn A → Type 0
Returns P (drawn a rest) = P a
Returns P starved = Unit
Returns P panicked = ⊥

abbrev pub Under : ℕ → ℕ → Type 0
Under n v = v < n

draw_until-Under :
    (value : ℕ → ℕ) (max n : ℕ) (us : List ℕ)
    → 0 < n
    → Returns (Under n) (draw_until value max n us)
unfolding draw_until
draw_until-Under value max n [] p = tt
draw_until-Under value max n (u ∷ us) p = elim (Bool-cases (ltb max (value u))) [
  | inl over ↦ rw over (draw_until-Under value max n us p)
  | inr fine ↦ rw fine (mod-lt (value u) p)
]

mask-Under :
    (value : ℕ → ℕ) (k n : ℕ) (us : List ℕ)
    → 0 < n
    → n ≡ 2 ^ k
    → Returns (Under n) (mask_first value n us)
mask-Under value k n [] p e = tt
mask-Under value k n (u ∷ us) p e = omega (
  arith,
  ap (λ m. bit_and (value u) (m - 1)) e,
  bit_and-ones k (value u),
  ap (λ m. value u % m) e,
  mod-lt (value u) p,
)

below-Under :
    (bits : ℕ) (value : ℕ → ℕ) (n : ℕ) (us : List ℕ)
    → 0 < n
    → n < 2 ^ bits
    → Returns (Under n) (below bits value n us)
below-Under bits value n us p h =
    subst (Returns (Under n)) (sym (below-positive bits value n us (ground arith)))
      (elim (Bool-cases (bit_and n (n - 1) == 0)) [
        | inl power ↦
            let (k, d, exact, _) = power_of bits n p h (ground arith) in
            rw power (mask-Under value k n us p exact)
        | inr other ↦ rw other (draw_until-Under value _ n us p)
      ])

-- Intn of a number that is not 0 and fits an int draws a number below it, and does not panic.
pub intn-Under :
    (int31 : ℕ → ℕ) (n : ℕ) (us : List ℕ) → 0 < n → n < 2 ^ 63 → Returns (Under n) (intn int31 n us)
unfolding intn int31n int63n
intn-Under int31 n us p h =
    let positive : (n == 0) ≡ false = ground arith in
    elim (Bool-cases (leb n (2 ^ 31 - 1))) [
      | inl few ↦ rw positive (rw few (below-Under 31 int31 n us p (ground arith)))
      | inr many ↦ rw positive (rw many (below-Under 63 int63 n us p h))
    ]

exchange-perm : (j x : ℕ) (xs : List ℕ) → j < length xs → Perm (get_or xs j 0 ∷ set xs j x) (x ∷ xs)
exchange-perm j x [] h = absurd (omega arith)
exchange-perm zero x (y ∷ ys) h = Perm.swap x y ys
exchange-perm (suc j) x (y ∷ ys) h =
    Perm.trans (Perm.swap y (get_or ys j 0) (set ys j x))
      (Perm.trans (Perm.cons y (exchange-perm j x ys (omega arith))) (Perm.swap x y ys))

swap-perm : (r j : ℕ) (xs : List ℕ) → r ≤ j → j < length xs → Perm (swap r j xs) xs
swap-perm r j [] le h = absurd (omega arith)
swap-perm zero zero (x ∷ xs) le h = Perm.refl (x ∷ xs)
swap-perm zero (suc j) (x ∷ xs) le h = exchange-perm j x xs (omega arith)
swap-perm (suc r) zero (x ∷ xs) le h = absurd (omega arith)
swap-perm (suc r) (suc j) (x ∷ xs) le h = Perm.cons x (swap-perm r j xs (omega arith) (omega arith))

length-swap : (r j : ℕ) (xs : List ℕ) → length (swap r j xs) ≡ length xs
length-swap r j xs =
    length-set (set xs r (get_or xs j 0)) j (get_or xs r 0) ∙ length-set xs r (get_or xs j 0)

Returns-weaken :
    {A : Type 0} (P Q : A → Type 0)
    → ((a : A) → P a → Q a)
    → (d : Drawn A) → Returns P d
    → Returns Q d
Returns-weaken P Q f (drawn a rest) h = f a h
Returns-weaken P Q f starved h = tt
Returns-weaken P Q f panicked h = h

abbrev pub Shuffles : List ℕ → List ℕ → Type 0
Shuffles xs ys = Perm ys xs × (length ys ≡ length xs)

shuffle_down-Shuffles :
    (int31 : ℕ → ℕ) (j : ℕ) (xs us : List ℕ)
    → j ≤ length xs
    → length xs < 2 ^ 63
    → Returns (Shuffles xs) (shuffle_down int31 j xs us)
unfolding shuffle_down
shuffle_down-Shuffles int31 zero xs us le fits = (Perm.refl xs, refl)
shuffle_down-Shuffles int31 (suc j) xs us le fits =
    after (intn int31 (j + 1) us) (intn-Under int31 (j + 1) us (omega arith) (omega arith))
      (λ r rest.
        shuffle_down-Shuffles int31 j (swap r j xs) rest (omega (arith, length-swap r j xs))
          (omega (arith, length-swap r j xs)))
  where
    after :
        (d : Drawn ℕ)
        → Returns (Under (j + 1)) d
        → ((r : ℕ) (rest : List ℕ)
            → Returns (Shuffles (swap r j xs)) (shuffle_down int31 j (swap r j xs) rest))
        → Returns (Shuffles xs) (elim d [
          | panicked ↦ panicked
          | starved ↦ starved
          | drawn r rest ↦ shuffle_down int31 j (swap r j xs) rest
        ])
    after (drawn r rest) lt next =
        Returns-weaken (Shuffles (swap r j xs)) (Shuffles xs)
          (λ ys p. (
            Perm.trans p.0 (swap-perm r j xs (omega arith) (omega arith)),
            p.1 ∙ length-swap r j xs,
          ))
          _ (next r rest)
    after starved _ _ = tt
    after panicked h _ = h

-- An array of at most 2^63 - 1 elements that was shuffled has the same elements as before, each as
-- often, and no draw panics or stands outside the array.
pub shuffle_array-Shuffles :
    (int31 : ℕ → ℕ) (n : ℕ) (xs us : List ℕ)
    → length xs < 2 ^ 63
    → Returns (Shuffles xs) (shuffle_array int31 n xs us)
unfolding shuffle_array
shuffle_array-Shuffles int31 zero xs us fits = (Perm.refl xs, refl)
shuffle_array-Shuffles int31 (suc n) xs us fits =
    after (shuffle_down int31 (length xs) xs us)
      (shuffle_down-Shuffles int31 (length xs) xs us (omega arith) fits)
      (λ ys rest small. shuffle_array-Shuffles int31 n ys rest small)
  where
    after :
        (d : Drawn (List ℕ))
        → Returns (Shuffles xs) d
        → ((ys rest : List ℕ)
            → length ys < 2 ^ 63
            → Returns (Shuffles ys) (shuffle_array int31 n ys rest))
        → Returns (Shuffles xs) (elim d [
          | panicked ↦ panicked
          | starved ↦ starved
          | drawn ys rest ↦ shuffle_array int31 n ys rest
        ])
    after (drawn ys rest) p next =
        Returns-weaken (Shuffles ys) (Shuffles xs) (λ zs q. (Perm.trans q.0 p.0, q.1 ∙ p.1)) _
          (next ys rest (subst (λ k. k < 2 ^ 63) (sym p.1) fits))
    after starved _ _ = tt
    after panicked h _ = h

abbrev pub Between : ℕ → ℕ → ℕ → Type 0
Between min max v = (min ≤ v) × (v ≤ max)

-- RandomUint32 draws between its bounds, both included, unless they are the whole of uint32.
pub random_uint32-Between :
    (int31 : ℕ → ℕ) (min max : ℕ) (us : List ℕ)
    → min ≤ max
    → max - min < 2 ^ 32 - 1
    → max < 2 ^ 32
    → Returns (Between min max) (random_uint32 int31 min max us)
unfolding random_uint32
random_uint32-Between int31 min max us le part fits =
    let width : ℕ = (max + (2 ^ 32 - min) + 1) % 2 ^ 32 in
    after (intn int31 width us) (intn-Under int31 width us (omega arith) (omega arith))
  where
    after :
        (d : Drawn ℕ)
        → Returns (Under ((max + (2 ^ 32 - min) + 1) % 2 ^ 32)) d
        → Returns (Between min max) (elim d [
          | panicked ↦ panicked
          | starved ↦ starved
          | drawn v rest ↦ drawn ((v % 2 ^ 32 + min) % 2 ^ 32) rest
        ])
    after (drawn v rest) lt = omega arith
    after starved _ = tt
    after panicked h = h

-- Over the whole of uint32 it panics.
pub random_uint32_whole :
    (int31 : ℕ → ℕ) (us : List ℕ) → random_uint32 int31 0 (2 ^ 32 - 1) us ≡ panicked
unfolding random_uint32 intn
random_uint32_whole int31 us = refl
