-- ===== src/Util/Rand/Draws.antt =====
-- The draws of util/rand.go over math/rand: Int31n, Int63n, Intn, and what is built on them. The
-- steps of the generator are an input; `int31` is what rand.Int31 makes of a step, and rand.Uint64
-- is the step.
pub mod Uniform
pub mod Shuffled
pub mod Tests
use Prim.Native.Nat.{bit_and}
use goms.Base.{
  ℕ, zero, suc, ◌+◌, ◌-◌, ◌/◌, ◌%◌, ◌^◌, Bytes, codes, Option, none, some, List, [], ◌∷◌, Bool,
  true, false, if◌then◌else◌, ◌==◌, ltb, leb, length, get_or, set,
}

-- What a draw ends with: a value and the steps that are left, no more steps, or a panic.
pub data Drawn {ℓ} (A : Type ℓ) : Type ℓ where
  drawn : A → List ℕ → Drawn A
  starved : Drawn A
  panicked : Drawn A

-- The loop that draws again while the value is above `max`.
unfoldable pub draw_until : (ℕ → ℕ) → ℕ → ℕ → List ℕ → Drawn ℕ
draw_until value max n [] = starved
draw_until value max n (u ∷ us) =
    let again = draw_until value max n us in
    if ltb max (value u) then again else drawn (value u % n) us

abbrev pub mask_first : (ℕ → ℕ) → ℕ → List ℕ → Drawn ℕ
mask_first value n [] = starved
mask_first value n (u ∷ us) = drawn (bit_and (value u) (n - 1)) us

-- Int31n and Int63n: the same code for 31 and for 63 bits.
unfoldable pub below : ℕ → (ℕ → ℕ) → ℕ → List ℕ → Drawn ℕ
unfolding draw_until
below bits value n us =
    if n == 0
    then panicked
    else if bit_and n (n - 1) == 0
    then mask_first value n us
    else draw_until value (2 ^ bits - 1 - 2 ^ bits % n) n us

-- Int63
abbrev pub int63 : ℕ → ℕ
int63 u = u / 2

-- `x[r], x[j] = x[j], x[r]`
abbrev pub swap : ℕ → ℕ → List ℕ → List ℕ
swap r j xs = set (set xs r (get_or xs j 0)) j (get_or xs r 0)

module _ (int31 : ℕ → ℕ) where
  unfoldable pub int31n : ℕ → List ℕ → Drawn ℕ
  int31n n us = below 31 int31 n us

  unfoldable pub int63n : ℕ → List ℕ → Drawn ℕ
  int63n n us = below 63 int63 n us

  -- Intn for a number that is not negative.
  unfoldable pub intn : ℕ → List ℕ → Drawn ℕ
  intn n us = if n == 0 then panicked else if leb n (2 ^ 31 - 1) then int31n n us else int63n n us

  -- RandomUint32
  unfoldable pub random_uint32 : ℕ → ℕ → List ℕ → Drawn ℕ
  random_uint32 min max us = elim (intn ((max + (2 ^ 32 - min) + 1) % 2 ^ 32) us) [
    | panicked ↦ panicked
    | starved ↦ starved
    | drawn v rest ↦ drawn ((v % 2 ^ 32 + min) % 2 ^ 32) rest
  ]

  abbrev random_str : Bytes
  random_str = codes "0123456789abcdefghijklmnopqrstuvwxyzABCDEFGHIJKLMNOPQRSTUVWXYZ"

  unfoldable pub get_random_string : ℕ → List ℕ → Drawn Bytes
  get_random_string zero us = drawn [] us
  get_random_string (suc n) us = elim (intn (length random_str) us) [
    | panicked ↦ panicked
    | starved ↦ starved
    | drawn v rest ↦ elim (get_random_string n rest) [
      | panicked ↦ panicked
      | starved ↦ starved
      | drawn s rest' ↦ drawn (get_or random_str v 0 ∷ s) rest'
    ]
  ]

  -- The inner loop of ShuffleUint32Array, for the places below `j`.
  unfoldable pub shuffle_down : ℕ → List ℕ → List ℕ → Drawn (List ℕ)
  shuffle_down zero xs us = drawn xs us
  shuffle_down (suc j) xs us = elim (intn (j + 1) us) [
    | panicked ↦ panicked
    | starved ↦ starved
    | drawn r rest ↦ shuffle_down j (swap r j xs) rest
  ]

  -- ShuffleUint32Array and ShuffleInt32Array
  unfoldable pub shuffle_array : ℕ → List ℕ → List ℕ → Drawn (List ℕ)
  unfolding shuffle_down
  shuffle_array zero xs us = drawn xs us
  shuffle_array (suc n) xs us = elim (shuffle_down (length xs) xs us) [
    | panicked ↦ panicked
    | starved ↦ starved
    | drawn ys rest ↦ shuffle_array n ys rest
  ]
