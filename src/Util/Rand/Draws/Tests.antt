-- ===== src/Util/Rand/Draws/Tests.antt =====
-- Draws of util/rand.go from given steps, and the theorems at them.
use goms.Base.{ℕ, ◌%◌, ◌^◌, codes, List, [], ◌∷◌, All, ◌≡◌, refl, arith}
use native.Mathlib.Nat.{mod-lt}
use goms.Util.Rand.Draws.{
  drawn, intn, int31n, below, random_uint32, shuffle_array, get_random_string, draw_until,
}
use goms.Util.Rand.Draws.Uniform.{IsFair, first_below, IsWord, intn-uniform}
use goms.Util.Rand.Draws.Shuffled.{
  Returns, Shuffles, shuffle_array-Shuffles, Between, random_uint32-Between,
}

-- The upper half of the step without its sign.
abbrev int31 : ℕ → ℕ
int31 u = u % 2 ^ 31

steps : intn int31 6 (2147483647 ∷ 20 ∷ 5 ∷ []) ≡ drawn 2 (5 ∷ [])
unfolding intn int31n below draw_until
steps = refl

text : get_random_string int31 3 (10 ∷ 0 ∷ 61 ∷ []) ≡ drawn (codes "a0Z") []
unfolding get_random_string intn int31n below draw_until
text = refl

abbrev array : List ℕ
array = 1 ∷ 2 ∷ 3 ∷ []

intn-uniform_example :
    (limit : ℕ) × IsFair 31 6 limit
    × ((us : List ℕ) → All IsWord us → intn int31 6 us ≡ first_below int31 limit 6 us)
intn-uniform_example =
    intn-uniform int31 6 (λ u. mod-lt u (omega arith)) (omega arith) (omega arith)

shuffle_array-Shuffles_example :
    Returns (Shuffles array) (shuffle_array int31 1 array (4 ∷ 9 ∷ 2 ∷ []))
shuffle_array-Shuffles_example = shuffle_array-Shuffles int31 1 array (4 ∷ 9 ∷ 2 ∷ []) (omega arith)

random_uint32-Between_example : Returns (Between 5 9) (random_uint32 int31 5 9 (7 ∷ []))
random_uint32-Between_example =
    random_uint32-Between int31 5 9 (7 ∷ []) (omega arith) (omega arith) (omega arith)
