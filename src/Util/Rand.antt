-- ===== src/Util/Rand.antt =====
-- The weighted choice of util/rand.go: an index, the smaller its load the likelier. Loads are
-- uint64, and the random number is an input.
pub mod Draws
pub mod Sums
pub mod Share
pub mod Tests
use goms.Base.{
  ℕ, zero, suc, ◌+◌, ◌-◌, ◌/◌, ◌%◌, ◌^◌, List, [], ◌∷◌, map, Bool, true, false, if◌then◌else◌, ltb,
  leb, ◌==◌, Option, none, some,
}

-- The loop for the largest load.
unfoldable pub max_from : ℕ → List ℕ → ℕ
max_from max [] = max
max_from max (w ∷ weights) = max_from (if ltb max w then w else max) weights

-- The weight that a load of 0 gets.
unfoldable pub raise : ℕ → ℕ
raise max = if ltb max 10 then max + 10 else (max + max / 5) % 2 ^ 64

-- `max - weights[i]` on uint64.
abbrev pub minus : ℕ → ℕ → ℕ
minus max w = (max + (2 ^ 64 - w)) % 2 ^ 64

unfoldable pub reweigh : ℕ → List ℕ → List ℕ
reweigh max [] = []
reweigh max (w ∷ weights) = minus max w ∷ reweigh max weights

unfoldable pub total_from : ℕ → List ℕ → ℕ
total_from total [] = total
total_from total (w ∷ weights) = total_from ((total + w) % 2 ^ 64) weights

-- The last loop: the index at which `r` runs out, or 0.
unfoldable pub index_from : ℕ → ℕ → List ℕ → ℕ
index_from i r [] = 0
index_from i r (w ∷ weights) =
    let rest = index_from (i + 1) (r - w) weights in if ltb r w then i else rest

-- The choice among weights; `none` is the panic of a division by a total of 0.
unfoldable pub choose : ℕ → List ℕ → Option (ℕ × List ℕ)
choose random weights =
    let total = total_from 0 weights in
    if total == 0 then none else some (index_from 0 (random % total) weights, weights)

unfoldable pub weights_of : List ℕ → List ℕ
weights_of loads = reweigh (raise (max_from 0 loads)) loads

-- RandLessWight: the index, and the slice that it leaves to the caller; `none` is a panic.
unfoldable pub rand_less_weight : ℕ → List ℕ → Option (ℕ × List ℕ)
rand_less_weight random [] = none
rand_less_weight random (w ∷ []) = some (0, w ∷ [])
rand_less_weight random (w ∷ v ∷ rest) = choose random (weights_of (w ∷ v ∷ rest))
