-- ===== src/Util/Rand/Share.antt =====
-- What share of the random numbers each index of RandLessWight in util/rand.go has.
use native.Mathlib.Nat.{mod-eq_of_lt}
use goms.Base.{
  ℕ, ◌+◌, ◌-◌, ◌*◌, ◌%◌, ◌^◌, ◌≤◌, ◌<◌, List, [], ◌∷◌, ◌++◌, length, some, ◌≡◌, refl, ap, ◌∙◌,
  arith, All, All-map,
}
use goms.Util.Rand.{
  max_from, raise, minus, reweigh, index_from, choose, weights_of, rand_less_weight,
}
use goms.Util.Rand.Sums.{
  AtMost, Below, sum, max_from-AtMost, max_from-bound, total_from-sum, index_from-share,
  raise-AtMost, minus-small, reweigh-append, length-reweigh, sum-append, sum-reweigh,
  index_from-bound,
}

-- The weight of a load of 0 among these loads.
abbrev pub top_of : List ℕ → ℕ
top_of ws = raise (max_from 0 ws)

-- Loads below the top, and a top below the bound.
top_of-Below :
    (bound : ℕ) (ws : List ℕ)
    → All (AtMost bound) ws
    → 2 * bound + 10 < 2 ^ 64
    → All (Below (top_of ws)) ws × (top_of ws ≤ 2 * bound + 10)
top_of-Below bound ws all small =
    let raised =
      raise-AtMost bound (max_from 0 ws) (max_from-bound bound 0 ws (omega arith) all) small in
    (
      All-map (AtMost (max_from 0 ws)) (Below (top_of ws)) (λ w h. omega arith) ws
          (max_from-AtMost 0 ws).1,
      raised.1,
    )

-- The choice among weights whose sum does not wrap.
choose_lem :
    (random : ℕ) (weights : List ℕ)
    → 0 < sum weights
    → sum weights < 2 ^ 64
    → choose random weights ≡ some (index_from 0 (random % sum weights) weights, weights)
unfolding choose
choose_lem random weights positive small = ground (arith, total_from-sum 0 weights (omega arith))

-- Loads at most `bound`, few enough that no sum of weights wraps.
abbrev pub LeavesRoom : ℕ → List ℕ → Type 0
LeavesRoom bound ws = All (AtMost bound) ws × (length ws * (2 * bound + 10) < 2 ^ 64)

room_of : (bound w : ℕ) (ws : List ℕ) → LeavesRoom bound (w ∷ ws) → 2 * bound + 10 < 2 ^ 64
room_of bound w ws h = ground (arith, h.1)

sum_positive : (top w : ℕ) (ws : List ℕ) → w < top → top < 2 ^ 64 → 0 < sum (reweigh top (w ∷ ws))
unfolding reweigh
sum_positive top w ws h small = let first = minus-small top w h small in omega arith

weights_of-sum :
    (bound w : ℕ) (ws : List ℕ)
    → LeavesRoom bound (w ∷ ws)
    → (0 < sum (weights_of (w ∷ ws))) × (sum (weights_of (w ∷ ws)) < 2 ^ 64)
unfolding weights_of
weights_of-sum bound w ws (all, room) =
    let top = top_of (w ∷ ws) in
    let wide = room_of bound w ws (all, room) in
    let (below, capped) = top_of-Below bound (w ∷ ws) all wide in
    let total = sum-reweigh top (2 * bound + 10) (w ∷ ws) capped (omega arith) below in
    (sum_positive top w ws below.0 (omega arith), omega arith)

index-weights_of : (r w : ℕ) (ws : List ℕ) → index_from 0 r (weights_of (w ∷ ws)) < length (w ∷ ws)
unfolding weights_of reweigh
index-weights_of r w ws =
    let top = top_of (w ∷ ws) in
    let found = index_from-bound 0 r (minus top w) (reweigh top ws) in
    ground (arith, length-reweigh top ws)

-- For at least one load, each at most a bound that leaves room for the sum of the weights in 64
-- bits, RandLessWight does not panic, and its index is one of the loads.
pub rand_less_weight-total :
    (random bound w : ℕ) (ws : List ℕ)
    → LeavesRoom bound (w ∷ ws)
    → (index : ℕ) × (weights : List ℕ) × (rand_less_weight random (w ∷ ws) ≡ some (index, weights))
      × (index < length (w ∷ ws))
unfolding rand_less_weight
rand_less_weight-total random bound w [] h = (0, w ∷ [], refl, omega arith)
rand_less_weight-total random bound w (v ∷ rest) h =
    let (positive, small) = weights_of-sum bound w (v ∷ rest) h in
    let weights = weights_of (w ∷ v ∷ rest) in
    (
      index_from 0 (random % sum weights) weights,
      weights,
      choose_lem random weights positive small,
      index-weights_of (random % sum weights) w (v ∷ rest),
    )

rand_less_weight-many :
    (random : ℕ) (loads : List ℕ)
    → 1 < length loads
    → rand_less_weight random loads ≡ choose random (weights_of loads)
unfolding rand_less_weight
rand_less_weight-many random [] h = ground arith
rand_less_weight-many random (w ∷ []) h = ground arith
rand_less_weight-many random (w ∷ v ∷ rest) h = refl

-- What the theorem below takes from the loads: the sums of their weights, and the load in question.
many_sums :
    (bound : ℕ) (loads : List ℕ)
    → 1 < length loads
    → LeavesRoom bound loads
    → (0 < sum (weights_of loads))
      × (sum (weights_of loads) < 2 ^ 64)
      × All (Below (top_of loads)) loads
      × (top_of loads < 2 ^ 64)
many_sums bound [] h room = ground arith
many_sums bound (w ∷ ws) h room =
    let sums = weights_of-sum bound w ws room in
    let below = top_of-Below bound (w ∷ ws) room.0 (room_of bound w ws room) in
    let wide = room_of bound w ws room in (sums.0, sums.1, below.0, omega arith)

Below-middle : (top w : ℕ) (before after : List ℕ) → All (Below top) (before ++ w ∷ after) → w < top
Below-middle top w [] after all = all.0
Below-middle top w (b ∷ before) after all = Below-middle top w before after all.1

weights_of-append :
    (w : ℕ) (before after : List ℕ)
    → let top = top_of (before ++ w ∷ after) in
      weights_of (before ++ w ∷ after) ≡ reweigh top before ++ minus top w ∷ reweigh top after
unfolding weights_of reweigh
weights_of-append w before after = reweigh-append (top_of (before ++ w ∷ after)) before (w ∷ after)

-- For two loads or more, each at most a bound that leaves room for the sum of the weights in 64
-- bits, RandLessWight answers the index of a load `w` for each of the `top - w` random numbers
-- that follow those of the loads before it; `top` is the same for all loads.
pub rand_less_weight-share :
    (bound w x : ℕ) (before after : List ℕ)
    → 1 < length (before ++ w ∷ after)
    → LeavesRoom bound (before ++ w ∷ after)
    → x < top_of (before ++ w ∷ after) - w
    → rand_less_weight
        (sum (reweigh (top_of (before ++ w ∷ after)) before) + x)
        (before ++ w ∷ after)
      ≡ some (length before, weights_of (before ++ w ∷ after))
rand_less_weight-share bound w x before after many room h =
    let loads = before ++ w ∷ after in
    let top = top_of loads in
    let rb = reweigh top before in
    let ra = reweigh top after in
    let (positive, small, below, wide) = many_sums bound loads many room in
    let weight = minus-small top w (Below-middle top w before after below) wide in
    let split = weights_of-append w before after in
    let total : sum (weights_of loads) ≡ sum rb + (minus top w + sum ra) =
      rw split (sum-append rb (minus top w ∷ ra)) in
    let inside : (sum rb + x) % sum (weights_of loads) ≡ sum rb + x = mod-eq_of_lt (omega arith) in
    let found : index_from 0 (sum rb + x) (weights_of loads) ≡ length before = rw split (
      index_from-share 0 x (minus top w) rb ra (omega arith)
      ∙ ground (arith, length-reweigh top before)) in
    rand_less_weight-many (sum rb + x) loads many
    ∙ choose_lem (sum rb + x) (weights_of loads) positive small
    ∙ rw inside (ap (λ i. some (i, weights_of loads)) found)
