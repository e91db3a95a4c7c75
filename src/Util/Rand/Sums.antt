-- ===== src/Util/Rand/Sums.antt =====
-- The loops of RandLessWight of util/rand.go, each against its sum or its bound.
use goms.Base.{
  ℕ, suc, ◌+◌, ◌-◌, ◌*◌, ◌%◌, ◌^◌, ◌≤◌, ◌<◌, List, [], ◌∷◌, ◌++◌, length, if◌then◌else◌, ltb, ◌≡◌,
  refl, ap, arith, All,
}
use goms.Util.Rand.{max_from, raise, minus, reweigh, total_from, index_from}

abbrev pub AtMost : ℕ → ℕ → Type 0
AtMost bound w = w ≤ bound

abbrev pub Below : ℕ → ℕ → Type 0
Below bound w = w < bound

abbrev pub sum : List ℕ → ℕ
sum [] = 0
sum (w ∷ ws) = w + sum ws

-- The loop for the maximum bounds every load, and stays within a bound of them all.
pub max_from-AtMost :
    (max : ℕ) (ws : List ℕ) → (max ≤ max_from max ws) × All (AtMost (max_from max ws)) ws
unfolding max_from
max_from-AtMost max [] = (omega arith, tt)
max_from-AtMost max (w ∷ ws) = ground (arith, max_from-AtMost (if ltb max w then w else max) ws)

pub max_from-bound :
    (bound max : ℕ) (ws : List ℕ) → max ≤ bound → All (AtMost bound) ws → max_from max ws ≤ bound
unfolding max_from
max_from-bound bound max [] h all = h
max_from-bound bound max (w ∷ ws) h all =
    max_from-bound bound (if ltb max w then w else max) ws (ground arith) all.1

-- Without overflow the sum is the sum.
pub total_from-sum :
    (total : ℕ) (ws : List ℕ) → total + sum ws < 2 ^ 64 → total_from total ws ≡ total + sum ws
unfolding total_from
total_from-sum total [] h = omega arith
total_from-sum total (w ∷ ws) h =
    let small : (total + w) % 2 ^ 64 ≡ total + w = omega arith in
    rw small (ground (arith, total_from-sum (total + w) ws (omega arith)))

-- Each index has as many numbers as its weight, behind those of the indices before it.
pub index_from-share :
    (i x w : ℕ) (before after : List ℕ)
    → x < w
    → index_from i (sum before + x) (before ++ w ∷ after) ≡ i + length before
unfolding index_from
index_from-share i x w [] after h = ground arith
index_from-share i x w (b ∷ before) after h =
    let less : b + sum before + x - b ≡ sum before + x = omega arith in
    let rest = index_from-share (i + 1) x w before after h in rw less (ground (arith, rest))

-- The weight of no load covers every load, and does not wrap.
pub raise-AtMost :
    (bound max : ℕ)
    → max ≤ bound
    → 2 * bound + 10 < 2 ^ 64
    → (max < raise max) × (raise max ≤ 2 * bound + 10)
unfolding raise
raise-AtMost bound max h small = ground arith

pub minus-small : (top w : ℕ) → w < top → top < 2 ^ 64 → minus top w ≡ top - w
minus-small top w h small = omega arith

pub reweigh-append :
    (top : ℕ) (xs ys : List ℕ) → reweigh top (xs ++ ys) ≡ reweigh top xs ++ reweigh top ys
unfolding reweigh
reweigh-append top [] ys = refl
reweigh-append top (x ∷ xs) ys = ap (λ l. minus top x ∷ l) (reweigh-append top xs ys)

pub length-reweigh : (top : ℕ) (ws : List ℕ) → length (reweigh top ws) ≡ length ws
unfolding reweigh
length-reweigh top [] = refl
length-reweigh top (w ∷ ws) = ap suc (length-reweigh top ws)

pub sum-append : (xs ys : List ℕ) → sum (xs ++ ys) ≡ sum xs + sum ys
sum-append [] ys = ground arith
sum-append (x ∷ xs) ys = ground (arith, sum-append xs ys)

pub sum-reweigh :
    (top c : ℕ) (ws : List ℕ)
    → top ≤ c
    → top < 2 ^ 64
    → All (Below top) ws
    → sum (reweigh top ws) ≤ length ws * c
unfolding reweigh
sum-reweigh top c [] h small all = omega arith
sum-reweigh top c (w ∷ ws) h small all =
    ground (arith, minus-small top w all.0 small, sum-reweigh top c ws h small all.1)

-- The index is one of the list.
pub index_from-bound : (i r w : ℕ) (ws : List ℕ) → index_from i r (w ∷ ws) < i + suc (length ws)
unfolding index_from
index_from-bound i r w [] = ground arith
index_from-bound i r w (v ∷ ws) = ground (arith, index_from-bound (i + 1) (r - w) v ws)
