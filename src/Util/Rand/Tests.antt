-- ===== src/Util/Rand/Tests.antt =====
-- Runs of RandLessWight of util/rand.go, and the theorems at these runs.
use goms.Base.{ℕ, List, [], ◌∷◌, some, ◌≡◌, arith}
use goms.Util.Rand.{rand_less_weight, reweigh, weights_of}
use goms.Util.Rand.Share.{rand_less_weight-share}

abbrev loads : List ℕ
loads = 3 ∷ 8 ∷ 5 ∷ []

-- The weights are 15, 10 and 13.
rand_less_weight-share_example : rand_less_weight 24 loads ≡ some (1, 15 ∷ 10 ∷ 13 ∷ [])
unfolding goms.Util.Rand.raise goms.Util.Rand.max_from reweigh weights_of
rand_less_weight-share_example =
    rand_less_weight-share 8 8 9 (3 ∷ []) (5 ∷ []) (omega arith) (ground arith, omega arith)
      (omega arith)
