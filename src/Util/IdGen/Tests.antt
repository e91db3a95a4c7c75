-- ===== src/Util/IdGen/Tests.antt =====
-- Runs of util/id_gen.go, and the theorems at these runs.
use goms.Base.{ℕ, List, [], ◌∷◌, ◌≡◌, ◌≢◌, refl, arith}
use goms.Util.IdGen.{IdGen, new_id_gen, pack_id, new_id, new_ids}
use goms.Util.IdGen.Layout.{pack_id-overlap}
use goms.Util.IdGen.Distinct.{new_ids-distinct}

abbrev clock : ℕ
clock = 1500

abbrev modules : List ℕ
modules = 2 ∷ 2 ∷ 3 ∷ []

abbrev generator : IdGen
generator = new_id_gen 5

new_ids-distinct_example : pack_id clock 5 2 1 ≢ pack_id clock 5 2 2
unfolding new_ids new_id
new_ids-distinct_example =
    new_ids-distinct clock modules generator 0 1 (pack_id clock 5 2 1) (pack_id clock 5 2 2)
      (omega arith) refl refl (omega arith)

pack_id-overlap_example : pack_id clock 1 0 7 ≡ pack_id clock 0 16 7
pack_id-overlap_example = pack_id-overlap clock 7
