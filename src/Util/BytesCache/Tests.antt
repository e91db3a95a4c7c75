-- ===== src/Util/BytesCache/Tests.antt =====
-- Buffers of util/bytes_cache/cache.go, and the theorems at them.
use goms.Base.{ℕ, ◌^◌, ◌≤◌, ◌↔◌, none, some, [], ◌≡◌, refl, arith}
use goms.Util.BytesCache.{Pools, get_index, get, put}
use goms.Util.BytesCache.Classes.{get_index_iff}
use goms.Util.BytesCache.Pools.{AreSorted, get-enough, put-AreSorted, get-put_empty}

abbrev empty : Pools
empty = []

classes : get_index 100 ≡ 7
unfolding get_index
classes = refl

get_index_iff_example : (get_index 100 ≤ 7) ↔ (100 ≤ 2 ^ 7)
get_index_iff_example = get_index_iff 100 7 (omega arith)

empty-AreSorted : AreSorted empty
empty-AreSorted i = tt

get-enough_example :
    (capa : ℕ) × (after : Pools) × (get 1000 (some 0) 5 (some 7) (put 8 empty) ≡ some (capa, after))
    × (capa ≡ 2 ^ get_index 7)
    × (7 ≤ capa)
    × AreSorted after
get-enough_example =
    get-enough 1000 (some 0) 5 (some 7) (put 8 empty)
      (put-AreSorted 8 empty empty-AreSorted (omega arith) (omega arith)) (omega arith)
      (omega arith) (unfold get_index in omega arith)

get-put_empty_example : get 1000 (some 0) 1 none (put 0 empty) ≡ none
get-put_empty_example = get-put_empty 1000 empty
