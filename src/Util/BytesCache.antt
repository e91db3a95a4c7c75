-- ===== src/Util/BytesCache.antt =====
-- util/bytes_cache/cache.go: pools of buffers by the powers of two. A buffer is its capacity; what
-- sync.Pool answers is an input of each call: the place of a buffer that was put there, or none for
-- a new one.
pub mod Classes
pub mod Pools
pub mod Tests
use Prim.Native.Nat.{bit_and}
use goms.Base.{
  ℕ, zero, suc, ◌+◌, ◌-◌, ◌/◌, ◌^◌, Option, none, some, List, [], ◌∷◌, Bool, true, false, not,
  if◌then◌else◌, ◌==◌, ltb, leb, ◌&&◌, lookup, insert, nat_eq, get_elem?,
}

-- `(size & -size) == size` on w bits
abbrev pub is_power : ℕ → ℕ → Bool
is_power w size = bit_and size (2 ^ w - size) == size

-- The loop of getIndex: the shifts until the size is 0.
unfoldable pub shifts : ℕ → ℕ → ℕ → ℕ
shifts zero size index = index
shifts (suc fuel) size index =
    let more = shifts fuel (size / 2) (index + 1) in if size == 0 then index else more

unfoldable pub get_index : ℕ → ℕ
unfolding shifts
get_index size =
    if size == 0
    then 0
    else let index = shifts 64 size 0 in if is_power 64 size then index - 1 else index

-- The capacities in each pool.
abbrev pub Pools : Type 0
Pools = List (ℕ × List ℕ)

abbrev pub pool_of : ℕ → Pools → List ℕ
pool_of i pools = elim (lookup i pools) [ none ↦ [] | some caps ↦ caps ]

abbrev pub without : ℕ → List ℕ → List ℕ
without n [] = []
without zero (c ∷ caps) = caps
without (suc n) (c ∷ caps) = c ∷ without n caps

-- What New of the i-th pool makes: `1 << i` on an int is negative for 63, and there is no pool 64;
-- make panics, as these do, above `limit`, the greatest size that the runtime allows.
unfoldable pub new_buffer : ℕ → ℕ → Option ℕ
new_buffer limit i = if ltb i 63 && leb (2 ^ i) limit then some (2 ^ i) else none

abbrev made : Pools → Option ℕ → Option (ℕ × Pools)
made pools none = none
made pools (some capa) = some (capa, pools)

-- Pool.Get: a buffer that is there, or one that New makes.
unfoldable pub take_one : ℕ → Option ℕ → ℕ → Pools → Option (ℕ × Pools)
unfolding new_buffer
take_one limit none i pools = made pools (new_buffer limit i)
take_one limit (some place) i pools = elim (get_elem? (pool_of i pools) place) [
  | none ↦ made pools (new_buffer limit i)
  | some capa ↦ some (capa, insert i (without place (pool_of i pools)) pools)
]

abbrev pub wanted_size : ℕ → Option ℕ → ℕ
wanted_size l none = l
wanted_size l (some capa) = capa

-- Get for `l` bytes, with the wanted capacity if there is one: the capacity of the slice, or the
-- panic of a capacity below the length, of a buffer that cannot be made or of one that is too short.
unfoldable pub get : ℕ → Option ℕ → ℕ → Option ℕ → Pools → Option (ℕ × Pools)
unfolding take_one
get limit choice l wanted pools =
    let size = wanted_size l wanted in
    if ltb size l then none else elim (take_one limit choice (get_index size) pools) [
      | none ↦ none
      | some (capa, after) ↦ if leb l capa then some (capa, after) else none
    ]

-- Put keeps buffers whose capacity passes the test.
unfoldable pub put : ℕ → Pools → Pools
put capa pools =
    if not (is_power 64 capa)
    then pools
    else insert (get_index capa) (capa ∷ pool_of (get_index capa) pools) pools
