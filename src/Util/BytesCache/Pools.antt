-- ===== src/Util/BytesCache/Pools.antt =====
-- What is in the pools of util/bytes_cache/cache.go.
use goms.Base.{
  ℕ, zero, suc, ◌^◌, ◌≤◌, ◌<◌, nat_eq, insert, lookup-insert, get_elem?, Option, none, some, List,
  [], ◌∷◌, if◌then◌else◌, ◌==◌, All, ◌≡◌, inl, inr, Bool-cases, Option-cases, refl, sym, arith,
  subst,
}
use goms.Util.BytesCache.{
  is_power, get_index, Pools, pool_of, without, new_buffer, take_one, wanted_size, get, put,
}
use goms.Util.BytesCache.Classes.{get_index_iff, get_index-exact}

-- Each pool holds buffers of its own capacity.
abbrev IsOf : ℕ → ℕ → Type 0
IsOf i capa = capa ≡ 2 ^ i

abbrev pub AreSorted : Pools → Type 0
AreSorted pools = (i : ℕ) → All (IsOf i) (pool_of i pools)

without-All : (i place : ℕ) (caps : List ℕ) → All (IsOf i) caps → All (IsOf i) (without place caps)
without-All i place [] h = tt
without-All i zero (c ∷ caps) (_, h) = h
without-All i (suc place) (c ∷ caps) (e, h) = (e, without-All i place caps h)

get_elem?-All :
    (i place capa : ℕ) (caps : List ℕ)
    → All (IsOf i) caps
    → get_elem? caps place ≡ some capa
    → capa ≡ 2 ^ i
get_elem?-All i place capa [] h e = absurd (cc)
get_elem?-All i zero capa (c ∷ caps) (e', h) e = cc
get_elem?-All i (suc place) capa (c ∷ caps) (_, h) e = get_elem?-All i place capa caps h e

pool_of-insert :
    (i j : ℕ) (caps : List ℕ) (pools : Pools)
    → pool_of j (insert i caps pools) ≡ (if i == j then caps else pool_of j pools)
pool_of-insert i j caps pools = ground (arith, lookup-insert i j caps pools)

insert-AreSorted :
    (i : ℕ) (caps : List ℕ) (pools : Pools)
    → AreSorted pools
    → All (IsOf i) caps
    → AreSorted (insert i caps pools)
insert-AreSorted i caps pools h all j =
    subst (All (IsOf j)) (sym (pool_of-insert i j caps pools)) (elim (Bool-cases (i == j)) [
      | inl same ↦ rw same (subst (λ k. All (IsOf k) caps) (ground arith) all)
      | inr other ↦ rw other (h j)
    ])

new_buffer-allowed : (limit i : ℕ) → i < 63 → 2 ^ i ≤ limit → new_buffer limit i ≡ some (2 ^ i)
unfolding new_buffer
new_buffer-allowed limit i small room = ground arith

-- What take_one takes and leaves.
take_one-AreSorted :
    (limit : ℕ) (choice : Option ℕ) (i : ℕ) (pools : Pools)
    → AreSorted pools
    → i < 63
    → 2 ^ i ≤ limit
    → (after : Pools) × (take_one limit choice i pools ≡ some (2 ^ i, after)) × AreSorted after
unfolding take_one
take_one-AreSorted limit none i pools h small room =
    (pools, rw (new_buffer-allowed limit i small room) refl, h)
take_one-AreSorted limit (some place) i pools h small room =
    elim (Option-cases (get_elem? (pool_of i pools) place)) [
      | inl out ↦ (pools, rw (out, take_one, new_buffer-allowed limit i small room) refl, h)
      | inr (capa, e) ↦ (
        insert i (without place (pool_of i pools)) pools,
        rw (e, take_one, get_elem?-All i place capa (pool_of i pools) (h i) e) refl,
        insert-AreSorted i (without place (pool_of i pools)) pools h
            (without-All i place (pool_of i pools) (h i)),
      )
    ]

-- From pools that hold buffers of their own capacity, Get for a length of at most the wanted
-- capacity, which is at most 2^62 and whose class has a size that make allows, does not panic: the
-- buffer has the power of two of the capacity's class, which is at least the wanted capacity, and
-- the pools stay so.
pub get-enough :
    (limit : ℕ) (choice : Option ℕ) (l : ℕ) (wanted : Option ℕ) (pools : Pools)
    → AreSorted pools
    → l ≤ wanted_size l wanted
    → wanted_size l wanted ≤ 2 ^ 62
    → 2 ^ get_index (wanted_size l wanted) ≤ limit
    → (capa : ℕ) × (after : Pools) × (get limit choice l wanted pools ≡ some (capa, after))
      × (capa ≡ 2 ^ get_index (wanted_size l wanted))
      × (wanted_size l wanted ≤ capa)
      × AreSorted after
unfolding get
get-enough limit choice l wanted pools h le fits room =
    let size = wanted_size l wanted in
    let enough : size ≤ 2 ^ get_index size =
      (get_index_iff size (get_index size) (omega arith)).0 (omega arith) in
    let class : get_index size ≤ 62 = (get_index_iff size 62 (omega arith)).1 fits in
    let (after, taken, sorted) =
      take_one-AreSorted limit choice (get_index size) pools h (omega arith) room in
    (2 ^ get_index size, after, rw (taken, get) (ground (arith, enough, le)), refl, enough, sorted)

-- Put of a buffer with a capacity keeps the pools so.
pub put-AreSorted :
    (capa : ℕ) (pools : Pools)
    → AreSorted pools
    → 0 < capa
    → capa < 2 ^ 64
    → AreSorted (put capa pools)
unfolding put
put-AreSorted capa pools h p fits = elim (Bool-cases (is_power 64 capa)) [
  | inl t ↦
      rw (t, put)
        (insert-AreSorted (get_index capa) (capa ∷ pool_of (get_index capa) pools) pools h
          (sym (get_index-exact capa p fits t), h (get_index capa)))
  | inr t ↦ rw (t, put) h
]

-- Put keeps a buffer without capacity for the class of one byte, whatever the pools hold: a Get of
-- one byte that is given this buffer panics.
pub get-put_empty : (limit : ℕ) (pools : Pools) → get limit (some 0) 1 none (put 0 pools) ≡ none
unfolding get put take_one get_index
get-put_empty limit pools = ground (arith, lookup-insert 0 0 (0 ∷ pool_of 0 pools) pools)
