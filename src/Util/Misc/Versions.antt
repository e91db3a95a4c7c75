-- ===== src/Util/Misc/Versions.antt =====
-- The versions of util/misc.go: numbers with dots between them.
use goms.Base.{
  ℕ, zero, suc, Bytes, none, some, List, [], ◌∷◌, ◌++◌, append-nil, map, All, true, false, ◌≡◌,
  refl, ap, arith, ◌∙◌,
}
use goms.Base.Int.{ℤ, pos, negsuc, IsInt64}
use goms.Base.Decimal.{atoi, itoa, atoi-itoa, itoa-Misses}
use goms.Rpc.Node.{split_on}
use goms.Rpc.Node.Lookup.{split_parts-none, split_parts-append}
use goms.Util.Misc.{
  join_rest, array_to_string, get_version_from_str, less_int, compare_parts, compare_version,
}

split_on-join :
    (n : ℤ) (arr : List ℤ)
    → split_on b'.' (itoa n ++ join_rest (b'.' ∷ []) arr) ≡ map itoa (n ∷ arr)
unfolding split_on
split_on-join n [] =
    rw (append-nil (itoa n))
      (ground (arith, split_parts-none b'.' (itoa n) (itoa-Misses b'.' n refl (ground arith))))
split_on-join n (k ∷ arr) = ground (
  arith,
  split_parts-append b'.' (itoa n) (itoa k ++ join_rest (b'.' ∷ []) arr)
      (itoa-Misses b'.' n refl (ground arith)),
  split_on-join k arr,
)

atoi-each : (arr : List ℤ) → All IsInt64 arr → map atoi (map itoa arr) ≡ arr
atoi-each [] h = refl
atoi-each (n ∷ arr) (first, h) = rw (atoi-itoa n first, atoi-each arr h) refl

-- Numbers that fit 64 bits, at least one, are read back from the version that has them with dots
-- between.
pub get_version_from_str-array_to_string :
    (n : ℤ) (arr : List ℤ)
    → All IsInt64 (n ∷ arr)
    → get_version_from_str (array_to_string (n ∷ arr) (b'.' ∷ [])) ≡ n ∷ arr
unfolding get_version_from_str array_to_string
get_version_from_str-array_to_string n arr h =
    ap (map atoi) (split_on-join n arr) ∙ atoi-each (n ∷ arr) h

less_int_asym : (x y : ℤ) → less_int x y ≡ true → less_int y x ≡ false
less_int_asym (pos m) (pos n) h = ground arith
less_int_asym (pos m) (negsuc n) h = cc
less_int_asym (negsuc m) (pos n) h = refl
less_int_asym (negsuc m) (negsuc n) h = ground arith

-- The result for the versions in the other order.
abbrev pub opposite : ℤ → ℤ
opposite (pos zero) = pos 0
opposite (pos (suc n)) = negsuc n
opposite (negsuc n) = pos (suc n)

opposite_parts :
    (n : ℕ) (a1 a2 : List ℤ)
    → compare_parts n a2 a1
      ≡ elim (compare_parts n a1 a2) [ none ↦ none | some z ↦ some (opposite z) ]
unfolding compare_parts
opposite_parts zero a1 a2 = refl
opposite_parts (suc n) [] [] = refl
opposite_parts (suc n) [] (y ∷ a2) = refl
opposite_parts (suc n) (x ∷ a1) [] = refl
opposite_parts (suc n) (x ∷ a1) (y ∷ a2) =
    ground (arith, opposite_parts n a1 a2, less_int_asym x y, less_int_asym y x)

-- x
pub compare_version-opposite :
    (v1 v2 : Bytes)
    → compare_version v2 v1
      ≡ elim (compare_version v1 v2) [ none ↦ none | some z ↦ some (opposite z) ]
unfolding compare_version
compare_version-opposite v1 v2 =
    opposite_parts 3 (get_version_from_str v1) (get_version_from_str v2)
