-- ===== src/Util/Misc.antt =====
-- util/misc.go: arrays without order, joined numbers, versions and capitals. The functions for the
-- several widths of numbers have the same text, so one definition stands for each family.
pub mod Arrays
pub mod Bits
pub mod Commands
pub mod Versions
pub mod Tests
use goms.Base.{
  ℕ, zero, suc, ◌+◌, ◌-◌, Bytes, Eq, Option, none, some, List, [], ◌∷◌, ◌++◌, map, Bool, true,
  false, not, ◌&&◌, ◌||◌, if◌then◌else◌, ◌==◌, leb, ltb, length,
}
use goms.Base.Int.{ℤ, pos, negsuc}
use goms.Base.Decimal.{atoi, itoa}
use goms.Rpc.Node.{split_on}

module _ {A : Type 0} ⦃e : Eq A⦄ where
  -- InIntArray, InArray, InUint16Array, InUint32Array, InUint64Array
  abbrev pub in_array : List A → A → Bool
  in_array [] n = false
  in_array (x ∷ array) n = e.beq n x || in_array array n

  -- SubUint32Array
  unfoldable pub sub_array : List A → List A → List A
  sub_array [] arr2 = []
  sub_array (x ∷ arr1) arr2 =
      let rest = sub_array arr1 arr2 in if in_array arr2 x then rest else x ∷ rest

  -- The loop of EqualUInt32Array and EqualInt32Array over the first array.
  abbrev pub all_in : List A → List A → Bool
  all_in [] arr2 = true
  all_in (x ∷ arr1) arr2 = in_array arr2 x && all_in arr1 arr2

  unfoldable pub equal_array : List A → List A → Bool
  equal_array arr1 arr2 = length arr1 == length arr2 && all_in arr1 arr2

  -- UnquieInsert and its kin: the array, and how many values were new.
  unfoldable pub unquie_insert : List A → List A → List A × ℕ
  unquie_insert arr [] = (arr, 0)
  unquie_insert arr (v ∷ vs) =
      if in_array arr v
      then unquie_insert arr vs
      else (let (out, count) = unquie_insert (arr ++ v ∷ []) vs in (out, suc count))

  -- What UnquieInsert returns: whether nothing was new.
  abbrev pub inserts_nothing : List A → List A → Bool
  unfolding unquie_insert
  inserts_nothing arr vs = (unquie_insert arr vs).1 == 0

  -- RemoveUInt64Array: the first place of each value.
  abbrev pub remove_first : List A → A → List A
  remove_first [] v = []
  remove_first (x ∷ arr) v = if e.beq x v then arr else x ∷ remove_first arr v

  unfoldable pub remove_array : List A → List A → List A
  remove_array arr [] = arr
  remove_array arr (v ∷ vs) = remove_array (remove_first arr v) vs

  -- Uint32ArrayRepeat
  unfoldable pub array_repeat : List A → List A → Bool
  array_repeat [] arr2 = false
  array_repeat (x ∷ arr1) arr2 = in_array arr2 x || array_repeat arr1 arr2

-- Int64ArratToString, and with `pos` Uint64ArratToString and JoinUint64Array.
abbrev pub join_rest : Bytes → List ℤ → Bytes
join_rest sep [] = []
join_rest sep (n ∷ arr) = sep ++ itoa n ++ join_rest sep arr

unfoldable pub array_to_string : List ℤ → Bytes → Bytes
unfolding itoa
array_to_string [] sep = []
array_to_string (n ∷ arr) sep = itoa n ++ join_rest sep arr

unfoldable pub get_version_from_str : Bytes → List ℤ
unfolding split_on atoi
get_version_from_str str = map atoi (split_on b'.' str)

abbrev pub less_int : ℤ → ℤ → Bool
less_int (pos m) (pos n) = ltb m n
less_int (pos m) (negsuc n) = false
less_int (negsuc m) (pos n) = true
less_int (negsuc m) (negsuc n) = ltb n m

-- The loop of CompareVersion over `n` parts; a part that is missing is a panic, `none`.
unfoldable pub compare_parts : ℕ → List ℤ → List ℤ → Option ℤ
compare_parts zero a1 a2 = some (pos 0)
compare_parts (suc n) [] a2 = none
compare_parts (suc n) (x ∷ a1) [] = none
compare_parts (suc n) (x ∷ a1) (y ∷ a2) =
    let rest = compare_parts n a1 a2 in
    if less_int y x then some (pos 1) else if less_int x y then some (negsuc 0) else rest

unfoldable pub compare_version : Bytes → Bytes → Option ℤ
unfolding get_version_from_str compare_parts
compare_version v1 v2 = compare_parts 3 (get_version_from_str v1) (get_version_from_str v2)

-- Upper: the first `n` bytes.
unfoldable pub upper : Bytes → ℕ → Bytes
upper [] n = []
upper (b ∷ s) zero = b ∷ upper s zero
upper (b ∷ s) (suc n) = (if leb b'a' b && leb b b'z' then b - 32 else b) ∷ upper s n
