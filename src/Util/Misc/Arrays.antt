-- ===== src/Util/Misc/Arrays.antt =====
-- The arrays of util/misc.go as sets.
use goms.Base.{
  ◌+◌, Eq, List, [], ◌∷◌, ◌++◌, true, false, not, ◌&&◌, ◌||◌, length, length-append, ◌≡◌, refl,
  arith, ◌∙◌, Bool-cases, inl, inr,
}
use goms.Util.Misc.{in_array, sub_array, equal_array, unquie_insert, remove_first, remove_array}

module _ {A : Type 0} ⦃e : Eq A⦄ where
  -- No value is there twice.
  abbrev pub HasNoRepeats : List A → Type 0
  HasNoRepeats [] = Unit
  HasNoRepeats (x ∷ xs) = (in_array xs x ≡ false) × HasNoRepeats xs

  in_array-append :
      (xs ys : List A) (n : A) → in_array (xs ++ ys) n ≡ (in_array xs n || in_array ys n)
  in_array-append [] ys n = refl
  in_array-append (x ∷ xs) ys n = ground (arith, in_array-append xs ys n)

  HasNoRepeats-snoc :
      (xs : List A) (v : A) → HasNoRepeats xs → in_array xs v ≡ false → HasNoRepeats (xs ++ v ∷ [])
  HasNoRepeats-snoc [] v h fresh = (refl, tt)
  HasNoRepeats-snoc (x ∷ xs) v (first, h) fresh = (
    ground (arith, in_array-append xs (v ∷ []) x, e.beq_iff v x, e.beq_iff x v),
    HasNoRepeats-snoc xs v h (ground (arith, e.beq_iff v x)),
  )

  -- x
  pub unquie_insert-HasNoRepeats :
      (arr vs : List A) → HasNoRepeats arr → HasNoRepeats (unquie_insert arr vs).0
  unfolding unquie_insert
  unquie_insert-HasNoRepeats arr [] h = h
  unquie_insert-HasNoRepeats arr (v ∷ vs) h = elim (Bool-cases (in_array arr v)) [
    | inl old ↦ rw old (unquie_insert-HasNoRepeats arr vs h)
    | inr new ↦
        rw new (unquie_insert-HasNoRepeats (arr ++ v ∷ []) vs (HasNoRepeats-snoc arr v h new))
  ]

  -- x
  pub unquie_insert_lem :
      (arr vs : List A) (n : A)
      → let (out, count) = unquie_insert arr vs in
        (in_array out n ≡ (in_array arr n || in_array vs n)) × (length out ≡ length arr + count)
  unfolding unquie_insert
  unquie_insert_lem arr [] n = (ground arith, omega arith)
  unquie_insert_lem arr (v ∷ vs) n = elim (Bool-cases (in_array arr v)) [
    | inl old ↦ rw old (
      (unquie_insert_lem arr vs n).0 ∙ ground (arith, e.beq_iff n v),
      (unquie_insert_lem arr vs n).1,
    )
    | inr new ↦
        let (same, more) = unquie_insert_lem (arr ++ v ∷ []) vs n in
        rw new (
          same ∙ ground (arith, in_array-append arr (v ∷ []) n),
          omega (arith, more, length-append arr (v ∷ [])),
        )
  ]

  -- x
  pub in_array-sub_array :
      (arr1 arr2 : List A) (n : A)
      → in_array (sub_array arr1 arr2) n ≡ (in_array arr1 n && not (in_array arr2 n))
  unfolding sub_array
  in_array-sub_array [] arr2 n = refl
  in_array-sub_array (x ∷ arr1) arr2 n =
      ground (arith, in_array-sub_array arr1 arr2 n, e.beq_iff n x)

  in_array-remove_first :
      (arr : List A) (v n : A)
      → HasNoRepeats arr
      → in_array (remove_first arr v) n ≡ (in_array arr n && not (e.beq n v))
  in_array-remove_first [] v n h = refl
  in_array-remove_first (x ∷ arr) v n (first, h) =
      ground (arith, in_array-remove_first arr v n h, e.beq_iff n v, e.beq_iff x v, e.beq_iff n x)

  remove_first-HasNoRepeats :
      (arr : List A) (v : A) → HasNoRepeats arr → HasNoRepeats (remove_first arr v)
  remove_first-HasNoRepeats [] v h = tt
  remove_first-HasNoRepeats (x ∷ arr) v (first, h) = elim (Bool-cases (e.beq x v)) [
    | inl same ↦ rw same h
    | inr other ↦
        rw other
          (ground (arith, in_array-remove_first arr v x h), remove_first-HasNoRepeats arr v h)
  ]

  -- x
  pub in_array-remove_array :
      (arr vs : List A) (n : A)
      → HasNoRepeats arr
      → in_array (remove_array arr vs) n ≡ (in_array arr n && not (in_array vs n))
  unfolding remove_array
  in_array-remove_array arr [] n h = ground arith
  in_array-remove_array arr (v ∷ vs) n h =
      in_array-remove_array (remove_first arr v) vs n (remove_first-HasNoRepeats arr v h)
      ∙ ground (arith, in_array-remove_first arr v n h)

  -- x
  pub equal_array-repeats :
      (a b : A)
      → e.beq a b ≡ false
      → (equal_array (a ∷ a ∷ []) (a ∷ b ∷ []) ≡ true)
        × (equal_array (a ∷ b ∷ []) (a ∷ a ∷ []) ≡ false)
  unfolding equal_array
  equal_array-repeats a b h = ground (arith, e.beq_iff a a, e.beq_iff a b, e.beq_iff b a)
