-- ===== src/Util/HashSet/WellFormed.antt =====
-- The representation of the map of util/hash_set.go: no key or field twice, no blank names and no
-- blank values.
use goms.Base.{
  Bytes, bytes_Eq, insert, remove, IsDistinct, insert-IsDistinct, remove-IsDistinct, Option, List,
  [], ◌∷◌, false, ◌≡◌, ◌≢◌, refl, arith,
}
use goms.Base.Int.{ℤ}
use goms.Base.Decimal.{itoa-ne-nil}
use goms.Util.HashSet.{
  Fields, Data, fields_of, is_blank, hset_data, hincrby_data, bump_text, load_from,
}

abbrev pub FieldsOk : Fields → Type 0
FieldsOk [] = Unit
FieldsOk ((f, v) ∷ m) = (is_blank f ≡ false) × (is_blank v ≡ false) × FieldsOk m

abbrev pub BucketsOk : Data → Type 0
BucketsOk [] = Unit
BucketsOk ((k, info) ∷ m) = (is_blank k ≡ false) × FieldsOk info × IsDistinct info × BucketsOk m

abbrev pub IsWellFormed : Data → Type 0
IsWellFormed content = IsDistinct content × BucketsOk content

insert-FieldsOk :
    (f v : Bytes) (m : Fields)
    → is_blank f ≡ false
    → is_blank v ≡ false
    → FieldsOk m
    → FieldsOk (insert f v m)
insert-FieldsOk f v [] hf hv h = (hf, hv, tt)
insert-FieldsOk f v ((j, w) ∷ m) hf hv h = ground (arith, insert-FieldsOk f v m hf hv h.2)

remove-FieldsOk : (f : Bytes) (m : Fields) → FieldsOk m → FieldsOk (remove f m)
remove-FieldsOk f [] h = tt
remove-FieldsOk f ((j, w) ∷ m) h = ground (arith, remove-FieldsOk f m h.2)

insert-BucketsOk :
    (k : Bytes) (info : Fields) (m : Data)
    → is_blank k ≡ false
    → FieldsOk info
    → IsDistinct info
    → BucketsOk m
    → BucketsOk (insert k info m)
insert-BucketsOk k info [] hk hf hd h = (hk, hf, hd, tt)
insert-BucketsOk k info ((j, w) ∷ m) hk hf hd h =
    ground (arith, insert-BucketsOk k info m hk hf hd h.3)

remove-BucketsOk : (k : Bytes) (m : Data) → BucketsOk m → BucketsOk (remove k m)
remove-BucketsOk k [] h = tt
remove-BucketsOk k ((j, w) ∷ m) h = ground (arith, remove-BucketsOk k m h.3)

fields_of-FieldsOk : (k : Bytes) (m : Data) → BucketsOk m → FieldsOk (fields_of k m)
fields_of-FieldsOk k [] h = tt
fields_of-FieldsOk k ((j, w) ∷ m) h = ground (arith, fields_of-FieldsOk k m h.3)

pub fields_of-IsDistinct : (k : Bytes) (m : Data) → BucketsOk m → IsDistinct (fields_of k m)
fields_of-IsDistinct k [] h = tt
fields_of-IsDistinct k ((j, w) ∷ m) h = ground (arith, fields_of-IsDistinct k m h.3)

bump_text-not_blank : (old : Option Bytes) (add : ℤ) → is_blank (bump_text old add) ≡ false
unfolding bump_text
bump_text-not_blank old add = not_blank _ (itoa-ne-nil _)
  where
    not_blank : (s : Bytes) → s ≢ [] → is_blank s ≡ false
    not_blank [] h = absurd (h refl)
    not_blank (c ∷ s) h = refl

-- Storing a value that is not blank, at names that are not.
put-IsWellFormed :
    (k f v : Bytes) (m : Data)
    → is_blank k ≡ false
    → is_blank f ≡ false
    → is_blank v ≡ false
    → IsWellFormed m
    → IsWellFormed (insert k (insert f v (fields_of k m)) m)
put-IsWellFormed k f v m hk hf hv (d, b) = (
  insert-IsDistinct k _ m d,
  insert-BucketsOk k _ m hk (insert-FieldsOk f v _ hf hv (fields_of-FieldsOk k m b))
      (insert-IsDistinct f v _ (fields_of-IsDistinct k m b)) b,
)

cut-IsWellFormed :
    (k f : Bytes) (m : Data)
    → is_blank k ≡ false
    → IsWellFormed m
    → IsWellFormed (insert k (remove f (fields_of k m)) m)
cut-IsWellFormed k f m hk (d, b) = (
  insert-IsDistinct k _ m d,
  insert-BucketsOk k _ m hk (remove-FieldsOk f _ (fields_of-FieldsOk k m b))
      (remove-IsDistinct f _ (fields_of-IsDistinct k m b)) b,
)

pub remove-IsWellFormed : (k : Bytes) (m : Data) → IsWellFormed m → IsWellFormed (remove k m)
remove-IsWellFormed k m (d, b) = (remove-IsDistinct k m d, remove-BucketsOk k m b)

pub hset_data-IsWellFormed :
    (k f v : Bytes) (m : Data) → IsWellFormed m → IsWellFormed (hset_data k f v m).0
unfolding hset_data
hset_data-IsWellFormed [] f v m h = h
hset_data-IsWellFormed (a ∷ k) [] v m h = h
hset_data-IsWellFormed (a ∷ k) (b ∷ f) [] m h = cut-IsWellFormed (a ∷ k) (b ∷ f) m refl h
hset_data-IsWellFormed (a ∷ k) (b ∷ f) (c ∷ v) m h =
    put-IsWellFormed (a ∷ k) (b ∷ f) (c ∷ v) m refl refl refl h

pub hincrby_data-IsWellFormed :
    (k f : Bytes) (add : ℤ) (m : Data) → IsWellFormed m → IsWellFormed (hincrby_data k f add m).0
unfolding hincrby_data
hincrby_data-IsWellFormed [] f add m h = h
hincrby_data-IsWellFormed (a ∷ k) [] add m h = h
hincrby_data-IsWellFormed (a ∷ k) (b ∷ f) add m h =
    put-IsWellFormed (a ∷ k) (b ∷ f) _ m refl refl (bump_text-not_blank _ add) h

pub load_from-IsWellFormed :
    (kfv : List (Bytes × Bytes × Bytes)) (m : Data)
    → IsWellFormed m
    → IsWellFormed (load_from kfv m)
unfolding load_from
load_from-IsWellFormed [] m h = h
load_from-IsWellFormed ((k, f, v) ∷ kfv) m h =
    load_from-IsWellFormed kfv _ (hset_data-IsWellFormed k f v m h)
