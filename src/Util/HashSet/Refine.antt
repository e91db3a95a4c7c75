-- ===== src/Util/HashSet/Refine.antt =====
-- The map of util/hash_set.go against its abstract view, a partial function of key and field.
use goms.Base.{
  Bytes, bytes_eq, bytes_Eq, bytes_eq_iff, bytes_eq_refl, lookup, insert, remove, lookup-insert,
  lookup-remove, Option, none, some, [], ◌∷◌, Bool, true, ◌||◌, ◌&&◌, not, if◌then◌else◌, ◌≡◌, refl,
  arith,
}
use goms.Base.Int.{ℤ, ◌+ℤ◌, wrap64, wrap64-IsInt64}
use goms.Base.Decimal.{atoi, atoi-itoa}
use goms.Util.HashSet.{
  Fields, Data, fields_of, text_or_empty, is_blank, hget, hset_data, hincrby_data, bump_text,
}

abbrev pub entry_at : Bytes → Bytes → Data → Option Bytes
entry_at key field content = lookup field (fields_of key content)

abbrev pub accepts : Bytes → Bytes → Bool
accepts key field = not (is_blank key || is_blank field)

pub fields_of-insert :
    (k j : Bytes) (info : Fields) (content : Data)
    → fields_of j (insert k info content) ≡ (if bytes_eq k j then info else fields_of j content)
fields_of-insert k j info content = ground (arith, lookup-insert k j info content)

-- `hset` changes the entry of its key and field and no other: the value is stored, and the empty
-- value removes the entry. A blank key or field changes nothing.
pub entry_at-hset_data :
    (key field value j g : Bytes) (content : Data)
    → entry_at j g (hset_data key field value content).0 ≡ (
        if accepts key field && (bytes_eq key j && bytes_eq field g)
        then (if is_blank value then none else some value)
        else entry_at j g content)
unfolding hset_data
entry_at-hset_data key field value j g content = ground (
  arith,
  bytes_eq_iff key j,
  fields_of-insert key j (remove field (fields_of key content)) content,
  fields_of-insert key j (insert field value (fields_of key content)) content,
  lookup-insert field g value (fields_of key content),
  lookup-remove field g (fields_of key content),
)

pub hget-entry_at :
    (key field : Bytes) (content : Data)
    → hget key field content
      ≡ (if accepts key field then text_or_empty (entry_at key field content) else [])
unfolding hget
hget-entry_at key field content = ground arith

blank-nil : (s : Bytes) → is_blank s ≡ true → s ≡ []
blank-nil [] h = refl
blank-nil (c ∷ s) h = cc

-- What was set is read back, and a blank value deletes.
pub hget-hset_data :
    (key field value : Bytes) (content : Data)
    → accepts key field ≡ true
    → hget key field (hset_data key field value content).0 ≡ value
hget-hset_data key field value content ok = ground (
  arith,
  hget-entry_at key field (hset_data key field value content).0,
  entry_at-hset_data key field value key field content,
  bytes_eq_refl key,
  bytes_eq_refl field,
  blank-nil value,
)

-- `hincrby` stores the text of the bumped counter at its key and field, unless one of them is
-- blank, and every other entry stays.
pub entry_at-hincrby_data :
    (key field : Bytes) (add : ℤ) (j g : Bytes) (content : Data)
    → entry_at j g (hincrby_data key field add content).0 ≡ (
        if accepts key field && (bytes_eq key j && bytes_eq field g)
        then some (bump_text (entry_at key field content) add)
        else entry_at j g content)
unfolding hincrby_data
entry_at-hincrby_data key field add j g content =
    let value = bump_text (lookup field (fields_of key content)) add in
    ground (
      arith,
      bytes_eq_iff key j,
      fields_of-insert key j (insert field value (fields_of key content)) content,
      lookup-insert field g value (fields_of key content),
    )

-- The text that `hincrby` stores reads back as the old number, 0 for a text that is none, plus the
-- addend, wrapped to 64 bits.
pub atoi-bump_text :
    (old : Option Bytes) (add : ℤ)
    → atoi (bump_text old add) ≡ wrap64 (add +ℤ atoi (text_or_empty old))
unfolding bump_text
atoi-bump_text old add = atoi-itoa _ (wrap64-IsInt64 (add +ℤ atoi (text_or_empty old)))
