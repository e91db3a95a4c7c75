-- ===== src/Util/HashSet/Tests.antt =====
-- A database in memory that behaves as bolt is documented to, runs of util/hash_set.go over it, and
-- the theorems at these runs.
use goms.Base.{
  Bytes, codes, bytes_eq, bytes_Eq, bytes_eq_iff, insert, remove, lookup-insert, lookup-remove,
  Option, none, some, List, [], ◌∷◌, ◌++◌, ◌&&◌, if◌then◌else◌, ◌≡◌, refl, arith,
}
use goms.Base.Int.{pos, negsuc, ◌+ℤ◌, wrap64}
use goms.Base.Decimal.{atoi}
use goms.Util.Bolt.{Bolt}
use goms.Util.HashSet.{
  Fields, Data, fields_of, is_blank, HashSet, added, updated, hset_data, save, bump_text,
}
use goms.Util.HashSet.Refine.{entry_at, fields_of-insert, entry_at-hset_data, atoi-bump_text}
use goms.Util.HashSet.Writers.{
  Pending, Writers, changes, writes, Reach, at_start, goes_on, fresh, writers-IsSynced,
}

abbrev rows_of : Bytes → Fields → List (Bytes × Bytes × Bytes)
rows_of key [] = []
rows_of key ((field, value) ∷ info) = (key, field, value) ∷ rows_of key info

abbrev all_rows : Data → List (Bytes × Bytes × Bytes)
all_rows [] = []
all_rows ((key, info) ∷ rest) = rows_of key info ++ all_rows rest

abbrev open_bucket : Bytes → Data → Option Data
open_bucket key d = if is_blank key then none else some (insert key (fields_of key d) d)

abbrev put_row : Bytes → Bytes → Bytes → Data → Option Data
put_row key field value d =
    if is_blank field then none else some (insert key (insert field value (fields_of key d)) d)

abbrev delete_row : Bytes → Bytes → Data → Option Data
delete_row key field d = some (insert key (remove field (fields_of key d)) d)

abbrev drop_bucket : Bytes → Data → Option Data
drop_bucket key d = some (remove key d)

pub entry_at-open_bucket :
    (k : Bytes) (d d' : Data) (j g : Bytes)
    → open_bucket k d ≡ some d'
    → entry_at j g d' ≡ entry_at j g d
entry_at-open_bucket k d d' j g e =
    ground (arith, bytes_eq_iff k j, fields_of-insert k j (fields_of k d) d)

pub entry_at-put_row :
    (k f v : Bytes) (d d' : Data) (j g : Bytes)
    → put_row k f v d ≡ some d'
    → entry_at j g d' ≡ (if bytes_eq k j && bytes_eq f g then some v else entry_at j g d)
entry_at-put_row k f v d d' j g e = ground (
  arith,
  bytes_eq_iff k j,
  fields_of-insert k j (insert f v (fields_of k d)) d,
  lookup-insert f g v (fields_of k d),
)

pub entry_at-delete_row :
    (k f : Bytes) (d d' : Data) (j g : Bytes)
    → delete_row k f d ≡ some d'
    → entry_at j g d' ≡ (if bytes_eq k j && bytes_eq f g then none else entry_at j g d)
entry_at-delete_row k f d d' j g e = ground (
  arith,
  bytes_eq_iff k j,
  fields_of-insert k j (remove f (fields_of k d)) d,
  lookup-remove f g (fields_of k d),
)

pub entry_at-drop_bucket :
    (k : Bytes) (d d' : Data) (j g : Bytes)
    → drop_bucket k d ≡ some d'
    → entry_at j g d' ≡ (if bytes_eq k j then none else entry_at j g d)
entry_at-drop_bucket k d d' j g e = ground (arith, lookup-remove k j d)

abbrev pub memory_bolt : Bolt
memory_bolt = record {
  Db = Data;
  view = λ d j g. entry_at j g d;
  create_bucket = open_bucket;
  put = put_row;
  delete = delete_row;
  delete_bucket = drop_bucket;
  scan = all_rows;
  view-create_bucket = entry_at-open_bucket;
  view-put = entry_at-put_row;
  view-delete = entry_at-delete_row;
  view-delete_bucket = entry_at-drop_bucket;
}

abbrev gate : Bytes
gate = codes "gate"

abbrev load_field : Bytes
load_field = codes "load"

abbrev gates : Data
gates = (gate, (load_field, codes "7") ∷ []) ∷ []

abbrev pub stored : HashSet memory_bolt
stored = record { content = gates; file = some gates }

-- The bytes "42".
abbrev answer_text : Bytes
answer_text = codes "42"

entry_at-hset_data_example :
    entry_at gate load_field (hset_data gate load_field answer_text gates).0 ≡ some answer_text
unfolding bytes_eq
entry_at-hset_data_example = entry_at-hset_data gate load_field answer_text gate load_field gates

atoi-bump_text_example : atoi (bump_text (some (codes "7")) (negsuc 1)) ≡ wrap64 (negsuc 1 +ℤ pos 7)
unfolding atoi
atoi-bump_text_example = atoi-bump_text (some (codes "7")) (negsuc 1)

abbrev other_field : Bytes
other_field = codes "other"

abbrev first_call : Pending
first_call = record {
  key = gate;
  field = load_field;
  value = codes "1";
  status = (hset_data gate load_field (codes "1") []).1;
}

abbrev after_first : Data
after_first = (hset_data gate load_field (codes "1") []).0

abbrev second_call : Pending
second_call = record {
  key = gate;
  field = other_field;
  value = codes "2";
  status = (hset_data gate other_field (codes "2") after_first).1;
}

abbrev after_both : Data
after_both = (hset_data gate other_field (codes "2") after_first).0

abbrev only_second : Data
only_second = (gate, (other_field, codes "2") ∷ []) ∷ []

abbrev both_written : Data
both_written = (gate, (other_field, codes "2") ∷ (load_field, codes "1") ∷ []) ∷ []

abbrev calls_done : Writers memory_bolt
calls_done = record { content = after_both; file = some both_written; pending = [] }

-- The second call writes before the first.
two_calls : Reach memory_bolt (fresh memory_bolt [] []) calls_done
unfolding save hset_data bytes_eq
two_calls =
    goes_on
      (goes_on
        (goes_on (goes_on at_start (changes gate load_field (codes "1") refl tt refl))
          (changes gate other_field (codes "2") refl (refl, tt) refl))
        (writes [] (first_call ∷ []) second_call [] only_second refl refl
          ((gate, []) ∷ [], refl, refl) refl))
      (writes [] [] first_call only_second both_written refl refl (only_second, refl, refl) refl)

writers-IsSynced_example :
    (d : Data) × (some both_written ≡ some d)
    × ((j g : Bytes) → entry_at j g d ≡ entry_at j g after_both)
writers-IsSynced_example =
    writers-IsSynced memory_bolt [] [] calls_done (λ j g. refl) two_calls refl

-- Two calls at one field whose writes come in the other order: the map has the second value, and the
-- file the first.
abbrev same_field : Data
same_field = (hset_data gate load_field (codes "2") after_first).0

abbrev late_write : Option Data
late_write =
    save memory_bolt gate load_field (codes "1") (some added)
      (save memory_bolt gate load_field (codes "2") (some updated) (some []))

overtaken_test : entry_at gate load_field same_field ≡ some (codes "2")
unfolding hset_data bytes_eq
overtaken_test = refl

overtaken_file_test : late_write ≡ some ((gate, (load_field, codes "1") ∷ []) ∷ [])
unfolding save bytes_eq
overtaken_file_test = refl
