-- ===== src/Util/HashSet.antt =====
-- util/hash_set.go and util/hash_set_db.go: the two-level map behind the watch server, and the
-- bolt file that follows it when one was opened (`InitDb`). The mutex covers the change of the
-- map only; `hset` and `hincrby` are the call of a method with no other call beside it, and Writers
-- has the calls of Hset that overlap. A string is its bytes; a Go map is an association list.
pub mod Refine
pub mod WellFormed
pub mod Writers
pub mod Persist
pub mod Tests
use goms.Base.{
  ℕ, Bytes, bytes_eq, bytes_Eq, lookup, insert, remove, Option, none, some, List, [], ◌∷◌, Bool,
  true, false, ◌||◌, if◌then◌else◌, ◌==◌, ◌&&◌,
}
use goms.Base.Int.{ℤ, ◌+ℤ◌, wrap64}
use goms.Base.Decimal.{atoi, itoa}
use goms.Util.Bolt.{Bolt}

abbrev pub Fields : Type 0
Fields = List (Bytes × Bytes)

abbrev pub Data : Type 0
Data = List (Bytes × Fields)

-- `s.Data[key]`, or the empty map that the code makes for a missing key.
abbrev pub fields_of : Bytes → Data → Fields
fields_of key content = elim (lookup key content) [ some info ↦ info | none ↦ [] ]

abbrev pub text_or_empty : Option Bytes → Bytes
text_or_empty none = []
text_or_empty (some v) = v

abbrev pub is_some {ℓ} : {A : Type ℓ} → Option A → Bool
is_some none = false
is_some (some a) = true

abbrev pub is_blank : Bytes → Bool
is_blank [] = true
is_blank (c ∷ s) = false

-- strings.HasPrefix
unfoldable pub has_prefix : Bytes → Bytes → Bool
has_prefix s [] = true
has_prefix [] (p ∷ prefix) = false
has_prefix (c ∷ s) (p ∷ prefix) = c == p && has_prefix s prefix

unfoldable pub key_prefix : Bytes → Data → List Bytes
unfolding has_prefix
key_prefix prefix [] = []
key_prefix prefix ((k, info) ∷ content) =
    if has_prefix k prefix then k ∷ key_prefix prefix content else key_prefix prefix content

unfoldable pub hget : Bytes → Bytes → Data → Bytes
hget key field content =
    if is_blank key || is_blank field
    then []
    else elim (lookup key content) [ none ↦ [] | some info ↦ text_or_empty (lookup field info) ]

abbrev pub flatten_fields : Fields → List Bytes
flatten_fields [] = []
flatten_fields ((field, value) ∷ info) = field ∷ value ∷ flatten_fields info

unfoldable pub hgetall : Bytes → Data → List Bytes
hgetall key content =
    if is_blank key
    then []
    else elim (lookup key content) [ none ↦ [] | some info ↦ flatten_fields info ]

-- The status of a write.
pub data Status : Type 0 where
  updated : Status
  added : Status
  deleted : Status

-- `hset`: the new map, with the status if the key and the field are acceptable.
unfoldable pub hset_data : Bytes → Bytes → Bytes → Data → Data × Option Status
hset_data key field value content =
    let info = fields_of key content in
    if is_blank key || is_blank field
    then (content, none)
    else if is_blank value
    then (insert key (remove field info) content, some deleted)
    else (
      insert key (insert field value info) content,
      some (if is_some (lookup field info) then updated else added),
    )

-- The counter that `hincrby` stores: the old text as an int (0 if it is none) plus `add`, in 64
-- bits.
unfoldable pub bump_text : Option Bytes → ℤ → Bytes
bump_text old add = itoa (wrap64 (add +ℤ atoi (text_or_empty old)))

unfoldable pub hincrby_data : Bytes → Bytes → ℤ → Data → Data × Option (Status × Bytes)
hincrby_data key field add content =
    let info = fields_of key content in
    let value = bump_text (lookup field info) add in
    if is_blank key || is_blank field then (content, none) else (
      insert key (insert field value info) content,
      some (if is_some (lookup field info) then updated else added, value),
    )

-- The loop of `Load`.
unfoldable pub load_from : List (Bytes × Bytes × Bytes) → Data → Data
unfolding hset_data
load_from [] content = content
load_from ((key, field, value) ∷ kfv) content = load_from kfv (hset_data key field value content).0

module _ (bolt : Bolt) where
  open bolt use {Db, create_bucket, put, delete, delete_bucket, scan}

  -- A call that fails leaves the database as it was; its error is dropped.
  abbrev pub attempt : (Db → Option Db) → Db → Db
  attempt f d = elim (f d) [ none ↦ d | some d' ↦ d' ]

  abbrev pub on_open : (Db → Db) → Option Db → Option Db
  on_open f none = none
  on_open f (some d) = some (f d)

  -- boltDB.Update: an error of CreateBucketIfNotExists rolls back, one of Put or Delete is dropped.
  abbrev pub in_bucket : Bytes → (Db → Option Db) → Db → Db
  in_bucket key f d = elim (create_bucket key d) [ none ↦ d | some d' ↦ attempt f d' ]

  unfoldable pub add_kvs : Bytes → Bytes → Bytes → Option Db → Option Db
  add_kvs key field value = on_open (in_bucket key (put key field value))

  unfoldable pub update_kvs : Bytes → Bytes → Bytes → Option Db → Option Db
  unfolding add_kvs
  update_kvs key field value none = none
  update_kvs key field value (some d) = add_kvs key field value (some d)

  unfoldable pub del_kvs : Bytes → Bytes → Option Db → Option Db
  del_kvs key field = on_open (in_bucket key (delete key field))

  unfoldable pub del_key : Bytes → Option Db → Option Db
  del_key key = on_open (attempt (delete_bucket key))

  unfoldable pub get_all_kfv : Option Db → List (Bytes × Bytes × Bytes)
  get_all_kfv none = []
  get_all_kfv (some d) = scan d

  pub record HashSet : Type 0 where
    pub content : Data
    pub file : Option Db

  unfoldable pub del : Bytes → HashSet → HashSet
  unfolding del_key
  del key s = record { content = remove key s.content; file = del_key key s.file }

  -- The write to the file after `hset`, by its status.
  unfoldable pub save : Bytes → Bytes → Bytes → Option Status → Option Db → Option Db
  unfolding add_kvs update_kvs del_kvs
  save key field value none db = db
  save key field value (some updated) db = update_kvs key field value db
  save key field value (some added) db = add_kvs key field value db
  save key field value (some deleted) db = del_kvs key field db

  unfoldable pub hset : Bytes → Bytes → Bytes → HashSet → HashSet × Bool
  unfolding hset_data save
  hset key field value s =
      let (stored, status) = hset_data key field value s.content in
      (record { content = stored; file = save key field value status s.file }, is_some status)

  unfoldable pub hincrby_result :
      Bytes → Bytes → Option (Status × Bytes) → Option Db → Option Db × Bytes
  unfolding save
  hincrby_result key field none db = (db, [])
  hincrby_result key field (some (status, value)) db =
      (save key field value (some status) db, value)

  unfoldable pub hincrby : Bytes → Bytes → ℤ → HashSet → HashSet × Bytes
  unfolding hincrby_data hincrby_result
  hincrby key field add s =
      let (stored, r) = hincrby_data key field add s.content in
      let (file, value) = hincrby_result key field r s.file in
      (record { content = stored; file = file }, value)

  unfoldable pub load : HashSet → HashSet
  unfolding load_from get_all_kfv
  load s = record s { content = load_from (get_all_kfv s.file) s.content }
