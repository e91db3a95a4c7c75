-- ===== src/Util/HashSet/Persist.antt =====
-- The bolt file of util/hash_set_db.go beside the map of util/hash_set.go.
use goms.Base.{
  Bytes, bytes_eq, bytes_Eq, lookup-remove, Option, none, some, [], ◌∷◌, Bool, true, false, ◌&&◌,
  if◌then◌else◌, ◌≡◌, refl, arith,
}
use goms.Base.Int.{ℤ}
use goms.Util.Bolt.{Bolt}
use goms.Util.HashSet.{
  Data, is_blank, hset_data, hincrby_data, HashSet, hset, del, add_kvs, del_kvs, hincrby, updated,
  added, save, bump_text, hincrby_result,
}
use goms.Util.HashSet.Refine.{entry_at, accepts, entry_at-hset_data, entry_at-hincrby_data}

module _ (bolt : Bolt) where
  open bolt use {
    Db, view, create_bucket, put, delete, delete_bucket, view-create_bucket, view-put, view-delete,
    view-delete_bucket,
  }

  -- The file and the map hold the same entries.
  abbrev pub IsSynced : Data → Db → Type 0
  IsSynced content d = (j g : Bytes) → view d j g ≡ entry_at j g content

  -- The database accepts a bucket and, in it, the write.
  abbrev pub Takes : Bytes → (Db → Option Db) → Db → Db → Type 0
  Takes key write d d' = (d₁ : Db) × (create_bucket key d ≡ some d₁) × (write d₁ ≡ some d')

  add_kvs-Takes :
      (key field value : Bytes) (d d' : Db)
      → Takes key (put key field value) d d'
      → add_kvs bolt key field value (some d) ≡ some d'
  unfolding add_kvs
  add_kvs-Takes key field value d d' (d₁, e₁, e₂) = ground arith

  del_kvs-Takes :
      (key field : Bytes) (d d' : Db)
      → Takes key (delete key field) d d'
      → del_kvs bolt key field (some d) ≡ some d'
  unfolding del_kvs
  del_kvs-Takes key field d d' (d₁, e₁, e₂) = ground arith

  -- Both kinds of write reach the bucket.
  save-add :
      (key field value : Bytes) (old : Bool) (d d' : Db)
      → Takes key (put key field value) d d'
      → save bolt key field value (some (if old then updated else added)) (some d) ≡ some d'
  unfolding save
  save-add key field value true d d' t = add_kvs-Takes key field value d d' t
  save-add key field value false d d' t = add_kvs-Takes key field value d d' t

  abbrev pub write_of : Bytes → Bytes → Bytes → Db → Option Db
  write_of key field value = if is_blank value then delete key field else put key field value

  pub save-hset_data :
      (key field value : Bytes) (content : Data) (d d' : Db)
      → accepts key field ≡ true
      → Takes key (write_of key field value) d d'
      → save bolt key field value (hset_data key field value content).1 (some d) ≡ some d'
  unfolding hset_data
  save-hset_data [] field value content d d' a t = cc
  save-hset_data (k ∷ key) [] value content d d' a t = cc
  save-hset_data (k ∷ key) (f ∷ field) [] content d d' a t =
      unfold save in del_kvs-Takes (k ∷ key) (f ∷ field) d d' t
  save-hset_data (k ∷ key) (f ∷ field) (v ∷ value) content d d' a t =
      save-add (k ∷ key) (f ∷ field) (v ∷ value) _ d d' t

  IsSynced-put :
      (key field value : Bytes) (content content' : Data) (d d' : Db)
      → IsSynced content d
      → Takes key (put key field value) d d'
      → ((j g : Bytes)
          → entry_at j g content'
            ≡ (if bytes_eq key j && bytes_eq field g then some value else entry_at j g content))
      → IsSynced content' d'
  IsSynced-put key field value content content' d d' same (d₁, e₁, e₂) step j g = ground (
    arith,
    view-put key field value d₁ d' j g e₂,
    view-create_bucket key d d₁ j g e₁,
    same j g,
    step j g,
  )

  IsSynced-delete :
      (key field : Bytes) (content content' : Data) (d d' : Db)
      → IsSynced content d
      → Takes key (delete key field) d d'
      → ((j g : Bytes)
          → entry_at j g content'
            ≡ (if bytes_eq key j && bytes_eq field g then none else entry_at j g content))
      → IsSynced content' d'
  IsSynced-delete key field content content' d d' same (d₁, e₁, e₂) step j g = ground (
    arith,
    view-delete key field d₁ d' j g e₂,
    view-create_bucket key d d₁ j g e₁,
    same j g,
    step j g,
  )

  hset_data-IsSynced :
      (key field value : Bytes) (content : Data) (d d' : Db)
      → accepts key field ≡ true
      → IsSynced content d
      → Takes key (write_of key field value) d d'
      → IsSynced (hset_data key field value content).0 d'
  hset_data-IsSynced key field [] content d d' a same t =
      IsSynced-delete key field content _ d d' same t
        (λ j g. rw (entry_at-hset_data key field [] j g content, a) refl)
  hset_data-IsSynced key field (v ∷ value) content d d' a same t =
      IsSynced-put key field (v ∷ value) content _ d d' same t
        (λ j g. rw (entry_at-hset_data key field (v ∷ value) j g content, a) refl)

  -- What the write of a value leaves at each entry.
  pub view-write_of :
      (key field value : Bytes) (d d' : Db) (j g : Bytes)
      → Takes key (write_of key field value) d d'
      → view d' j g ≡ (
          if bytes_eq key j && bytes_eq field g
          then (if is_blank value then none else some value)
          else view d j g)
  view-write_of key field [] d d' j g (d₁, e₁, e₂) =
      ground (arith, view-delete key field d₁ d' j g e₂, view-create_bucket key d d₁ j g e₁)
  view-write_of key field (v ∷ value) d d' j g (d₁, e₁, e₂) =
      ground
        (arith, view-put key field (v ∷ value) d₁ d' j g e₂, view-create_bucket key d d₁ j g e₁)

  -- If the file is open and holds the entries of the map, an `Hset` with no other call beside it, at
  -- a key and a field that are not blank, whose bucket and write the database takes, leaves the file open with that write and
  -- again with the entries of the map.
  pub hset-IsSynced :
      (key field value : Bytes) (s : HashSet bolt) (d d' : Db)
      → accepts key field ≡ true
      → s.file ≡ some d
      → IsSynced s.content d
      → Takes key (write_of key field value) d d'
      → ((hset bolt key field value s).0.file ≡ some d')
        × IsSynced (hset bolt key field value s).0.content d'
  unfolding hset
  hset-IsSynced key field value s d d' a open_file same t = (
    rw open_file (save-hset_data key field value s.content d d' a t),
    hset_data-IsSynced key field value s.content d d' a same t,
  )

  -- If the file is open and holds the entries of the map, a `Hincrby` at a key and a field that
  -- are not blank, whose bucket and write the database takes, leaves the file open with that write
  -- and again with the entries of the map.
  pub hincrby-IsSynced :
      (key field : Bytes) (add : ℤ) (s : HashSet bolt) (d d' : Db)
      → accepts key field ≡ true
      → s.file ≡ some d
      → IsSynced s.content d
      → Takes key (put key field (bump_text (entry_at key field s.content) add)) d d'
      → ((hincrby bolt key field add s).0.file ≡ some d')
        × IsSynced (hincrby bolt key field add s).0.content d'
  unfolding hincrby hincrby_result hincrby_data
  hincrby-IsSynced [] field add s d d' a open_file same t = cc
  hincrby-IsSynced (k ∷ key) [] add s d d' a open_file same t = cc
  hincrby-IsSynced (k ∷ key) (f ∷ field) add s d d' a open_file same t = (
    rw open_file (save-add (k ∷ key) (f ∷ field) _ _ d d' t),
    IsSynced-put (k ∷ key) (f ∷ field) _ s.content _ d d' same t
        (λ j g. entry_at-hincrby_data (k ∷ key) (f ∷ field) add j g s.content),
  )

  -- If the file is open and holds the entries of the map, a `Del` whose bucket the database
  -- deletes leaves the file open without the bucket and again with the entries of the map.
  pub del-IsSynced :
      (key : Bytes) (s : HashSet bolt) (d d' : Db)
      → s.file ≡ some d
      → IsSynced s.content d
      → delete_bucket key d ≡ some d'
      → ((del bolt key s).file ≡ some d') × IsSynced (del bolt key s).content d'
  unfolding del
  del-IsSynced key s d d' open_file same t = (
    ground arith,
    λ j g.
        ground (arith, view-delete_bucket key d d' j g t, same j g, lookup-remove key j s.content),
  )
