-- ===== src/Util/Bolt.antt =====
-- The bolt database, a third-party package, as util/hash_set_db.go calls it: an interface with
-- the documented behaviour of its buckets. A failing call changes nothing.
use goms.Base.{Bytes, bytes_eq, Option, none, some, ◌≡◌, if◌then◌else◌, ◌&&◌, List}

pub record Bolt : Type 1 where
  pub Db : Type 0
  -- what a transaction would read for a bucket and a key
  pub view : Db → Bytes → Bytes → Option Bytes
  -- tx.CreateBucketIfNotExists
  pub create_bucket : Bytes → Db → Option Db
  -- b.Put, b.Delete and tx.DeleteBucket
  pub put : Bytes → Bytes → Bytes → Db → Option Db
  pub delete : Bytes → Bytes → Db → Option Db
  pub delete_bucket : Bytes → Db → Option Db
  -- tx.ForEach over the buckets with b.ForEach inside
  pub scan : Db → List (Bytes × Bytes × Bytes)
  pub view-create_bucket :
      (k : Bytes) (d d' : Db) (j g : Bytes) → create_bucket k d ≡ some d' → view d' j g ≡ view d j g
  pub view-put :
      (k f v : Bytes) (d d' : Db) (j g : Bytes)
      → put k f v d ≡ some d'
      → view d' j g ≡ (if bytes_eq k j && bytes_eq f g then some v else view d j g)
  pub view-delete :
      (k f : Bytes) (d d' : Db) (j g : Bytes)
      → delete k f d ≡ some d'
      → view d' j g ≡ (if bytes_eq k j && bytes_eq f g then none else view d j g)
  pub view-delete_bucket :
      (k : Bytes) (d d' : Db) (j g : Bytes)
      → delete_bucket k d ≡ some d'
      → view d' j g ≡ (if bytes_eq k j then none else view d j g)
