-- ===== src/Watch/Server/Register.antt =====
-- The watchers of the keys in watch/server.go: registration by initialize, and deletion.
use goms.Base.{
  ℕ, Bytes, bytes_eq, bytes_Eq, bytes_eq_iff, nat_eq, ◌==◌, insert, modify, lookup-modify,
  lookup-insert, IsDistinct, insert-IsDistinct, remove-IsDistinct, List, [], ◌∷◌, Bool, false, ◌&&◌,
  ◌||◌, if◌then◌else◌, ◌≡◌, arith, Bool-cases, inl, inr,
}
use goms.Watch.Server.{WatchConnect, Clients, Ids, KeyWatchers, ids_of, register_keys, delete_ids}
use goms.Watch.Server.Notify.{is_known, watches}

pub delete_ids-IsDistinct :
    (dead : List ℕ) (ids : Ids) → IsDistinct ids → IsDistinct (delete_ids dead ids)
unfolding delete_ids
delete_ids-IsDistinct [] ids h = h
delete_ids-IsDistinct (id ∷ dead) ids h = delete_ids-IsDistinct dead _ (remove-IsDistinct id ids h)

ids_of-insert :
    (key k : Bytes) (ids : Ids) (w : KeyWatchers)
    → ids_of k (insert key ids w) ≡ (if bytes_eq key k then ids else ids_of k w)
ids_of-insert key k ids w = ground (arith, lookup-insert key k ids w)

pub insert-ids-IsDistinct :
    (key : Bytes) (ids : Ids) (w : KeyWatchers)
    → IsDistinct ids
    → ((k : Bytes) → IsDistinct (ids_of k w))
    → (k : Bytes) → IsDistinct (ids_of k (insert key ids w))
insert-ids-IsDistinct key ids w h all k = elim (Bool-cases (bytes_eq key k)) [
  | inl e ↦ rw (ids_of-insert key k ids w, e) h
  | inr e ↦ rw (ids_of-insert key k ids w, e) (all k)
]

pub register_keys-ids-IsDistinct :
    (id : ℕ) (keys : List Bytes) (w : KeyWatchers)
    → ((k : Bytes) → IsDistinct (ids_of k w))
    → (k : Bytes) → IsDistinct (ids_of k (register_keys id keys w))
unfolding register_keys
register_keys-ids-IsDistinct id [] w all k = all k
register_keys-ids-IsDistinct id (key ∷ keys) w all k =
    register_keys-ids-IsDistinct id keys _
      (insert-ids-IsDistinct key _ w (insert-IsDistinct id tt (ids_of key w) (all key)) all) k

-- Registration adds the connection to the keys that it named, and changes nothing else.
abbrev pub names : Bytes → List Bytes → Bool
names k [] = false
names k (key ∷ keys) = bytes_eq key k || names k keys

pub watches-register_keys :
    (id j : ℕ) (k : Bytes) (keys : List Bytes) (w : KeyWatchers)
    → watches j (ids_of k (register_keys id keys w))
      ≡ watches j (ids_of k w) || (id == j && names k keys)
unfolding register_keys
watches-register_keys id j k [] w = ground arith
watches-register_keys id j k (key ∷ keys) w = ground (
  arith,
  bytes_eq_iff key k,
  watches-register_keys id j k keys (insert key (insert id tt (ids_of key w)) w),
  ids_of-insert key k (insert id tt (ids_of key w)) w,
  lookup-insert id j tt (ids_of key w),
)

pub is_known-modify :
    (id j : ℕ) (f : WatchConnect → WatchConnect) (clients : Clients)
    → is_known j (modify id f clients) ≡ is_known j clients
is_known-modify id j f clients = ground (arith, lookup-modify id j f clients)
