-- ===== src/Watch/Server/Notify.antt =====
-- Who hears of a change (notify of watch/server.go), and which watchers stay.
use goms.Base.{
  ℕ, Bytes, bytes_eq, bytes_Eq, bytes_eq_iff, nat_eq, ◌==◌, lookup, insert, remove, lookup-modify,
  lookup-insert, lookup-remove, IsDistinct, none, some, List, [], ◌∷◌, ◌++◌, Bool, true, false,
  ◌&&◌, if◌then◌else◌, ◌≡◌, refl, arith, append-nil, ◌∙◌, sym, subst, Bool-cases, Option-cases, inl,
  inr, ◌||◌, not,
}
use goms.Util.Bolt.{Bolt}
use goms.Util.HashSet.{is_some}
use goms.Watch.Message.{WatchMessage}
use goms.Watch.Server.{
  WatchConnect, Clients, Ids, ids_of, is_live, write_msg_to_client, notify_each, dead_ids,
  delete_ids, watch_message, WatchServer, notify,
}

-- The messages put on a connection's channel.
abbrev pub out_of : ℕ → Clients → List WatchMessage
out_of id clients = elim (lookup id clients) [ none ↦ [] | some wc ↦ wc.out ]

-- The connection was accepted.
abbrev pub is_known : ℕ → Clients → Bool
is_known id clients = is_some (lookup id clients)

abbrev pub watches : ℕ → Ids → Bool
watches id ids = is_some (lookup id ids)

abbrev pub only_if : Bool → WatchMessage → List WatchMessage
only_if b msg = if b then msg ∷ [] else []

module _ (id j : ℕ) (msg : WatchMessage) (clients : Clients) where
  pub is_live-write : is_live j (write_msg_to_client id msg clients) ≡ is_live j clients
  unfolding is_live write_msg_to_client
  is_live-write = ground (
    arith,
    lookup-modify id j (λ (wc : WatchConnect). record wc { out = wc.out ++ msg ∷ [] }) clients,
  )

  -- A connection that exists gets the message, and no other does.
  pub out_of-write :
      is_known id clients ≡ true
      → out_of j (write_msg_to_client id msg clients) ≡ out_of j clients ++ only_if (id == j) msg
  unfolding is_live write_msg_to_client
  out_of-write h = ground (
    arith,
    append-nil (out_of j clients),
    lookup-modify id j (λ (wc : WatchConnect). record wc { out = wc.out ++ msg ∷ [] }) clients,
  )

is_known_of_live :
    (id : ℕ) (clients : Clients) → is_live id clients ≡ true → is_known id clients ≡ true
unfolding is_live
is_known_of_live id clients h = ground arith

pub is_known-write :
    (id j : ℕ) (msg : WatchMessage) (clients : Clients)
    → is_known j (write_msg_to_client id msg clients) ≡ is_known j clients
unfolding write_msg_to_client
is_known-write id j msg clients = ground (
  arith,
  lookup-modify id j (λ (wc : WatchConnect). record wc { out = wc.out ++ msg ∷ [] }) clients,
)

is_known-notify_each :
    (j : ℕ) (msg : WatchMessage) (ids : Ids) (clients : Clients)
    → is_known j (notify_each msg ids clients) ≡ is_known j clients
unfolding notify_each
is_known-notify_each j msg [] clients = refl
is_known-notify_each j msg ((id, _) ∷ ids) clients = elim (Bool-cases (is_live id clients)) [
  | inl live ↦ rw live (
      is_known-notify_each j msg ids (write_msg_to_client id msg clients)
      ∙ is_known-write id j msg clients)
  | inr gone ↦ rw gone (is_known-notify_each j msg ids clients)
]

pub is_live-notify_each :
    (j : ℕ) (msg : WatchMessage) (ids : Ids) (clients : Clients)
    → is_live j (notify_each msg ids clients) ≡ is_live j clients
unfolding notify_each
is_live-notify_each j msg [] clients = refl
is_live-notify_each j msg ((id, _) ∷ ids) clients = elim (Bool-cases (is_live id clients)) [
  | inl live ↦ rw live (
      is_live-notify_each j msg ids (write_msg_to_client id msg clients)
      ∙ is_live-write id j msg clients)
  | inr gone ↦ rw gone (is_live-notify_each j msg ids clients)
]

out_of-notify_each :
    (j : ℕ) (msg : WatchMessage) (ids : Ids) (clients : Clients)
    → IsDistinct ids
    → out_of j (notify_each msg ids clients)
      ≡ out_of j clients ++ only_if (watches j ids && is_live j clients) msg
unfolding notify_each
out_of-notify_each j msg [] clients h = sym (append-nil (out_of j clients))
out_of-notify_each j msg ((id, _) ∷ ids) clients (fresh, h) =
    elim (Bool-cases (is_live id clients)) [
      | inl live ↦ rw live (
          ground (
            arith,
            out_of-notify_each j msg ids (write_msg_to_client id msg clients) h,
            out_of-write id j msg clients (is_known_of_live id clients live),
            is_live-write id j msg clients,
            append-nil (out_of j clients),
            append-nil (out_of j clients ++ msg ∷ []),
          ))
      | inr gone ↦ rw gone (ground (arith, out_of-notify_each j msg ids clients h))
    ]

has_id : ℕ → List ℕ → Bool
has_id j [] = false
has_id j (id ∷ dead) = id == j || has_id j dead

watches-delete_ids :
    (j : ℕ) (dead : List ℕ) (ids : Ids)
    → watches j (delete_ids dead ids) ≡ watches j ids && not (has_id j dead)
unfolding delete_ids has_id
watches-delete_ids j [] ids = ground arith
watches-delete_ids j (id ∷ dead) ids =
    ground (arith, watches-delete_ids j dead (remove id ids), lookup-remove id j ids)

has_id-dead_ids :
    (j : ℕ) (ids : Ids) (clients : Clients)
    → has_id j (dead_ids ids clients) ≡ watches j ids && not (is_live j clients)
unfolding dead_ids has_id
has_id-dead_ids j [] clients = refl
has_id-dead_ids j ((id, _) ∷ ids) clients = elim (Bool-cases (is_live id clients)) [
  | inl live ↦ rw live (ground (arith, has_id-dead_ids j ids clients))
  | inr gone ↦ rw gone (ground (arith, has_id-dead_ids j ids clients))
]

module _ (bolt : Bolt) (key field value : Bytes) (ws : WatchServer bolt) where
  pub ids_of-some :
      (ids : Ids) → lookup key ws.key_watchers ≡ some ids → ids_of key ws.key_watchers ≡ ids
  ids_of-some ids e = ground arith

  -- If no id is twice among the watchers of a key, an announcement of a change puts one message on
  -- the channel of each live watcher of the key, and nothing on any other channel.
  pub out_of-notify :
      (j : ℕ)
      → IsDistinct (ids_of key ws.key_watchers)
      → out_of j (notify bolt key field value ws).clients
        ≡ out_of j ws.clients
          ++ only_if
              (watches j (ids_of key ws.key_watchers) && is_live j ws.clients)
              (watch_message key field value)
  unfolding notify
  out_of-notify j h = elim (Option-cases (lookup key ws.key_watchers)) [
    | inl e ↦ ground (arith, append-nil (out_of j ws.clients))
    | inr (ids, e) ↦ ground (
      arith,
      out_of-notify_each j (watch_message key field value) ids ws.clients
          (subst IsDistinct (ids_of-some ids e) h),
    )
  ]

  -- An announcement drops those watchers of its key that hung up, and no watcher of any other key.
  pub watches-notify :
      (j : ℕ) (k : Bytes)
      → watches j (ids_of k (notify bolt key field value ws).key_watchers)
        ≡ watches j (ids_of k ws.key_watchers) && (not (bytes_eq key k) || is_live j ws.clients)
  unfolding notify
  watches-notify j k = elim (Option-cases (lookup key ws.key_watchers)) [
    | inl e ↦ ground (arith, bytes_eq_iff key k)
    | inr (ids, e) ↦ ground (
      arith,
      bytes_eq_iff key k,
      lookup-insert key k (delete_ids (dead_ids ids ws.clients) ids) ws.key_watchers,
      watches-delete_ids j (dead_ids ids ws.clients) ids,
      has_id-dead_ids j ids ws.clients,
    )
  ]

  pub is_known-notify :
      (j : ℕ) → is_known j (notify bolt key field value ws).clients ≡ is_known j ws.clients
  unfolding notify
  is_known-notify j = elim (Option-cases (lookup key ws.key_watchers)) [
    | inl e ↦ ground arith
    | inr (ids, e) ↦
        ground (arith, is_known-notify_each j (watch_message key field value) ids ws.clients)
  ]

  pub notify-set : (notify bolt key field value ws).set ≡ ws.set
  unfolding notify
  notify-set = elim (Option-cases (lookup key ws.key_watchers)) [
    | inl e ↦ ground arith
    | inr (ids, e) ↦ ground arith
  ]

  pub notify-key_watchers_none :
      lookup key ws.key_watchers ≡ none
      → (notify bolt key field value ws).key_watchers ≡ ws.key_watchers
  unfolding notify
  notify-key_watchers_none e = ground arith

  pub notify-key_watchers_some :
      (ids : Ids)
      → lookup key ws.key_watchers ≡ some ids
      → (notify bolt key field value ws).key_watchers
        ≡ insert key (delete_ids (dead_ids ids ws.clients) ids) ws.key_watchers
  unfolding notify
  notify-key_watchers_some ids e = ground arith
