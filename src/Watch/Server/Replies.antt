-- ===== src/Watch/Server/Replies.antt =====
-- What the handlers of watch/server.go put on the connections' channels.
use goms.Base.{
  ℕ, Bytes, nat_eq, ◌==◌, ==_iff, some, List, [], ◌∷◌, ◌++◌, true, ◌&&◌, ◌≡◌, refl, append_assoc,
  ◌∙◌, IsDistinct, ap,
}
use goms.Base.Decimal.{atoi}
use goms.Util.Bolt.{Bolt}
use goms.Util.HashSet
use goms.Util.HashSet.Refine.{accepts, hget-hset_data}
use goms.Watch.Message.{WatchMessage}
use goms.Watch.Server.{
  ids_of, is_live, WatchServer, notify, reply, watch_message, del_process, hget_process,
  hset_process, hincrby_process,
}
use goms.Watch.Server.Notify.{
  out_of, is_known, watches, only_if, out_of-write, is_live-write, out_of-notify, is_known-notify,
  is_known-write, notify-set,
}

abbrev pub answer : WatchMessage → List Bytes → WatchMessage
answer msg values = record { cmd = msg.cmd; seq = msg.seq; values = values }

module _ (bolt : Bolt) (id : ℕ) (msg : WatchMessage) (values : List Bytes)
    (ws : WatchServer bolt) where
  out_of-reply :
      (j : ℕ)
      → is_known id ws.clients ≡ true
      → out_of j (reply bolt id msg values ws).clients
        ≡ out_of j ws.clients ++ only_if (id == j) (answer msg values)
  unfolding reply
  out_of-reply j h = out_of-write id j (answer msg values) ws.clients h

  -- A write is answered to its sender first, and then announced.
  out_of-reply-notify :
      (key field value : Bytes) (j : ℕ)
      → is_known id ws.clients ≡ true
      → IsDistinct (ids_of key ws.key_watchers)
      → out_of j (notify bolt key field value (reply bolt id msg values ws)).clients
        ≡ out_of j ws.clients
          ++ (only_if (id == j) (answer msg values)
              ++ only_if
                  (watches j (ids_of key ws.key_watchers) && is_live j ws.clients)
                  (watch_message key field value))
  unfolding reply
  out_of-reply-notify key field value j known distinct =
      out_of-notify bolt key field value (reply bolt id msg values ws) j distinct
      ∙ rw
          (
            is_live-write id j (answer msg values) ws.clients,
            out_of-write id j (answer msg values) ws.clients known,
          )
          (append_assoc (out_of j ws.clients) (only_if (id == j) (answer msg values)) _)

-- The messages that a write on `key` by `id` puts on the channel of `j`: the answer for the sender,
-- and behind it the announcement for a live watcher.
abbrev pub write_output :
    (bolt : Bolt)
    → ℕ
    → WatchMessage
    → List Bytes
    → Bytes
    → Bytes
    → Bytes
    → WatchServer bolt
    → ℕ
    → List WatchMessage
write_output bolt id msg values key field value ws j =
    only_if (id == j) (answer msg values)
    ++ only_if (watches j (ids_of key ws.key_watchers) && is_live j ws.clients)
        (watch_message key field value)

module _ (bolt : Bolt) (id : ℕ) (msg : WatchMessage) (ws : WatchServer bolt) where
  -- If the sender was accepted and no id is twice among the watchers of the key, `hset` is served:
  -- it puts the answer with no values on the sender's channel, and behind it the announcement of
  -- key, field and value on the channel of each live watcher of the key, and nothing else.
  pub out_of-hset_process :
      (key field value : Bytes) (more : List Bytes) (j : ℕ)
      → is_known id ws.clients ≡ true
      → IsDistinct (ids_of key ws.key_watchers)
      → (ws' : WatchServer bolt) × (hset_process bolt id msg ws (key ∷ field ∷ value ∷ more)
          ≡ some ws')
        × (out_of j ws'.clients
            ≡ out_of j ws.clients ++ write_output bolt id msg [] key field value ws j)
  unfolding hset_process
  out_of-hset_process key field value more j known distinct =
      let ws₁ = record ws { set = (HashSet.hset bolt key field value ws.set).0 } in
      (_, refl, out_of-reply-notify bolt id msg [] ws₁ key field value j known distinct)

  -- If the sender was accepted and no id is twice among the watchers of the key, `del` is served:
  -- it puts the answer with no values on the sender's channel, and behind it the announcement of
  -- the key with a blank field and value on the channel of each live watcher of the key, and
  -- nothing else.
  pub out_of-del_process :
      (key : Bytes) (more : List Bytes) (j : ℕ)
      → is_known id ws.clients ≡ true
      → IsDistinct (ids_of key ws.key_watchers)
      → (ws' : WatchServer bolt) × (del_process bolt id msg ws (key ∷ more) ≡ some ws')
        × (out_of j ws'.clients ≡ out_of j ws.clients ++ write_output bolt id msg [] key [] [] ws j)
  unfolding del_process
  out_of-del_process key more j known distinct =
      let ws₁ = record ws { set = HashSet.del bolt key ws.set } in
      (_, refl, out_of-reply-notify bolt id msg [] ws₁ key [] [] j known distinct)

  -- If the sender was accepted and no id is twice among the watchers of the key, `hincrby` is
  -- served: it puts the answer with the new counter on the sender's channel, and behind it the
  -- announcement of key, field and counter on the channel of each live watcher of the key, and
  -- nothing else.
  pub out_of-hincrby_process :
      (key field add : Bytes) (more : List Bytes) (j : ℕ)
      → is_known id ws.clients ≡ true
      → IsDistinct (ids_of key ws.key_watchers)
      → (ws' : WatchServer bolt) × (hincrby_process bolt id msg ws (key ∷ field ∷ add ∷ more)
          ≡ some ws')
        × (out_of j ws'.clients
            ≡ out_of j ws.clients
              ++ write_output bolt id msg
                  ((HashSet.hincrby bolt key field (atoi add) ws.set).1 ∷ [])
                  key
                  field
                  (HashSet.hincrby bolt key field (atoi add) ws.set).1
                  ws
                  j)
  unfolding hincrby_process
  out_of-hincrby_process key field add more j known distinct =
      let r = HashSet.hincrby bolt key field (atoi add) ws.set in
      let ws₁ = record ws { set = r.0 } in
      (_, refl, out_of-reply-notify bolt id msg (r.1 ∷ []) ws₁ key field r.1 j known distinct)

hget-hset :
    (key field value : Bytes) (bolt : Bolt) (s : HashSet.HashSet bolt)
    → accepts key field ≡ true
    → HashSet.hget key field (HashSet.hset bolt key field value s).0.content ≡ value
unfolding HashSet.hset
hget-hset key field value bolt s ok = hget-hset_data key field value s.content ok

-- Once an `hset` with a key and a field that are not blank was served, an `hget` of them by any
-- accepted connection is served and answered with the value that was set.
pub hget-after_hset :
    (bolt : Bolt) (id reader : ℕ) (msg query : WatchMessage) (key field value : Bytes)
    (ws : WatchServer bolt)
    → accepts key field ≡ true
    → is_known reader ws.clients ≡ true
    → (ws₁ ws₂ : WatchServer bolt) × (hset_process bolt id msg ws (key ∷ field ∷ value ∷ [])
        ≡ some ws₁)
      × (hget_process bolt reader query ws₁ (key ∷ field ∷ []) ≡ some ws₂)
      × (out_of reader ws₂.clients ≡ out_of reader ws₁.clients ++ answer query (value ∷ []) ∷ [])
unfolding hset_process hget_process reply
hget-after_hset bolt id reader msg query key field value ws ok known =
    let set = (HashSet.hset bolt key field value ws.set).0 in
    let ws₁ = notify bolt key field value (reply bolt id msg [] (record ws { set = set })) in
    let same : ws₁.set ≡ set =
      notify-set bolt key field value (reply bolt id msg [] (record ws { set = set })) in
    let found : HashSet.hget key field ws₁.set.content ≡ value =
      ap (λ (s : HashSet.HashSet bolt). HashSet.hget key field s.content) same
      ∙ hget-hset key field value bolt ws.set ok in
    let here : is_known reader ws₁.clients ≡ true =
      is_known-notify bolt key field value (reply bolt id msg [] (record ws { set = set })) reader
      ∙ is_known-write id reader (answer msg []) ws.clients
      ∙ known in
    (
      ws₁,
      reply bolt reader query (HashSet.hget key field ws₁.set.content ∷ []) ws₁,
      refl,
      refl,
      out_of-reply bolt reader query _ ws₁ reader here
          ∙ rw (found, (==_iff reader reader).1 refl) refl,
    )
