-- ===== src/Watch/Server/Invariant.antt =====
-- The watch server of watch/server.go as a transition system: connections are accepted, messages
-- are served, channels are drained and peers hang up, in any order.
use goms.Base.{
  ℕ, Bytes, bytes_eq, bytes_Eq, nat_eq, ==_iff, subst, lookup, modify, lookup-insert, IsDistinct,
  Option, none, some, List, [], ◌∷◌, Bool, true, false, if◌then◌else◌, ◌≡◌, arith, ◌∙◌,
  Option-cases, inl, inr, codes,
}
use goms.Base.Decimal.{atoi}
use goms.Util.Bolt.{Bolt}
use goms.Util.HashSet
use goms.Util.HashSet.WellFormed.{
  IsWellFormed, hset_data-IsWellFormed, hincrby_data-IsWellFormed, remove-IsWellFormed,
}
use goms.Watch.Message.{WatchMessage}
use goms.Watch.Server.{
  uninitialised, Clients, ids_of, WatchServer, new_watch_server, accept, hang_up, notify, reply,
  initialize_process, heartbeat_process, key_prefix_process, del_process, hget_process,
  hgetall_process, hset_process, hincrby_process, process,
}
use goms.Watch.Server.Notify.{
  is_known, watches, is_known-write, is_known-notify, notify-set, watches-notify,
  notify-key_watchers_none, notify-key_watchers_some, ids_of-some,
}
use goms.Watch.Server.Register.{
  delete_ids-IsDistinct, insert-ids-IsDistinct, register_keys-ids-IsDistinct, watches-register_keys,
  is_known-modify,
}

-- `<-wc.Out`: the oldest message leaves for the connection.
unfoldable pub drain : (bolt : Bolt) → ℕ → WatchServer bolt → WatchServer bolt
drain bolt id ws = record ws {
  clients =
      modify id (λ wc. record wc { out = elim wc.out [ [] ↦ [] | m ∷ rest ↦ rest ] }) ws.clients;
}

-- Ids are unique among a key's watchers, every watcher was accepted, and the map is well formed.
pub record IsConsistent (bolt : Bolt) (ws : WatchServer bolt) : Type 0 where
  pub ids_distinct : (key : Bytes) → IsDistinct (ids_of key ws.key_watchers)
  pub watchers_known :
      (key : Bytes) (j : ℕ)
      → watches j (ids_of key ws.key_watchers) ≡ true
      → is_known j ws.clients ≡ true
  pub set_well_formed : IsWellFormed ws.set.content

module _ (bolt : Bolt) where
  -- The steps of the invariant that change one part of the state.
  clients-IsConsistent :
      (ws : WatchServer bolt) (clients : Clients)
      → ((j : ℕ) → is_known j ws.clients ≡ true → is_known j clients ≡ true)
      → IsConsistent bolt ws
      → IsConsistent bolt (record ws { clients = clients })
  clients-IsConsistent ws clients keep c = record {
    ids_distinct = c.ids_distinct;
    watchers_known = λ key j h. keep j (c.watchers_known key j h);
    set_well_formed = c.set_well_formed;
  }

  set-IsConsistent :
      (ws : WatchServer bolt) (set : HashSet.HashSet bolt)
      → IsWellFormed set.content
      → IsConsistent bolt ws
      → IsConsistent bolt (record ws { set = set })
  set-IsConsistent ws set h c = record {
    ids_distinct = c.ids_distinct;
    watchers_known = c.watchers_known;
    set_well_formed = h;
  }

  reply-IsConsistent :
      (id : ℕ) (msg : WatchMessage) (values : List Bytes) (ws : WatchServer bolt)
      → IsConsistent bolt ws
      → IsConsistent bolt (reply bolt id msg values ws)
  unfolding reply
  reply-IsConsistent id msg values ws =
      clients-IsConsistent ws _ (λ j h. is_known-write id j _ ws.clients ∙ h)

  notify-ids-IsDistinct :
      (key field value : Bytes) (ws : WatchServer bolt)
      → ((k : Bytes) → IsDistinct (ids_of k ws.key_watchers))
      → (k : Bytes) → IsDistinct (ids_of k (notify bolt key field value ws).key_watchers)
  notify-ids-IsDistinct key field value ws all k =
      elim (Option-cases (lookup key ws.key_watchers)) [
        | inl e ↦ rw (notify-key_watchers_none bolt key field value ws e) (all k)
        | inr (ids, e) ↦ rw (notify-key_watchers_some bolt key field value ws ids e) (
            insert-ids-IsDistinct key _ ws.key_watchers
              (delete_ids-IsDistinct _ ids
                (subst IsDistinct (ids_of-some bolt key field value ws ids e) (all key)))
              all k)
      ]

  notify-IsConsistent :
      (key field value : Bytes) (ws : WatchServer bolt)
      → IsConsistent bolt ws
      → IsConsistent bolt (notify bolt key field value ws)
  notify-IsConsistent key field value ws c = record {
    ids_distinct = notify-ids-IsDistinct key field value ws c.ids_distinct;
    watchers_known = λ k j h.
        is_known-notify bolt key field value ws j
        ∙ c.watchers_known k j (ground (arith, h, watches-notify bolt key field value ws j k));
    set_well_formed = rw (notify-set bolt key field value ws) c.set_well_formed;
  }

  initialize_process-IsConsistent :
      (id : ℕ) (msg : WatchMessage) (ws : WatchServer bolt)
      → is_known id ws.clients ≡ true
      → IsConsistent bolt ws
      → IsConsistent bolt (initialize_process bolt id msg ws)
  unfolding initialize_process reply
  initialize_process-IsConsistent id msg ws known c = record {
    ids_distinct = register_keys-ids-IsDistinct id msg.values ws.key_watchers c.ids_distinct;
    watchers_known = λ k j h.
        is_known-write id j _ _
        ∙ is_known-modify id j _ ws.clients
        ∙ ground (
          arith,
          h,
          watches-register_keys id j k msg.values ws.key_watchers,
          c.watchers_known k j,
          known,
          ==_iff id j,
        );
    set_well_formed = c.set_well_formed;
  }

  abbrev pub Ensures : Option (WatchServer bolt) → Type 0
  Ensures none = Unit
  Ensures (some ws) = IsConsistent bolt ws

  if-Ensures :
      (b : Bool) (x y : Option (WatchServer bolt))
      → Ensures x
      → Ensures y
      → Ensures (if b then x else y)
  if-Ensures true x y hx hy = hx
  if-Ensures false x y hx hy = hy

  hset_process-Ensures :
      (id : ℕ) (msg : WatchMessage) (ws : WatchServer bolt) (values : List Bytes)
      → IsConsistent bolt ws
      → Ensures (hset_process bolt id msg ws values)
  unfolding hset_process HashSet.hset
  hset_process-Ensures id msg ws (k ∷ f ∷ v ∷ more) c = notify-IsConsistent k f v _ (
      reply-IsConsistent id msg [] _
        (set-IsConsistent ws _ (hset_data-IsWellFormed k f v ws.set.content c.set_well_formed) c))
  hset_process-Ensures id msg ws _ c = tt

  hincrby_process-Ensures :
      (id : ℕ) (msg : WatchMessage) (ws : WatchServer bolt) (values : List Bytes)
      → IsConsistent bolt ws
      → Ensures (hincrby_process bolt id msg ws values)
  unfolding hincrby_process HashSet.hincrby
  hincrby_process-Ensures id msg ws (k ∷ f ∷ a ∷ more) c = notify-IsConsistent k f _ _ (
      reply-IsConsistent id msg _ _ (
        set-IsConsistent ws _
          (hincrby_data-IsWellFormed k f (atoi a) ws.set.content c.set_well_formed) c))
  hincrby_process-Ensures id msg ws _ c = tt

  del_process-Ensures :
      (id : ℕ) (msg : WatchMessage) (ws : WatchServer bolt) (values : List Bytes)
      → IsConsistent bolt ws
      → Ensures (del_process bolt id msg ws values)
  unfolding del_process HashSet.del
  del_process-Ensures id msg ws [] c = tt
  del_process-Ensures id msg ws (k ∷ more) c = notify-IsConsistent k [] [] _ (
      reply-IsConsistent id msg [] _
        (set-IsConsistent ws _ (remove-IsWellFormed k ws.set.content c.set_well_formed) c))

  query-Ensures :
      (id : ℕ) (msg : WatchMessage) (ws : WatchServer bolt) (values : List Bytes)
      → IsConsistent bolt ws
      → Ensures (hget_process bolt id msg ws values)
        × Ensures (key_prefix_process bolt id msg ws values)
        × Ensures (hgetall_process bolt id msg ws values)
  unfolding hget_process key_prefix_process hgetall_process
  query-Ensures id msg ws [] c = (tt, tt, tt)
  query-Ensures id msg ws (k ∷ []) c =
      (tt, reply-IsConsistent id msg _ ws c, reply-IsConsistent id msg _ ws c)
  query-Ensures id msg ws (k ∷ f ∷ more) c = (
    reply-IsConsistent id msg _ ws c,
    reply-IsConsistent id msg _ ws c,
    reply-IsConsistent id msg _ ws c,
  )

  -- Whatever message a connection sends, the server it leaves is consistent.
  process-Ensures :
      (id : ℕ) (msg : WatchMessage) (ws : WatchServer bolt)
      → is_known id ws.clients ≡ true
      → IsConsistent bolt ws
      → Ensures (process bolt id msg ws)
  unfolding process heartbeat_process
  process-Ensures id msg ws known c =
      let query = query-Ensures id msg ws msg.values c in
      if-Ensures (bytes_eq msg.cmd (codes "initialize")) _ _
        (initialize_process-IsConsistent id msg ws known c)
        (if-Ensures (bytes_eq msg.cmd (codes "heartbeat")) _ _ (reply-IsConsistent id msg [] ws c) (
          if-Ensures (bytes_eq msg.cmd (codes "hset")) _ _
            (hset_process-Ensures id msg ws msg.values c)
            (if-Ensures (bytes_eq msg.cmd (codes "hget")) _ _ query.0 (
              if-Ensures (bytes_eq msg.cmd (codes "key_prefix")) _ _ query.1 (
                if-Ensures (bytes_eq msg.cmd (codes "hgetall")) _ _ query.2 (
                  if-Ensures (bytes_eq msg.cmd (codes "del")) _ _
                    (del_process-Ensures id msg ws msg.values c)
                    (if-Ensures (bytes_eq msg.cmd (codes "hincrby")) _ _
                      (hincrby_process-Ensures id msg ws msg.values c) c)))))))

  pub data Step : WatchServer bolt → WatchServer bolt → Type 0 where
    accepted :
        (ws : WatchServer bolt) (id : ℕ)
        → is_known id ws.clients ≡ false
        → Step ws (accept bolt id ws)
    served :
        (ws ws' : WatchServer bolt) (id : ℕ) (msg : WatchMessage)
        → is_known id ws.clients ≡ true
        → process bolt id msg ws ≡ some ws'
        → Step ws ws'
    drained : (ws : WatchServer bolt) (id : ℕ) → Step ws (drain bolt id ws)
    hung_up : (ws : WatchServer bolt) (id : ℕ) → Step ws (hang_up bolt id ws)

  pub data Reach (start : WatchServer bolt) : WatchServer bolt → Type 0 where
    here : Reach start start
    next : {ws ws' : WatchServer bolt} → Reach start ws → Step ws ws' → Reach start ws'

  Step-IsConsistent :
      {ws ws' : WatchServer bolt} → Step ws ws' → IsConsistent bolt ws → IsConsistent bolt ws'
  unfolding accept drain hang_up
  Step-IsConsistent (accepted ws id fresh) c =
      clients-IsConsistent ws _
        (λ j h. ground (
          arith,
          h,
          lookup-insert id j (record { status = uninitialised; watch_keys = []; out = [] })
              ws.clients,
        ))
        c
  Step-IsConsistent (served ws ws' id msg known e) c =
      subst Ensures e (process-Ensures id msg ws known c)
  Step-IsConsistent (drained ws id) c =
      clients-IsConsistent ws _ (λ j h. is_known-modify id j _ ws.clients ∙ h) c
  Step-IsConsistent (hung_up ws id) c =
      clients-IsConsistent ws _ (λ j h. is_known-modify id j _ ws.clients ∙ h) c

  -- From a fresh watch server over a well-formed map, every state reached by accepting new
  -- connections, serving their messages, draining their channels and hanging up is consistent: no
  -- key has a watcher twice, every watcher was accepted, and the map is well formed.
  pub Reach-IsConsistent :
      (set : HashSet.HashSet bolt) {ws : WatchServer bolt}
      → IsWellFormed set.content
      → Reach (new_watch_server bolt set) ws
      → IsConsistent bolt ws
  Reach-IsConsistent set h here = record {
    ids_distinct = λ key. tt;
    watchers_known = λ key j e. cc;
    set_well_formed = h;
  }
  Reach-IsConsistent set h (next r st) = Step-IsConsistent st (Reach-IsConsistent set h r)
