-- ===== src/Watch/Server.antt =====
-- watch/server.go: the registry. A connection is an entry of `Clients`, which the code fills
-- before it serves the connection and never empties; the pointers in `KeyWatchers` are the
-- connections' ids. What a handler puts on the channel `Out` of a connection is appended to
-- `out`: the model keeps the order, and not the waiting for room among its 32 places. A message
-- with too few values makes the handler panic before it has changed anything: `none`. A handler is one step; Util/HashSet/Writers has the changes and the
-- writes of several connections that overlap.
pub mod Notify
pub mod Replies
pub mod Register
pub mod Invariant
pub mod Race
pub mod Tests
use goms.Base.{
  ℕ, Bytes, bytes_eq, bytes_Eq, nat_eq, lookup, insert, remove, modify, Option, none, some, List,
  [], ◌∷◌, ◌++◌, Bool, true, false, if◌then◌else◌, codes,
}
use goms.Base.Int.{pos}
use goms.Base.Decimal.{atoi}
use goms.Util.Bolt.{Bolt}
use goms.Util.HashSet.{HashSet}
use goms.Util.HashSet
use goms.Watch.Message.{WatchMessage}

pub data Status : Type 0 where
  uninitialised : Status
  active : Status
  closed : Status

pub record WatchConnect : Type 0 where
  pub status : Status
  pub watch_keys : List Bytes
  pub out : List WatchMessage

abbrev pub Clients : Type 0
Clients = List (ℕ × WatchConnect)

-- A map[int]*WatchConnect of a key: the ids.
abbrev pub Ids : Type 0
Ids = List (ℕ × Unit {0})

abbrev pub KeyWatchers : Type 0
KeyWatchers = List (Bytes × Ids)

abbrev pub ids_of : Bytes → KeyWatchers → Ids
ids_of key watchers = elim (lookup key watchers) [ none ↦ [] | some ids ↦ ids ]

abbrev pub is_open : Status → Bool
is_open uninitialised = true
is_open active = true
is_open closed = false

unfoldable pub is_live : ℕ → Clients → Bool
is_live id clients = elim (lookup id clients) [ none ↦ false | some wc ↦ is_open wc.status ]

-- writeMsgToClient
unfoldable pub write_msg_to_client : ℕ → WatchMessage → Clients → Clients
write_msg_to_client id msg = modify id (λ wc. record wc { out = wc.out ++ msg ∷ [] })

-- The loop of initializeProcess over the watched keys.
unfoldable pub register_keys : ℕ → List Bytes → KeyWatchers → KeyWatchers
register_keys id [] watchers = watchers
register_keys id (key ∷ keys) watchers =
    register_keys id keys (insert key (insert id tt (ids_of key watchers)) watchers)

-- The loop of notify: a message for each live watcher, and the ids of the others.
unfoldable pub notify_each : WatchMessage → Ids → Clients → Clients
unfolding is_live write_msg_to_client
notify_each msg [] clients = clients
notify_each msg ((id, _) ∷ ids) clients =
    notify_each msg ids (if is_live id clients then write_msg_to_client id msg clients else clients)

unfoldable pub dead_ids : Ids → Clients → List ℕ
unfolding is_live
dead_ids [] clients = []
dead_ids ((id, _) ∷ ids) clients =
    let rest = dead_ids ids clients in if is_live id clients then rest else id ∷ rest

unfoldable pub delete_ids : List ℕ → Ids → Ids
delete_ids [] ids = ids
delete_ids (id ∷ dead) ids = delete_ids dead (remove id ids)

abbrev pub watch_message : Bytes → Bytes → Bytes → WatchMessage
watch_message key field value = record {
  cmd = codes "watch";
  seq = pos 0;
  values = key ∷ field ∷ value ∷ [];
}

module _ (bolt : Bolt) where
  pub record WatchServer : Type 0 where
    pub clients : Clients
    pub key_watchers : KeyWatchers
    pub set : HashSet bolt

  abbrev pub new_watch_server : HashSet bolt → WatchServer
  new_watch_server set = record { clients = []; key_watchers = []; set = set }

  -- The start of runConn for an accepted connection, and the end of read.
  unfoldable pub accept : ℕ → WatchServer → WatchServer
  accept id ws = record ws {
    clients = insert id (record { status = uninitialised; watch_keys = []; out = [] }) ws.clients;
  }

  unfoldable pub hang_up : ℕ → WatchServer → WatchServer
  hang_up id ws = record ws { clients = modify id (λ wc. record wc { status = closed }) ws.clients }

  unfoldable pub notify : Bytes → Bytes → Bytes → WatchServer → WatchServer
  unfolding notify_each dead_ids delete_ids
  notify key field value ws = elim (lookup key ws.key_watchers) [
    | none ↦ ws
    | some ids ↦ record ws {
      clients = notify_each (watch_message key field value) ids ws.clients;
      key_watchers = insert key (delete_ids (dead_ids ids ws.clients) ids) ws.key_watchers;
    }
  ]

  -- The answer to a message: its command and number, with these values.
  unfoldable pub reply : ℕ → WatchMessage → List Bytes → WatchServer → WatchServer
  unfolding write_msg_to_client
  reply id msg values ws = record ws {
    clients =
        write_msg_to_client id (record { cmd = msg.cmd; seq = msg.seq; values = values })
          ws.clients;
  }

  unfoldable pub initialize_process : ℕ → WatchMessage → WatchServer → WatchServer
  unfolding reply register_keys
  initialize_process id msg ws =
      let ws₁ = record ws {
        clients =
            modify id (λ wc. record wc { status = active; watch_keys = msg.values }) ws.clients;
      } in
      let ws₂ = reply id msg [] ws₁ in
      record ws₂ { key_watchers = register_keys id msg.values ws₂.key_watchers }

  unfoldable pub heartbeat_process : ℕ → WatchMessage → WatchServer → WatchServer
  unfolding reply
  heartbeat_process id msg ws = reply id msg [] ws

  unfoldable pub key_prefix_process :
      ℕ → WatchMessage → WatchServer → List Bytes → Option WatchServer
  unfolding reply HashSet.key_prefix
  key_prefix_process id msg ws [] = none
  key_prefix_process id msg ws (key ∷ _) =
      some (reply id msg (HashSet.key_prefix key ws.set.content) ws)

  unfoldable pub del_process : ℕ → WatchMessage → WatchServer → List Bytes → Option WatchServer
  unfolding reply notify HashSet.del
  del_process id msg ws [] = none
  del_process id msg ws (key ∷ _) =
      some (notify key [] [] (reply id msg [] (record ws { set = HashSet.del bolt key ws.set })))

  unfoldable pub hget_process : ℕ → WatchMessage → WatchServer → List Bytes → Option WatchServer
  unfolding reply HashSet.hget
  hget_process id msg ws (key ∷ field ∷ _) =
      some (reply id msg (HashSet.hget key field ws.set.content ∷ []) ws)
  hget_process id msg ws _ = none

  unfoldable pub hgetall_process : ℕ → WatchMessage → WatchServer → List Bytes → Option WatchServer
  unfolding reply HashSet.hgetall
  hgetall_process id msg ws [] = none
  hgetall_process id msg ws (key ∷ _) = some (reply id msg (HashSet.hgetall key ws.set.content) ws)

  unfoldable pub hset_process : ℕ → WatchMessage → WatchServer → List Bytes → Option WatchServer
  unfolding reply notify HashSet.hset
  hset_process id msg ws (key ∷ field ∷ value ∷ _) = some (
      notify key field value
        (reply id msg [] (record ws { set = (HashSet.hset bolt key field value ws.set).0 })))
  hset_process id msg ws _ = none

  unfoldable pub hincrby_process : ℕ → WatchMessage → WatchServer → List Bytes → Option WatchServer
  unfolding reply notify HashSet.hincrby
  hincrby_process id msg ws (key ∷ field ∷ add ∷ _) =
      let (set, value) = HashSet.hincrby bolt key field (atoi add) ws.set in
      some (notify key field value (reply id msg (value ∷ []) (record ws { set = set })))
  hincrby_process id msg ws _ = none

  -- The dispatch of runConn; any other command is ignored.
  unfoldable pub process : ℕ → WatchMessage → WatchServer → Option WatchServer
  process id msg ws =
      if bytes_eq msg.cmd (codes "initialize")
      then some (initialize_process id msg ws)
      else if bytes_eq msg.cmd (codes "heartbeat")
      then some (heartbeat_process id msg ws)
      else if bytes_eq msg.cmd (codes "hset")
      then hset_process id msg ws msg.values
      else if bytes_eq msg.cmd (codes "hget")
      then hget_process id msg ws msg.values
      else if bytes_eq msg.cmd (codes "key_prefix")
      then key_prefix_process id msg ws msg.values
      else if bytes_eq msg.cmd (codes "hgetall")
      then hgetall_process id msg ws msg.values
      else if bytes_eq msg.cmd (codes "del")
      then del_process id msg ws msg.values
      else if bytes_eq msg.cmd (codes "hincrby")
      then hincrby_process id msg ws msg.values
      else some ws
