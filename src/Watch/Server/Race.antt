-- ===== src/Watch/Server/Race.antt =====
-- runConn of watch/server.go serves messages that were queued before the peer hung up: `select` may
-- take them after `read` has marked the connection.
use goms.Base.{ℕ, Bytes, nat_eq, ==_iff, modify, lookup-modify, List, true, false, ◌≡◌, arith, ◌∙◌}
use goms.Util.Bolt.{Bolt}
use goms.Watch.Message.{WatchMessage}
use goms.Watch.Server.{
  WatchConnect, Clients, closed, active, is_live, ids_of, WatchServer, hang_up, initialize_process,
  reply,
}
use goms.Watch.Server.Notify.{is_known, watches, is_live-write}
use goms.Watch.Server.Register.{names, watches-register_keys}

is_live-closed :
    (id : ℕ) (clients : Clients)
    → is_live id (modify id (λ wc. record wc { status = closed }) clients) ≡ false
unfolding is_live
is_live-closed id clients =
    ground
      (arith, lookup-modify id id (λ (wc : WatchConnect). record wc { status = closed }) clients)

is_live-active :
    (id : ℕ) (keys : List Bytes) (clients : Clients)
    → is_known id clients ≡ true
    → is_live id (modify id (λ wc. record wc { status = active; watch_keys = keys }) clients) ≡ true
unfolding is_live
is_live-active id keys clients h = ground (
  arith,
  lookup-modify id id (λ (wc : WatchConnect). record wc { status = active; watch_keys = keys })
      clients,
)

is_known-closed :
    (id : ℕ) (clients : Clients)
    → is_known id clients ≡ true
    → is_known id (modify id (λ wc. record wc { status = closed }) clients) ≡ true
is_known-closed id clients h =
    ground
      (arith, lookup-modify id id (λ (wc : WatchConnect). record wc { status = closed }) clients)

-- An accepted connection that hung up and whose queued `initialize` is served afterwards counts as
-- live again, and watches every key that it named.
pub initialize-revives :
    (bolt : Bolt) (id : ℕ) (msg : WatchMessage) (key : Bytes) (ws : WatchServer bolt)
    → is_known id ws.clients ≡ true
    → names key msg.values ≡ true
    → (is_live id (hang_up bolt id ws).clients ≡ false)
      × (is_live id (initialize_process bolt id msg (hang_up bolt id ws)).clients ≡ true)
      × (watches id (ids_of key (initialize_process bolt id msg (hang_up bolt id ws)).key_watchers)
          ≡ true)
unfolding hang_up initialize_process reply
initialize-revives bolt id msg key ws known named = (
  is_live-closed id ws.clients,
  is_live-write id id _ _ ∙ is_live-active id msg.values _ (is_known-closed id ws.clients known),
  watches-register_keys id id key msg.values ws.key_watchers ∙ ground (arith, named, ==_iff id id),
)
