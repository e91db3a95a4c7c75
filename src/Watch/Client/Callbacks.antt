-- ===== src/Watch/Client/Callbacks.antt =====
-- The announcements of watch/server.go in a client of watch/client.go.
use goms.Base.{
  ℕ, Bytes, nat_eq, bytes_eq, bytes_Eq, IsDistinct, lookup, insert, lookup-insert, beq_refl, none,
  some, List, [], ◌∷◌, true, false, ◌==◌, ◌≡◌, refl, sym, ap, arith, ◌∙◌,
}
use goms.Base.Int.{pos, negsuc}
use goms.Util.Bolt.{Bolt}
use goms.Util.HashSet.{is_blank}
use goms.Watch.Message.{WatchMessage}
use goms.Watch.Server.{ids_of, is_live, watch_message, WatchServer, hset_process}
use goms.Watch.Server.Notify.{out_of, is_known, watches}
use goms.Watch.Server.Replies.{out_of-hset_process}
use goms.Watch.Client.{
  int_Eq, add_int32, WatchClient, answered, waiting, receive_message, deliver_all, request,
  send_message, send_request, run_watch,
}
use goms.Watch.Client.Deliver.{deliver-announcement, deliver-answer, send_request-open, sent}

module _ {C : Type 0} where
  run_watch-one :
      (calls : List (Bytes × C)) (key field value : Bytes) (call : C)
      → is_blank key ≡ false
      → lookup key calls ≡ some call
      → run_watch calls (watch_message key field value ∷ []) ≡ ((call, field, value) ∷ [], waiting)
  unfolding run_watch bytes_eq
  run_watch-one calls [] field value call full found = cc
  run_watch-one calls (c ∷ key) field value call full found = ground arith

  -- A served `hset` of a key that is not blank makes another client, whose connection is live and
  -- watches the key and whose channels are empty, call its callback of that key once, with the
  -- field and the value.
  pub hset-calls_back :
      (bolt : Bolt) (ws : WatchServer bolt) (i j : ℕ) (msg : WatchMessage) (wc : WatchClient C)
      (key field value : Bytes) (call : C)
      → is_blank key ≡ false
      → (i == j) ≡ false
      → is_known i ws.clients ≡ true
      → IsDistinct (ids_of key ws.key_watchers)
      → watches j (ids_of key ws.key_watchers) ≡ true
      → is_live j ws.clients ≡ true
      → out_of j ws.clients ≡ []
      → lookup (pos 0) wc.message_chan ≡ none
      → wc.watch_chan ≡ []
      → lookup key wc.calls ≡ some call
      → (ws' : WatchServer bolt) × (after : WatchClient C) × (hset_process bolt i msg ws
            (key ∷ field ∷ value ∷ [])
          ≡ some ws')
        × (deliver_all (out_of j ws'.clients) wc ≡ some after)
        × (run_watch after.calls after.watch_chan ≡ ((call, field, value) ∷ [], waiting))
  unfolding deliver_all
  hset-calls_back bolt ws i j msg wc key field value call full apart known distinct heard live old
        quiet empty found =
      let (ws', served, out) =
        out_of-hset_process bolt i msg ws key field value [] j known distinct in
      let news = watch_message key field value ∷ [] in
      let told : out_of j ws'.clients ≡ news = out ∙ rw (old, apart, heard, live) refl in
      let idle : deliver_all news wc ≡ deliver_all news (record wc { watch_chan = [] }) =
        ap (λ (chan : List WatchMessage). deliver_all news (record wc { watch_chan = chan }))
          empty in
      let heard_once : deliver_all news (record wc { watch_chan = [] })
          ≡ some (record wc { watch_chan = news }) =
        rw (deliver_all, deliver-announcement (watch_message key field value) wc quiet (refl, refl))
          refl in
      (
        ws',
        record wc { watch_chan = news },
        served,
        ap (λ msgs. deliver_all msgs wc) told ∙ (idle ∙ heard_once),
        run_watch-one wc.calls key field value call full found,
      )

  -- A request of an open client whose number wraps from -1 to 0 takes a message with the number 0,
  -- which the announcements have, for its answer, and the announcements' channel does not get it.
  pub announcement-answers-request :
      (cmd : Bytes) (values : List Bytes) (wc : WatchClient C) (news : WatchMessage)
      → wc.is_close ≡ false
      → wc.seq ≡ negsuc 0
      → news.seq ≡ pos 0
      → (wc' : WatchClient C) × (deliver_all (news ∷ []) (send_request cmd values wc) ≡ some wc')
        × ((receive_message (add_int32 wc.seq) wc').0 ≡ answered news)
        × (wc'.watch_chan ≡ wc.watch_chan)
  unfolding deliver_all receive_message send_message add_int32 request
  announcement-answers-request cmd values wc news running last zeroth =
      let s = add_int32 wc.seq in
      let wc₁ = sent cmd values wc in
      let wc₂ = record wc₁ { message_chan = insert news.seq (some news) wc₁.message_chan } in
      let zero : s ≡ news.seq = ap add_int32 last ∙ sym zeroth in
      let there : lookup news.seq wc₁.message_chan ≡ some none =
        lookup-insert s news.seq none wc.message_chan ∙ rw (zero, beq_refl news.seq) refl in
      let taken : lookup s wc₂.message_chan ≡ some (some news) =
        lookup-insert news.seq s (some news) wc₁.message_chan ∙ rw (zero, beq_refl news.seq) refl in
      (
        wc₂,
        ap (deliver_all (news ∷ [])) (send_request-open cmd values wc running)
            ∙ rw (deliver_all, deliver-answer news wc₁ there) refl,
        rw (receive_message, taken) refl,
        refl,
      )
