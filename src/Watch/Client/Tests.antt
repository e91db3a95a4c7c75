-- ===== src/Watch/Client/Tests.antt =====
-- A client of watch/client.go with one callback, and the theorems at its requests.
use goms.Base.{
  ℕ, Bytes, codes, nat_eq, bytes_Eq, List, [], ◌∷◌, ◌++◌, Bool, true, false, Option, none, some,
  lookup, ◌≡◌, refl, arith,
}
use goms.Base.Int.{pos, negsuc}
use goms.Util.HashSet.Tests.{memory_bolt}
use goms.Watch.Message.{WatchMessage, read_watch_message}
use goms.Watch.Server.{WatchServer, watch_message, process, hset_process}
use goms.Watch.Server.Notify.{out_of}
use goms.Watch.Server.Tests.{gate, load_field, server}
use goms.Watch.Client.{
  int_Eq, add_int32, WatchClient, new_watch_client, register_callback, answered, returned, waiting,
  hget_result, receive_message, deliver_all, deliver_taking, request, send_request, hset, hget,
  run_watch,
}
use goms.Watch.Client.Deliver.{request-answered}
use goms.Watch.Client.Session.{hget-after-hset}
use goms.Watch.Client.Callbacks.{hset-calls_back, announcement-answers-request}

-- The callback is the number 5.
abbrev client : WatchClient ℕ
unfolding register_callback
client = register_callback gate 5 new_watch_client

abbrev news : WatchMessage
news = watch_message gate load_field (codes "9")

request-answered_example :
    (wc' : WatchClient ℕ) × (deliver_taking
        (news ∷ record { cmd = codes "hget"; seq = pos 1; values = codes "8" ∷ [] } ∷ [])
        (send_request (codes "hget") (gate ∷ load_field ∷ []) client)
      ≡ some (news ∷ [], wc'))
    × (let (reply, after) = receive_message (pos 1) wc' in
        (reply ≡ answered (record { cmd = codes "hget"; seq = pos 1; values = codes "8" ∷ [] }))
        × (lookup (pos 1) after.message_chan ≡ none))
unfolding request client
request-answered_example =
    request-answered (codes "hget") (gate ∷ load_field ∷ []) client (codes "8" ∷ []) (news ∷ []) []
      refl refl refl refl ((refl, refl), tt) tt

-- With nobody at the channel of the announcements the second of them holds the reading loop.
deliver_all_test : deliver_all (news ∷ news ∷ []) client ≡ none
unfolding deliver_all client goms.Base.bytes_eq
deliver_all_test = refl

hget-after-hset_example :
    let set = request (codes "hset") (gate ∷ load_field ∷ codes "9" ∷ []) client in
    let get = request (codes "hget") (gate ∷ load_field ∷ []) client in
    (read_watch_message (hset gate load_field (codes "9") client).written ≡ some (set, []))
    × (read_watch_message (hget gate load_field client).written ≡ some (get, []))
    × ((ws₁ ws₂ : WatchServer memory_bolt) × (taken : List WatchMessage) × (after : WatchClient ℕ)
        × (process memory_bolt 1 set server ≡ some ws₁)
        × (process memory_bolt 2 get ws₁ ≡ some ws₂)
        × (deliver_taking (out_of 2 ws₂.clients) (hget gate load_field client)
            ≡ some (taken, after))
        × (hget_result (receive_message (pos 1) after).0 ≡ returned (codes "9")))
unfolding client add_int32 goms.Base.bytes_eq
hget-after-hset_example =
    hget-after-hset memory_bolt server 1 2 client client gate load_field (codes "9") refl
      (ground arith) (ground arith) (ground arith) refl refl (omega arith) refl refl (omega arith)
      refl refl refl refl refl refl (refl, tt) tt

hset-calls_back_example :
    (ws' : WatchServer memory_bolt) × (after : WatchClient ℕ) × (hset_process memory_bolt 1 news
        server
        (gate ∷ load_field ∷ codes "9" ∷ [])
      ≡ some ws')
    × (deliver_all (out_of 2 ws'.clients) client ≡ some after)
    × (run_watch after.calls after.watch_chan ≡ ((5, load_field, codes "9") ∷ [], waiting))
unfolding goms.Base.bytes_eq goms.Watch.Server.is_live client
hset-calls_back_example =
    hset-calls_back memory_bolt server 1 2 news client gate load_field (codes "9") 5 refl refl refl
      (refl, tt) refl refl refl refl refl refl

announcement-answers-request_example :
    (wc' : WatchClient ℕ) × (deliver_all
        (news ∷ [])
        (send_request (codes "hget") (gate ∷ load_field ∷ []) (record client { seq = negsuc 0 }))
      ≡ some wc')
    × ((receive_message (pos 0) wc').0 ≡ answered news)
    × (wc'.watch_chan ≡ [])
unfolding client add_int32
announcement-answers-request_example =
    announcement-answers-request (codes "hget") (gate ∷ load_field ∷ [])
      (record client { seq = negsuc 0 }) news refl refl refl
