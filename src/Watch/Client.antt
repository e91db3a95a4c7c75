-- ===== src/Watch/Client.antt =====
-- watch/client.go: a client of the watch server. What is written goes to a connection that is
-- open, unless a write says otherwise; the channels of `MessageChan` and `WatchChan` hold one
-- message, and the reading loop waits where one is full. `C` is the type of the callbacks.
pub mod Callbacks
pub mod Deliver
pub mod Session
pub mod Tests
use goms.Base.{
  ℕ, zero, suc, ◌+◌, ◌-◌, ◌^◌, Bytes, Eq, bytes_eq, bytes_Eq, lookup, insert, remove, Option, none,
  some, List, [], ◌∷◌, ◌++◌, Bool, true, false, if◌then◌else◌, ◌==◌, ==_iff, codes, ◌≡◌, refl, ap,
  arith, ◌↔◌,
}
use goms.Base.Int.{ℤ, pos, negsuc, pos_part}
use goms.Base.Decimal.{atoi, itoa}
use goms.Watch.Message.{WatchMessage, ◌>>=◌, write_watch_message}

abbrev pub int_eq : ℤ → ℤ → Bool
int_eq (pos m) (pos n) = m == n
int_eq (pos m) (negsuc n) = false
int_eq (negsuc m) (pos n) = false
int_eq (negsuc m) (negsuc n) = m == n

int_eq_iff : (a b : ℤ) → (int_eq a b ≡ true) ↔ (a ≡ b)
int_eq_iff (pos m) (pos n) = (λ h. ap pos ((==_iff m n).0 h), λ e. (==_iff m n).1 (ap pos_part e))
int_eq_iff (pos m) (negsuc n) = (λ h. cc, λ e. cc)
int_eq_iff (negsuc m) (pos n) = (λ h. cc, λ e. cc)
int_eq_iff (negsuc m) (negsuc n) =
    (λ h. ap negsuc ((==_iff m n).0 h), λ e. (==_iff m n).1 (ground arith))

instance pub int_Eq : Eq ℤ
int_Eq = record { beq = int_eq; beq_iff = int_eq_iff }

-- atomic.AddInt32 of 1
unfoldable pub add_int32 : ℤ → ℤ
add_int32 (pos n) = if n + 1 == 2 ^ 31 then negsuc (2 ^ 31 - 1) else pos (n + 1)
add_int32 (negsuc zero) = pos 0
add_int32 (negsuc (suc n)) = negsuc n

pub record WatchClient (C : Type 0) : Type 0 where
  pub keys : List Bytes
  pub message_chan : List (ℤ × Option WatchMessage)
  pub watch_chan : List WatchMessage
  pub calls : List (Bytes × C)
  pub is_close : Bool
  pub seq : ℤ
  pub written : Bytes

-- How SendAndRecvMessage ends: the write failed, ten seconds are over, or there is an answer.
pub data Reply : Type 0 where
  failed : Reply
  timed_out : Reply
  answered : WatchMessage → Reply

-- What a call of the client gives to its caller; a nil answer, or one that is too short, makes it
-- panic.
pub data Outcome (A : Type 0) : Type 0 where
  returned : A → Outcome A
  panicked : Outcome A

abbrev pub first_value : List Bytes → Outcome Bytes
first_value [] = panicked
first_value (v ∷ values) = returned v

-- How the loop over Watch stands: waiting for the next announcement, ended, or in a panic.
pub data Watching : Type 0 where
  waiting : Watching
  ended : Watching
  crashed : Watching

-- What Hget returns, what RawCall, Hgetall and KeyPrefix do, and what Hincrby does.
unfoldable pub hget_result : Reply → Outcome Bytes
hget_result failed = returned []
hget_result timed_out = panicked
hget_result (answered msg) = first_value msg.values

unfoldable pub values_result : Reply → Outcome (List Bytes)
values_result failed = returned []
values_result timed_out = panicked
values_result (answered msg) = returned msg.values

unfoldable pub hincrby_result : Reply → Outcome ℤ
hincrby_result failed = returned (pos 0)
hincrby_result timed_out = panicked
hincrby_result (answered msg) = elim (first_value msg.values) [
  | panicked ↦ panicked
  | returned v ↦ returned (atoi v)
]

module _ {C : Type 0} where
  abbrev pub new_watch_client : WatchClient C
  new_watch_client = record {
    keys = [];
    message_chan = [];
    watch_chan = [];
    calls = [];
    is_close = false;
    seq = pos 0;
    written = [];
  }

  unfoldable pub register_callback : Bytes → C → WatchClient C → WatchClient C
  register_callback key call wc = record wc {
    keys = wc.keys ++ key ∷ [];
    calls = insert key call wc.calls;
  }

  -- The first part of SendAndRecvMessage: the channel, and the message on the connection.
  unfoldable pub send_message : WatchMessage → WatchClient C → WatchClient C
  send_message req wc = record wc {
    message_chan = insert req.seq none wc.message_chan;
    written = wc.written ++ write_watch_message req;
  }

  -- Its end, by a failed write or by readChan: the channel is gone.
  unfoldable pub receive_failed : ℤ → WatchClient C → Reply × WatchClient C
  receive_failed seq wc = (failed, record wc { message_chan = remove seq wc.message_chan })

  unfoldable pub receive_message : ℤ → WatchClient C → Reply × WatchClient C
  receive_message seq wc = (
    elim (lookup seq wc.message_chan) [
      | some (some msg) ↦ answered msg
      | some none ↦ timed_out
      | none ↦ timed_out
    ],
    record wc { message_chan = remove seq wc.message_chan },
  )

  -- One message of the reading loop; it waits, `none`, at a channel that is full.
  unfoldable pub deliver : WatchMessage → WatchClient C → Option (WatchClient C)
  deliver msg wc = elim (lookup msg.seq wc.message_chan) [
    | some none ↦ some (record wc { message_chan = insert msg.seq (some msg) wc.message_chan })
    | some (some old) ↦ none
    | none ↦
        if bytes_eq msg.cmd (codes "watch")
        then elim wc.watch_chan [
          | [] ↦ some (record wc { watch_chan = msg ∷ [] })
          | old ∷ more ↦ none
        ]
        else some wc
  ]

  -- The reading loop over messages, with nobody at `WatchChan`.
  unfoldable pub deliver_all : List WatchMessage → WatchClient C → Option (WatchClient C)
  unfolding deliver
  deliver_all [] wc = some wc
  deliver_all (msg ∷ msgs) wc = do wc' ← deliver msg wc; deliver_all msgs wc'

  -- The reading loop over messages while the third goroutine takes each announcement before the next
  -- message is read, as it does unless a callback holds it: what it takes, and the client.
  unfoldable pub deliver_taking :
      List WatchMessage → WatchClient C → Option (List WatchMessage × WatchClient C)
  unfolding deliver
  deliver_taking [] wc = some ([], wc)
  deliver_taking (msg ∷ msgs) wc = do
    wc' ← deliver msg wc
    (taken, after) ← deliver_taking msgs (record wc' { watch_chan = [] })
    some (wc'.watch_chan ++ taken, after)

  -- The end of the reading loop, and what Reconnect and Start put in its place.
  unfoldable pub connection_lost : WatchClient C → WatchClient C
  connection_lost wc = record wc { is_close = true }

  -- A request with the client's next number; a client that is closed sends nothing.
  unfoldable pub request : Bytes → List Bytes → WatchClient C → WatchMessage
  unfolding add_int32
  request cmd values wc = record { cmd = cmd; seq = add_int32 wc.seq; values = values }

  unfoldable pub send_request : Bytes → List Bytes → WatchClient C → WatchClient C
  unfolding request send_message
  send_request cmd values wc =
      if wc.is_close
      then wc
      else send_message (request cmd values wc) (record wc { seq = add_int32 wc.seq })

  -- RawCall sends whether the client is closed or not.
  unfoldable pub raw_call : Bytes → List Bytes → WatchClient C → WatchClient C
  unfolding request send_message
  raw_call cmd values wc =
      send_message (request cmd values wc) (record wc { seq = add_int32 wc.seq })

  abbrev pub initialize : WatchClient C → WatchClient C
  initialize wc = send_request (codes "initialize") wc.keys wc

  -- Start behind the goroutines, and Reconnect once it has a connection.
  abbrev pub start : WatchClient C → WatchClient C
  start wc = initialize (record wc { is_close = false })

  abbrev pub reconnect : WatchClient C → WatchClient C
  reconnect wc = start (record wc { written = [] })

  abbrev pub heartbeat : WatchClient C → WatchClient C
  heartbeat = send_request (codes "heartbeat") []

  abbrev pub hget : Bytes → Bytes → WatchClient C → WatchClient C
  hget key field = send_request (codes "hget") (key ∷ field ∷ [])

  abbrev pub hgetall : Bytes → WatchClient C → WatchClient C
  hgetall key = send_request (codes "hgetall") (key ∷ [])

  abbrev pub hset : Bytes → Bytes → Bytes → WatchClient C → WatchClient C
  hset key field value = send_request (codes "hset") (key ∷ field ∷ value ∷ [])

  abbrev pub key_prefix : Bytes → WatchClient C → WatchClient C
  key_prefix prefix = send_request (codes "key_prefix") (prefix ∷ [])

  abbrev pub del : Bytes → WatchClient C → WatchClient C
  del key = send_request (codes "del") (key ∷ [])

  abbrev pub hincrby : Bytes → Bytes → ℤ → WatchClient C → WatchClient C
  hincrby key field add = send_request (codes "hincrby") (key ∷ field ∷ itoa add ∷ [])

  -- The third goroutine of Start over the announcements: the callbacks it calls with their
  -- arguments, and how it stands. A blank key ends it.
  unfoldable pub run_watch :
      List (Bytes × C) → List WatchMessage → List (C × Bytes × Bytes) × Watching
  run_watch calls [] = ([], waiting)
  run_watch calls (msg ∷ msgs) =
      let (called, state) = run_watch calls msgs in
      elim msg.values [
        | key ∷ k ∷ v ∷ more ↦ if bytes_eq key [] then ([], ended) else elim (lookup key calls) [
          | none ↦ (called, state)
          | some call ↦ ((call, k, v) ∷ called, state)
        ]
        | _ ↦ ([], crashed)
      ]
