-- ===== src/Watch/Client/Session.antt =====
-- Two clients of watch/client.go at one server of watch/server.go.
use mathlib.Core.Option.{some-injective}
use goms.Base.{
  ℕ, zero, suc, ◌<◌, ◌^◌, Bytes, nat_eq, bytes_eq, bytes_Eq, All, All-append, IsDistinct, lookup,
  none, some, List, [], ◌∷◌, ◌++◌, append-nil, Bool, true, false, ◌&&◌, ◌==◌, codes, ◌≡◌, refl, ap,
  arith, ◌∙◌, sym,
}
use goms.Base.Int.{ℤ, pos, negsuc, IsInt64}
use goms.Util.Bolt.{Bolt}
use goms.Util.HashSet.Refine.{accepts}
use goms.Watch.Message.{WatchMessage, read_watch_message, write_watch_message}
use goms.Watch.Message.Lines.{NoNewline}
use goms.Watch.Message.RoundTrip.{IsSendable, read-write_watch_message}
use goms.Watch.Server.{ids_of, is_live, watch_message, WatchServer, process}
use goms.Watch.Server.Notify.{out_of, is_known, watches, only_if}
use goms.Watch.Server.Replies.{answer, out_of-hset_process, hget-after_hset}
use goms.Watch.Client.{
  int_eq, int_Eq, add_int32, WatchClient, returned, hget_result, receive_message, deliver_taking,
  request, send_message, send_request, hset, hget,
}
use goms.Watch.Client.Deliver.{IsAnnouncement, send_request-open, request-answered}

-- The values of Go's int32.
abbrev pub IsInt32 : ℤ → Type 0
IsInt32 (pos n) = n < 2 ^ 31
IsInt32 (negsuc n) = n < 2 ^ 31

add_int32-IsInt32 : (z : ℤ) → IsInt32 z → IsInt32 (add_int32 z)
unfolding add_int32
add_int32-IsInt32 (pos n) h = ground arith
add_int32-IsInt32 (negsuc zero) h = omega arith
add_int32-IsInt32 (negsuc (suc n)) h = omega arith

IsInt64-of_IsInt32 : (z : ℤ) → IsInt32 z → IsInt64 z
IsInt64-of_IsInt32 (pos n) h = omega arith
IsInt64-of_IsInt32 (negsuc n) h = omega arith

announcements :
    (b : Bool) (key field value : Bytes)
    → All IsAnnouncement (only_if b (watch_message key field value))
announcements true key field value = ((refl, refl), tt)
announcements false key field value = tt

module _ {C : Type 0} where
  -- What a client wrote is the request, if its command and values fit the protocol.
  request-IsSendable :
      (values : List Bytes) (wc : WatchClient C) (cmd : Bytes)
      → IsSendable (record { cmd = cmd; seq = pos 0; values = values })
      → IsInt32 wc.seq
      → IsSendable (request cmd values wc)
  unfolding request
  request-IsSendable values wc cmd h fits = record {
    ascii = h.ascii;
    word = h.word;
    seq_fits = IsInt64-of_IsInt32 (add_int32 wc.seq) (add_int32-IsInt32 wc.seq fits);
    one_line = h.one_line;
    count_fits = h.count_fits;
  }

  read-send_request :
      (cmd : Bytes) (values : List Bytes) (wc : WatchClient C)
      → wc.is_close ≡ false
      → wc.written ≡ []
      → IsSendable (request cmd values wc)
      → read_watch_message (send_request cmd values wc).written ≡ some (request cmd values wc, [])
  unfolding send_request send_message
  read-send_request cmd values wc running fresh h =
      ap (λ (w : WatchClient C). read_watch_message w.written)
        (send_request-open cmd values wc running)
      ∙ ap (λ w. read_watch_message (w ++ write_watch_message (request cmd values wc))) fresh
      ∙ ap read_watch_message (sym (append-nil (write_watch_message (request cmd values wc))))
      ∙ read-write_watch_message (request cmd values wc) [] h

  -- For two open clients on two accepted connections of one watch server, with texts without
  -- newlines, a key and a field that are not blank, and a reader whose number does not wrap to 0,
  -- whose channel of announcements is empty and is read as they come, and that has announcements
  -- only on its way: the server reads both requests, serves the writer's `Hset` and then the
  -- reader's `Hget`, and what it put on the reader's channel makes `Hget` return the value.
  pub hget-after-hset :
      (bolt : Bolt) (ws : WatchServer bolt) (i j : ℕ) (writer reader : WatchClient C)
      (key field value : Bytes)
      → accepts key field ≡ true
      → All NoNewline key
      → All NoNewline field
      → All NoNewline value
      → writer.is_close ≡ false
      → writer.written ≡ []
      → IsInt32 writer.seq
      → reader.is_close ≡ false
      → reader.written ≡ []
      → IsInt32 reader.seq
      → int_eq (add_int32 reader.seq) (pos 0) ≡ false
      → lookup (pos 0) reader.message_chan ≡ none
      → reader.watch_chan ≡ []
      → (i == j) ≡ false
      → is_known i ws.clients ≡ true
      → is_known j ws.clients ≡ true
      → IsDistinct (ids_of key ws.key_watchers)
      → All IsAnnouncement (out_of j ws.clients)
      → let set = request (codes "hset") (key ∷ field ∷ value ∷ []) writer in
        let get = request (codes "hget") (key ∷ field ∷ []) reader in
        (read_watch_message (hset key field value writer).written ≡ some (set, []))
        × (read_watch_message (hget key field reader).written ≡ some (get, []))
        × ((ws₁ ws₂ : WatchServer bolt) × (taken : List WatchMessage) × (after : WatchClient C)
            × (process bolt i set ws ≡ some ws₁)
            × (process bolt j get ws₁ ≡ some ws₂)
            × (deliver_taking (out_of j ws₂.clients) (hget key field reader) ≡ some (taken, after))
            × (hget_result (receive_message (add_int32 reader.seq) after).0 ≡ returned value))
  unfolding process hget_result request bytes_eq
  hget-after-hset bolt ws i j writer reader key field value ok k f v on₁ new₁ seq₁ on₂ new₂ seq₂
        number quiet idle apart known_i known_j distinct heard =
      let set = request (codes "hset") (key ∷ field ∷ value ∷ []) writer in
      let get = request (codes "hget") (key ∷ field ∷ []) reader in
      let (ws₁, ws₂, e₁, e₂, out) =
        hget-after_hset bolt i j set get key field value ws ok known_j in
      let (ws', e', out') =
        out_of-hset_process bolt i set ws key field value [] j known_i distinct in
      let same : ws' ≡ ws₁ = some-injective _ _ (sym e' ∙ e₁) in
      let more =
        only_if (watches j (ids_of key ws.key_watchers) && is_live j ws.clients)
          (watch_message key field value) in
      let before : out_of j ws₁.clients ≡ out_of j ws.clients ++ more =
        ap (λ (w : WatchServer bolt). out_of j w.clients) (sym same) ∙ out' ∙ rw apart refl in
      let (after, delivered, (reply, _)) =
        request-answered (codes "hget") (key ∷ field ∷ []) reader (value ∷ [])
          (out_of j ws.clients ++ more) [] on₂ number quiet idle
          (All-append IsAnnouncement (out_of j ws.clients) more heard
            (announcements _ key field value))
          tt in
      (
        read-send_request (codes "hset") (key ∷ field ∷ value ∷ []) writer on₁ new₁ (
            request-IsSendable (key ∷ field ∷ value ∷ []) writer (codes "hset")
              (record {
                ascii = ground arith;
                word = ground arith;
                seq_fits = omega arith;
                one_line = (k, (f, (v, tt)));
                count_fits = omega arith;
              })
              seq₁),
        read-send_request (codes "hget") (key ∷ field ∷ []) reader on₂ new₂ (
            request-IsSendable (key ∷ field ∷ []) reader (codes "hget")
              (record {
                ascii = ground arith;
                word = ground arith;
                seq_fits = omega arith;
                one_line = (k, (f, tt));
                count_fits = omega arith;
              })
              seq₂),
        (
          ws₁,
          ws₂,
          (out_of j ws.clients ++ more) ++ [],
          after,
          e₁,
          e₂,
          ap (λ msgs. deliver_taking msgs (hget key field reader))
                (out ∙ ap (λ msgs. msgs ++ answer get (value ∷ []) ∷ []) before)
              ∙ delivered,
          ap hget_result reply,
        ),
      )
