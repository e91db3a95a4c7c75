-- ===== src/Watch/Client/Deliver.antt =====
-- What the reading loop of watch/client.go does with the server's messages.
use goms.Base.{
  Bytes, beq_refl, bytes_eq, bytes_Eq, All, lookup, insert, lookup-insert, lookup-remove, none,
  some, List, [], ◌∷◌, ◌++◌, append-nil, Bool, false, if◌then◌else◌, codes, ◌≡◌, refl, sym, ap,
  arith, ◌∙◌,
}
use goms.Base.Int.{pos}
use goms.Watch.Message.{WatchMessage}
use goms.Watch.Client.{
  int_eq, int_Eq, add_int32, WatchClient, answered, send_message, receive_message, deliver,
  deliver_taking, request, send_request,
}

-- What notify of the server sends.
abbrev pub IsAnnouncement : WatchMessage → Type 0
IsAnnouncement msg = (msg.cmd ≡ codes "watch") × (msg.seq ≡ pos 0)

module _ {C : Type 0} where
  -- A client whose `WatchChan` is empty.
  abbrev pub taken_from : WatchClient C → WatchClient C
  taken_from wc = record wc { watch_chan = [] }

  pub deliver-announcement :
      (msg : WatchMessage) (wc : WatchClient C)
      → lookup (pos 0) wc.message_chan ≡ none
      → IsAnnouncement msg
      → deliver msg (taken_from wc) ≡ some (record wc { watch_chan = msg ∷ [] })
  unfolding deliver bytes_eq
  deliver-announcement msg wc h (cmd, seq) = ground arith

  pub deliver-answer :
      (msg : WatchMessage) (wc : WatchClient C)
      → lookup msg.seq wc.message_chan ≡ some none
      → deliver msg wc
        ≡ some (record wc { message_chan = insert msg.seq (some msg) wc.message_chan })
  unfolding deliver
  deliver-answer msg wc h = rw (deliver, h) refl

  -- Announcements go to the third goroutine, one after the other, and what is behind them is read.
  deliver_taking-announcements :
      (msgs rest taken : List WatchMessage) (wc after : WatchClient C)
      → lookup (pos 0) wc.message_chan ≡ none
      → All IsAnnouncement msgs
      → deliver_taking rest (taken_from wc) ≡ some (taken, after)
      → deliver_taking (msgs ++ rest) (taken_from wc) ≡ some (msgs ++ taken, after)
  unfolding deliver_taking
  deliver_taking-announcements [] rest taken wc after h a e = e
  deliver_taking-announcements (msg ∷ msgs) rest taken wc after h (first, a) e =
      rw
        (
          deliver_taking,
          deliver-announcement msg wc h first,
          deliver_taking-announcements msgs rest taken wc after h a e,
        )
        refl

  abbrev pub sent : Bytes → List Bytes → WatchClient C → WatchClient C
  sent cmd values wc = send_message (request cmd values wc) (record wc { seq = add_int32 wc.seq })

  pub send_request-open :
      (cmd : Bytes) (values : List Bytes) (wc : WatchClient C)
      → wc.is_close ≡ false
      → send_request cmd values wc ≡ sent cmd values wc
  unfolding send_request
  send_request-open cmd values wc running =
      ap
        (λ (b : Bool).
          if b
          then wc
          else send_message (request cmd values wc) (record wc { seq = add_int32 wc.seq }))
        running

  -- For an open client whose number does not wrap to 0, that waits for no number 0, and whose
  -- channel of announcements is empty and is read as they come: announcements around the answer
  -- never answer a request. It gets the server's answer with its number, its channel is gone, and
  -- every announcement is taken from the announcements' channel, in order.
  pub request-answered :
      (cmd : Bytes) (values : List Bytes) (wc : WatchClient C) (found : List Bytes)
      (before behind : List WatchMessage)
      → wc.is_close ≡ false
      → int_eq (add_int32 wc.seq) (pos 0) ≡ false
      → lookup (pos 0) wc.message_chan ≡ none
      → wc.watch_chan ≡ []
      → All IsAnnouncement before
      → All IsAnnouncement behind
      → let answer = record (request cmd values wc) { values = found } in
        (wc' : WatchClient C) × (deliver_taking
            (before ++ answer ∷ behind)
            (send_request cmd values wc)
          ≡ some (before ++ behind, wc'))
        × (let (reply, after) = receive_message (add_int32 wc.seq) wc' in
            (reply ≡ answered answer) × (lookup (add_int32 wc.seq) after.message_chan ≡ none))
  unfolding send_message receive_message deliver_taking deliver request int_Eq
  request-answered cmd values wc found before behind running number quiet empty a b =
      let answer = record (request cmd values wc) { values = found } in
      let s = add_int32 wc.seq in
      let wc₁ = sent cmd values wc in
      let wc₂ = record wc₁ { message_chan = insert answer.seq (some answer) wc₁.message_chan } in
      let none₁ : lookup (pos 0) wc₁.message_chan ≡ none =
        lookup-insert s (pos 0) none wc.message_chan ∙ rw (number) quiet in
      let none₂ : lookup (pos 0) wc₂.message_chan ≡ none =
        lookup-insert answer.seq (pos 0) (some answer) wc₁.message_chan ∙ rw (number) none₁ in
      let there : lookup answer.seq wc₁.message_chan ≡ some none =
        lookup-insert s s none wc.message_chan ∙ rw (beq_refl s) refl in
      let taken : lookup s wc₂.message_chan ≡ some (some answer) =
        rw (lookup-insert s s (some answer) wc₁.message_chan, beq_refl s) refl in
      let later : deliver_taking behind (taken_from wc₂) ≡ some (behind, taken_from wc₂) =
        ap (λ msgs. deliver_taking msgs (taken_from wc₂)) (sym (append-nil behind))
        ∙ deliver_taking-announcements behind [] [] wc₂ (taken_from wc₂) none₂ b refl
        ∙ ap (λ msgs. some (msgs, taken_from wc₂)) (append-nil behind) in
      let answering : deliver_taking (answer ∷ behind) (taken_from wc₁)
          ≡ some (behind, taken_from wc₂) =
        rw (deliver_taking, deliver-answer answer (taken_from wc₁) there, later) refl in
      (
        taken_from wc₂,
        ap (deliver_taking (before ++ answer ∷ behind)) (
              send_request-open cmd values wc running
              ∙ ap (λ (chan : List WatchMessage). record wc₁ { watch_chan = chan }) empty)
            ∙ deliver_taking-announcements before (answer ∷ behind) behind wc₁ (taken_from wc₂)
                none₁ a answering,
        (
          rw (receive_message, taken) refl,
          lookup-remove s s wc₂.message_chan ∙ rw (beq_refl s) refl,
        ),
      )
