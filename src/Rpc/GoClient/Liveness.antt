-- ===== src/Rpc/GoClient/Liveness.antt =====
-- The life of a call of the rpc client of rpc/go_client.go, with the steps of all goroutines in any
-- order.
use goms.Base.{
  ℕ, ◌+◌, ◌<◌, ◌^◌, Bytes, nat_eq, ==_iff, lookup, lookup-insert, lookup-remove, some, true, false,
  ◌||◌, ◌==◌, ◌≡◌, arith, ◌⊎◌, inl, inr, Bool-cases, remove,
}
use goms.Rpc.GoClient.{
  CallInfo, CallError, shut_down, Client, Codec, register, fail_pending, dispatch, input_round,
  terminate, close, failure, new_client,
}
use goms.Rpc.Coder.{Response}
use goms.Rpc.GoClient.Rounds.{
  IsDone, complete-IsDone, complete_keeps, pending-dispatch, dispatch-IsDone, dispatch_keeps,
}
use goms.Rpc.GoClient.Steps.{
  IsConsistent, Step, registered, write_failed, received, ended, closed, Reach, here, next,
  register-IsConsistent, fail_pending_parts, fail_pending_keeps, fail_pending-IsDone, round_cases,
  terminate_lem, Reach-IsConsistent, new_client-IsConsistent,
}

module _ {M : Type 0} (codec : Codec M) where
  -- The call waits for its answer under its number, or is done.
  abbrev pub Waits : ℕ → CallInfo M → Client M → Type 0
  Waits seq call c = (lookup seq c.pending ≡ some call) ⊎ IsDone call.id c

  -- A call that waits is not lost by any step.
  register-Waits :
      (call : CallInfo M) (c : Client M) (seq : ℕ) (found : CallInfo M)
      → IsConsistent c
      → Waits seq found c
      → Waits seq found (register call c).0
  unfolding register
  register-Waits call c seq found h (inl e) =
      inl (ground (arith, lookup-insert c.seq seq call c.pending, h.below seq found))
  register-Waits call c seq found h (inr d) =
      inr (ground (arith, complete_keeps call.id found.id (failure 0 shut_down) c))

  fail_pending-Waits :
      (n : ℕ) (error : CallError) (c : Client M) (seq : ℕ) (call : CallInfo M)
      → Waits seq call c
      → Waits seq call (fail_pending n error c)
  fail_pending-Waits n error c seq call (inr d) = inr (fail_pending_keeps codec n error c call.id d)
  fail_pending-Waits n error c seq call (inl e) = elim (Bool-cases (n == seq)) [
    | inl same ↦ inr (fail_pending-IsDone codec n error c call (ground arith))
    | inr other ↦
        inl (ground (arith, fail_pending_parts codec n error c, lookup-remove n seq c.pending))
  ]

  dispatch-Waits :
      (resp : Response) (rest : Bytes) (c : Client M) (seq : ℕ) (call : CallInfo M)
      → Waits seq call c
      → Waits seq call
          (dispatch codec resp
            (lookup resp.seq c.pending)
            rest
            (record c { pending = remove resp.seq c.pending })).0
  dispatch-Waits resp rest c seq call (inr d) = inr (
      dispatch_keeps codec resp rest (record c { pending = remove resp.seq c.pending })
        (lookup resp.seq c.pending) call.id d)
  dispatch-Waits resp rest c seq call (inl e) =
      let left = record c { pending = remove resp.seq c.pending } in
      elim (Bool-cases (resp.seq == seq)) [
        | inl same ↦
            let found : lookup resp.seq c.pending ≡ some call = ground arith in
            inr (rw found (dispatch-IsDone codec resp rest left call))
        | inr other ↦ inl (
            rw (pending-dispatch codec resp rest left (lookup resp.seq c.pending))
              (ground (arith, lookup-remove resp.seq seq c.pending)))
      ]

  input_round-Waits :
      (s : Bytes) (c : Client M) (seq : ℕ) (call : CallInfo M)
      → Waits seq call c
      → Waits seq call (input_round codec s c).0
  input_round-Waits s c seq call w = elim (round_cases codec s c) [
    | inl same ↦ rw same w
    | inr (resp, rest, taken) ↦ rw taken (dispatch-Waits resp rest c seq call w)
  ]

  terminate-Waits :
      (e : CallError) (c : Client M) (seq : ℕ) (call : CallInfo M)
      → Waits seq call c
      → Waits seq call (terminate e c).0
  terminate-Waits e c seq call (inr d) = inr ((terminate_lem codec e c).2 call.id d)
  terminate-Waits e c seq call (inl found) = inr ((terminate_lem codec e c).3 seq call found)

  close-Waits :
      (c : Client M) (seq : ℕ) (call : CallInfo M) → Waits seq call c → Waits seq call (close c).0
  unfolding close
  close-Waits c seq call w = w

  Step-Waits :
      {c c' : Client M} (seq : ℕ) (call : CallInfo M)
      → Step codec c c'
      → IsConsistent c
      → Waits seq call c
      → Waits seq call c'
  Step-Waits seq call (registered other room) h w = register-Waits other _ seq call h w
  Step-Waits seq call (write_failed n e) h w = fail_pending-Waits n e _ seq call w
  Step-Waits seq call (received s on) h w = input_round-Waits s _ seq call w
  Step-Waits seq call (ended e) h w = terminate-Waits e _ seq call w
  Step-Waits seq call closed h w = close-Waits _ seq call w

  Reach-Waits :
      {c d : Client M} (seq : ℕ) (call : CallInfo M)
      → IsConsistent c
      → Waits seq call c
      → Reach codec c d
      → Waits seq call d
  Reach-Waits seq call h w here = w
  Reach-Waits seq call h w (next r step) =
      Step-Waits seq call step (Reach-IsConsistent codec h r) (Reach-Waits seq call h w r)

  -- What `send` leaves for its call: an entry under its number, or a completion.
  registered-Waits :
      (call : CallInfo M) (c : Client M)
      → call.no_resp ≡ false
      → Waits c.seq call (register call c).0
  unfolding register
  registered-Waits call c wants = elim (Bool-cases (c.shutdown || c.closing)) [
    | inl off ↦ inr (
        rw (off, register)
          (complete-IsDone call.id (failure 0 shut_down) (record c { made = call.id + 1 })))
    | inr on ↦ inl (ground (arith, lookup-insert c.seq c.seq call c.pending, ==_iff c.seq c.seq))
  ]

  -- Whatever a client's goroutines did before a call that wants an answer was sent and whatever
  -- they do after, with fewer than 2^64 requests: once the reading loop has ended, the call is
  -- done.
  pub Reach-answered :
      (call : CallInfo M) {c d : Client M}
      → Reach codec new_client c
      → c.seq + 1 < 2 ^ 64
      → call.no_resp ≡ false
      → Reach codec (register call c).0 d
      → d.shutdown ≡ true
      → IsDone call.id d
  Reach-answered call {c} {d} before room wants after off =
      let start = Reach-IsConsistent codec (new_client-IsConsistent codec) before in
      let sent = register-IsConsistent codec call c room start in
      elim (Reach-Waits c.seq call sent (registered-Waits call c wants) after) [
        | inr is_done ↦ is_done
        | inl open_still ↦ (Reach-IsConsistent codec sent after).ended c.seq call off open_still
      ]
