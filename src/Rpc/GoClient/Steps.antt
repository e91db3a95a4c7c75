-- ===== src/Rpc/GoClient/Steps.antt =====
-- The steps of the goroutines of a client of rpc/go_client.go, and what they keep.
use goms.Base.{
  ℕ, ◌+◌, ◌<◌, ◌^◌, Bytes, nat_eq, lookup, lookup-insert, lookup-remove, some, true, false, ◌≡◌,
  arith, ◌⊎◌, inl, inr, Option-cases, remove, refl, subst,
}
use goms.Rpc.GoClient.{
  CallInfo, CallError, shut_down, final_error, Client, Codec, register, fail_pending, dispatch,
  input_round, terminate, close, failure, new_client,
}
use goms.Rpc.Coder.{Response, read_response_header}
use goms.Rpc.GoClient.Rounds.{
  IsDone, Result-cases, complete-IsDone, complete_keeps, pending-complete_all, seq-complete_all,
  complete_all_keeps, complete_all-IsDone, pending-dispatch, seq-dispatch, shutdown-dispatch,
  dispatch_keeps,
}

-- Numbers of pending calls were given out, and a client that is shut down has no call open.
pub record IsConsistent {M : Type 0} (c : Client M) : Type 0 where
  pub below : (seq : ℕ) (call : CallInfo M) → lookup seq c.pending ≡ some call → seq < c.seq
  pub ended :
      (seq : ℕ) (call : CallInfo M)
      → c.shutdown ≡ true
      → lookup seq c.pending ≡ some call
      → IsDone call.id c

module _ {M : Type 0} (codec : Codec M) where
  -- The steps of the goroutines. Fewer than 2^64 requests are sent.
  pub data Step (c : Client M) : Client M → Type 0 where
    registered : (call : CallInfo M) → c.seq + 1 < 2 ^ 64 → Step c (register call c).0
    write_failed : (seq : ℕ) (e : CallError) → Step c (fail_pending seq e c)
    received : (s : Bytes) → c.shutdown ≡ false → Step c (input_round codec s c).0
    ended : (e : CallError) → Step c (terminate e c).0
    closed : Step c (close c).0

  pub data Reach (c : Client M) : Client M → Type 0 where
    here : Reach c c
    next : {d d' : Client M} → Reach c d → Step d d' → Reach c d'

  pub register-IsConsistent :
      (call : CallInfo M) (c : Client M)
      → c.seq + 1 < 2 ^ 64
      → IsConsistent c
      → IsConsistent (register call c).0
  unfolding register
  register-IsConsistent call c room h = record {
    below =
        λ seq found e. ground (arith, lookup-insert c.seq seq call c.pending, h.below seq found);
    ended = λ seq found off e.
        ground (arith, h.ended seq found, complete_keeps call.id found.id (failure 0 shut_down) c);
  }

  -- A step that gives out no number and opens no call keeps the invariant.
  keep-IsConsistent :
      (c c' : Client M)
      → ((seq : ℕ) (call : CallInfo M)
          → lookup seq c'.pending ≡ some call
          → lookup seq c.pending ≡ some call)
      → c'.seq ≡ c.seq
      → c'.shutdown ≡ c.shutdown
      → ((j : ℕ) → IsDone j c → IsDone j c')
      → IsConsistent c
      → IsConsistent c'
  keep-IsConsistent c c' fewer same on keeps h = record {
    below = λ seq call e. rw same (h.below seq call (fewer seq call e));
    ended = λ seq call off e. keeps call.id (h.ended seq call (rw (← on) off) (fewer seq call e));
  }

  pub fail_pending_parts :
      (n : ℕ) (error : CallError) (c : Client M)
      → ((fail_pending n error c).pending ≡ remove n c.pending)
        × ((fail_pending n error c).seq ≡ c.seq)
        × ((fail_pending n error c).shutdown ≡ c.shutdown)
  unfolding fail_pending
  fail_pending_parts n error c = ground arith

  pub fail_pending_keeps :
      (n : ℕ) (error : CallError) (c : Client M) (j : ℕ)
      → IsDone j c
      → IsDone j (fail_pending n error c)
  unfolding fail_pending
  fail_pending_keeps n error c j h = elim (Option-cases (lookup n c.pending)) [
    | inl none_there ↦ ground arith
    | inr (call, e) ↦ ground (
      arith,
      complete_keeps call.id j (failure 0 error) (record c { pending = remove n c.pending }),
    )
  ]

  pub fail_pending-IsDone :
      (n : ℕ) (error : CallError) (c : Client M) (call : CallInfo M)
      → lookup n c.pending ≡ some call
      → IsDone call.id (fail_pending n error c)
  unfolding fail_pending
  fail_pending-IsDone n error c call e =
      ground (
        arith,
        complete-IsDone call.id (failure 0 error) (record c { pending = remove n c.pending }),
      )

  fewer-remove :
      (n seq : ℕ) (call : CallInfo M) (c : Client M)
      → lookup seq (remove n c.pending) ≡ some call
      → lookup seq c.pending ≡ some call
  fewer-remove n seq call c e = ground (arith, lookup-remove n seq c.pending)

  fail_pending-IsConsistent :
      (n : ℕ) (error : CallError) (c : Client M)
      → IsConsistent c
      → IsConsistent (fail_pending n error c)
  fail_pending-IsConsistent n error c h =
      let (left, same, on) = fail_pending_parts n error c in
      keep-IsConsistent c (fail_pending n error c)
        (λ seq call e. fewer-remove n seq call c (subst (λ p. lookup seq p ≡ some call) left e))
        same on (fail_pending_keeps n error c) h

  -- A round fails at the header and changes nothing, or takes the call of the response.
  pub round_cases :
      (s : Bytes) (c : Client M)
      → ((input_round codec s c).0 ≡ c)
        ⊎ ((resp : Response) × (rest : Bytes) × ((input_round codec s c).0
              ≡ (dispatch codec resp
                  (lookup resp.seq c.pending)
                  rest
                  (record c { pending = remove resp.seq c.pending })).0))
  unfolding input_round
  round_cases s c =
      elim (Result-cases (
        read_response_header codec.req_pb codec.req_json codec.rsp_pb codec.rsp_json codec.pb
          codec.json s)) [
            | inl (e, broken) ↦ inl (rw (broken, input_round) refl)
            | inr (got, read) ↦ inr (got.0, got.1, rw (read, input_round) refl)
          ]

  input_round-IsConsistent :
      (s : Bytes) (c : Client M) → IsConsistent c → IsConsistent (input_round codec s c).0
  input_round-IsConsistent s c h = elim (round_cases s c) [
    | inl same ↦ rw same h
    | inr (resp, rest, taken) ↦
        let left = record c { pending = remove resp.seq c.pending } in
        let call = lookup resp.seq c.pending in
        rw taken (
          keep-IsConsistent c (dispatch codec resp call rest left).0
            (λ seq found e. fewer-remove resp.seq seq found c (
              subst (λ p. lookup seq p ≡ some found) (pending-dispatch codec resp rest left call)
                e))
            (seq-dispatch codec resp rest left call) (shutdown-dispatch codec resp rest left call)
            (dispatch_keeps codec resp rest left call) h)
  ]

  pub terminate_lem :
      (e : CallError) (c : Client M)
      → ((terminate e c).0.pending ≡ c.pending)
        × ((terminate e c).0.seq ≡ c.seq)
        × ((j : ℕ) → IsDone j c → IsDone j (terminate e c).0)
        × ((seq : ℕ) (call : CallInfo M)
            → lookup seq c.pending ≡ some call
            → IsDone call.id (terminate e c).0)
  unfolding terminate
  terminate_lem e c =
      let final = final_error c.closing e in
      let off = record c { shutdown = true } in
      (
        pending-complete_all c.pending final off,
        seq-complete_all c.pending final off,
        complete_all_keeps c.pending final off,
        complete_all-IsDone c.pending final off,
      )

  terminate-IsConsistent :
      (e : CallError) (c : Client M) → IsConsistent c → IsConsistent (terminate e c).0
  terminate-IsConsistent e c h =
      let (same, number, keeps, all) = terminate_lem e c in
      record {
        below = λ seq call found.
            rw number (h.below seq call (subst (λ p. lookup seq p ≡ some call) same found));
        ended =
            λ seq call off found. all seq call (subst (λ p. lookup seq p ≡ some call) same found);
      }

  close-IsConsistent : (c : Client M) → IsConsistent c → IsConsistent (close c).0
  unfolding close
  close-IsConsistent c h = record { below = h.below; ended = h.ended }

  Step-IsConsistent : {c c' : Client M} → Step c c' → IsConsistent c → IsConsistent c'
  Step-IsConsistent (registered call room) h = register-IsConsistent call _ room h
  Step-IsConsistent (write_failed seq e) h = fail_pending-IsConsistent seq e _ h
  Step-IsConsistent (received s on) h = input_round-IsConsistent s _ h
  Step-IsConsistent (ended e) h = terminate-IsConsistent e _ h
  Step-IsConsistent closed h = close-IsConsistent _ h

  pub Reach-IsConsistent : {c d : Client M} → IsConsistent c → Reach c d → IsConsistent d
  Reach-IsConsistent h here = h
  Reach-IsConsistent h (next r step) = Step-IsConsistent step (Reach-IsConsistent h r)

  pub new_client-IsConsistent : IsConsistent (new_client {M = M})
  new_client-IsConsistent = record { below = λ seq call e. cc; ended = λ seq call off e. cc }
