-- ===== src/Rpc/GoClient/Rounds.antt =====
-- What one step of the rpc client of rpc/go_client.go does to the calls that are pending and done.
use goms.Base.{
  ℕ, Bytes, nat_eq, ==_iff, lookup, lookup-insert, Option, none, some, List, [], ◌∷◌, true,
  if◌then◌else◌, ◌==◌, ◌≡◌, refl, arith, subst, Bool-cases, inl, inr, ◌⊎◌,
}
use goms.Util.HashSet.{is_some, is_blank}
use goms.Rpc.Frame.{WireError, Result, ok, err}
use goms.Rpc.Coder.{Response}
use goms.Rpc.GoClient.{
  CallInfo, Completion, server_error, reading_body, CallError, Client, Codec, complete,
  complete_all, failure, dispatch, read_reply,
}

module _ {M : Type 0} where
  -- The call's own channel has a completion in it.
  abbrev pub IsDone : ℕ → Client M → Type 0
  IsDone id c = is_some (lookup id c.done) ≡ true

  -- The first completion of a call stays.
  pub done-complete :
      (id j : ℕ) (r : Completion M) (c : Client M)
      → lookup j (complete id r c).done
        ≡ elim (lookup j c.done) [ some old ↦ some old | none ↦ if id == j then some r else none ]
  unfolding complete
  done-complete id j r c = ground (arith, lookup-insert id j r c.done, ==_iff id j)

  pub complete-IsDone : (id : ℕ) (r : Completion M) (c : Client M) → IsDone id (complete id r c)
  complete-IsDone id r c = ground (arith, done-complete id id r c, ==_iff id id)

  pub complete_keeps :
      (id j : ℕ) (r : Completion M) (c : Client M) → IsDone j c → IsDone j (complete id r c)
  complete_keeps id j r c h = ground (arith, done-complete id j r c)

  pub pending-complete_all :
      (calls : List (ℕ × CallInfo M)) (e : CallError) (c : Client M)
      → (complete_all calls e c).pending ≡ c.pending
  unfolding complete_all
  pending-complete_all [] e c = refl
  pending-complete_all ((seq, call) ∷ calls) e c =
      pending-complete_all calls e (complete call.id (failure 0 e) c)

  pub seq-complete_all :
      (calls : List (ℕ × CallInfo M)) (e : CallError) (c : Client M)
      → (complete_all calls e c).seq ≡ c.seq
  unfolding complete_all
  seq-complete_all [] e c = refl
  seq-complete_all ((seq, call) ∷ calls) e c =
      seq-complete_all calls e (complete call.id (failure 0 e) c)

  pub complete_all_keeps :
      (calls : List (ℕ × CallInfo M)) (e : CallError) (c : Client M) (j : ℕ)
      → IsDone j c
      → IsDone j (complete_all calls e c)
  unfolding complete_all
  complete_all_keeps [] e c j h = h
  complete_all_keeps ((seq, call) ∷ calls) e c j h =
      complete_all_keeps calls e (complete call.id (failure 0 e) c) j
        (complete_keeps call.id j (failure 0 e) c h)

  -- Every call of the list is done in the end.
  pub complete_all-IsDone :
      (calls : List (ℕ × CallInfo M)) (e : CallError) (c : Client M) (seq : ℕ) (call : CallInfo M)
      → lookup seq calls ≡ some call
      → IsDone call.id (complete_all calls e c)
  unfolding complete_all
  complete_all-IsDone [] e c seq call h = cc
  complete_all-IsDone ((s, first) ∷ calls) e c seq call h =
      let after = complete first.id (failure 0 e) c in
      elim (Bool-cases (s == seq)) [
        | inl same ↦
            let found : first ≡ call = ground arith in
            subst (λ (x : CallInfo M). IsDone x.id (complete_all calls e after)) found
              (complete_all_keeps calls e after first.id (complete-IsDone first.id (failure 0 e) c))
        | inr other ↦ complete_all-IsDone calls e after seq call (ground arith)
      ]

pub Result-cases :
    {A : Type 0} (m : Result A) → ((e : WireError) × (m ≡ err e)) ⊎ ((a : A) × (m ≡ ok a))
Result-cases (err e) = inl (e, refl)
Result-cases (ok a) = inr (a, refl)

module _ {M : Type 0} (codec : Codec M) (resp : Response) (s : Bytes) (c : Client M) where
  pub pending-dispatch :
      (call : Option (CallInfo M)) → (dispatch codec resp call s c).0.pending ≡ c.pending
  unfolding dispatch
  pending-dispatch none = refl
  pending-dispatch (some call) = ground arith

  pub seq-dispatch : (call : Option (CallInfo M)) → (dispatch codec resp call s c).0.seq ≡ c.seq
  unfolding dispatch
  seq-dispatch none = refl
  seq-dispatch (some call) = ground arith

  pub shutdown-dispatch :
      (call : Option (CallInfo M)) → (dispatch codec resp call s c).0.shutdown ≡ c.shutdown
  unfolding dispatch
  shutdown-dispatch none = refl
  shutdown-dispatch (some call) = ground arith

  -- The call that the response is for is done, and nothing else happens to the client.
  pub dispatch-complete :
      (call : CallInfo M)
      → (r : Completion M) × ((dispatch codec resp (some call) s c).0 ≡ complete call.id r c)
  unfolding dispatch
  dispatch-complete call = elim (Bool-cases (is_blank resp.error)) [
    | inr failed ↦ (failure 0 (server_error resp.error), ground arith)
    | inl fine ↦ elim (Result-cases (read_reply codec call s)) [
      | inl (e, broken) ↦ (failure resp.ret (reading_body e), ground arith)
      | inr (got, read) ↦
          (record { ret = resp.ret; error = none; reply = some got.0 }, ground arith)
    ]
  ]

  pub dispatch-IsDone : (call : CallInfo M) → IsDone call.id (dispatch codec resp (some call) s c).0
  dispatch-IsDone call = let (r, e) = dispatch-complete call in rw e (complete-IsDone call.id r c)

  pub dispatch_keeps :
      (call : Option (CallInfo M)) (j : ℕ) → IsDone j c → IsDone j (dispatch codec resp call s c).0
  unfolding dispatch
  dispatch_keeps none j h = h
  dispatch_keeps (some call) j h =
      let (r, e) = dispatch-complete call in rw e (complete_keeps call.id j r c h)
