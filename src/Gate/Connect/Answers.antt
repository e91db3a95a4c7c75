-- ===== src/Gate/Connect/Answers.antt =====
-- What handleConn of gnet/connect.go answers: each message that it reads gets one message, with its
-- command and its number, whatever the order in which the pool writes them.
use mathlib.Core.List.{Perm}
use mathlib.Core.List.Perm
use mathlib.Core.Option.{some-injective}
use goms.Rpc.Frame.{eof, read_full}
use goms.Base.{
  ℕ, zero, suc, ◌+◌, ◌^◌, ◌<◌, Bytes, Option, List, [], ◌∷◌, ◌++◌, append_assoc, append-nil, map,
  subst, Bool, false, length, All, ◌≡◌, refl, sym, ap, arith, ◌∙◌,
}
use goms.Util.Crypto.{BlockMode}
use goms.Rpc.Coder.{Context}
use goms.Rpc.Node.{Node}
use goms.Rpc.Node.Calls.{Outcome}
use goms.Gate.Message.{
  Request, frame, got, failed, wire, write_message_with_key, read_message_with_key,
}
use goms.Gate.Message.RoundTrip.{IsSendable, read-write_message}
use goms.Gate.Connect.{
  ClientConn, Answer, Interceptors, write_job, write_jobs, handle_message, serve,
}
use goms.Gate.Connect.Round.{AreKeeping, handle_message-AnswersOnce}

-- What a client may send: 16 bits for the numbers, four bytes of application, a body below 2^16.
abbrev pub Sendable : Request → Type 0
Sendable req = IsSendable req × (length req.buff < 2 ^ 16)

-- Messages on the wire, one behind the other.
abbrev pub stream : List Request → Bytes
stream [] = []
stream (req ∷ reqs) = frame req req.buff ++ stream reqs

abbrev pub numbers : List Request → List (ℕ × ℕ)
numbers = map (λ req. (req.cmd, req.seq))

-- The jobs of SendMessage for messages that do not end the connection.
abbrev pub pending : List Request → List (Request × Bool)
pending = map (λ req. (req, false))

numbers-pending :
    (reqs : List Request)
    → map (λ (job : Request × Bool). (job.0.cmd, job.0.seq)) (pending reqs) ≡ numbers reqs
numbers-pending [] = refl
numbers-pending (req ∷ reqs) = ap (λ ns. (req.cmd, req.seq) ∷ ns) (numbers-pending reqs)

module _ (mode : BlockMode) where
  read-frame :
      (req : Request) (rest : Bytes)
      → Sendable req
      → read_message_with_key mode [] (frame req req.buff ++ rest)
        ≡ got (record req { size = length req.buff }) rest
  unfolding write_message_with_key
  read-frame req rest (h, fits) =
      let (bytes, written, read) = read-write_message mode req [] rest h refl fits in
      ap (λ b. read_message_with_key mode [] (b ++ rest)) (some-injective _ _ written) ∙ read

  read-nothing : read_message_with_key mode [] [] ≡ failed (wire eof)
  unfolding read_message_with_key read_full
  read-nothing = refl

  -- On an open connection without a key each message is written whole, one behind the other.
  write_jobs-pending :
      (order : List Request) (conn : ClientConn)
      → conn.key ≡ []
      → conn.closed ≡ false
      → (write_jobs mode (pending order) conn).out ≡ conn.out ++ stream order
  unfolding write_jobs write_job write_message_with_key
  write_jobs-pending [] conn plain live = sym (append-nil conn.out)
  write_jobs-pending (req ∷ order) conn plain live =
      let once : write_job mode (req, false) conn
          ≡ record conn { out = conn.out ++ frame req req.buff; closed = false } =
        simp (write_job, live, plain) refl in
      ap (λ c. (write_jobs mode (pending order) c).out) once
      ∙ write_jobs-pending order
          (record conn { out = conn.out ++ frame req req.buff; closed = false }) plain refl
      ∙ append_assoc conn.out (frame req req.buff) (stream order)

  module _ (dial : Bytes → Option ℕ) (perform : Outcome → Context → Bytes → Answer) where
    -- One message of the stream is one round of the loop.
    serve-frame :
        (hooks : Interceptors) (call_id : ℕ → ℕ) (fuel n : ℕ) (req : Request) (rest : Bytes)
        (conn : ClientConn) (node : Node)
        → conn.key ≡ []
        → Sendable req
        → let (conn', node') =
            handle_message mode dial perform hooks
              (call_id n)
              (record req { size = length req.buff })
              conn
              node in
          serve mode dial perform hooks call_id (suc fuel) n (frame req req.buff ++ rest) conn node
          ≡ serve mode dial perform hooks call_id fuel (n + 1) rest conn' node'
    unfolding serve
    serve-frame hooks call_id fuel n req rest conn node plain fits =
        let read : read_message_with_key mode conn.key (frame req req.buff ++ rest)
            ≡ got (record req { size = length req.buff }) rest =
          ap (λ k. read_message_with_key mode k (frame req req.buff ++ rest)) plain
          ∙ read-frame req rest fits in
        rw (read, serve) refl

    serve-nothing :
        (hooks : Interceptors) (call_id : ℕ → ℕ) (fuel n : ℕ) (conn : ClientConn) (node : Node)
        → conn.key ≡ []
        → serve mode dial perform hooks call_id (suc fuel) n [] conn node ≡ (conn, node)
    unfolding serve
    serve-nothing hooks call_id fuel n conn node plain =
        let read : read_message_with_key mode conn.key [] ≡ failed (wire eof) =
          ap (λ k. read_message_with_key mode k []) plain ∙ read-nothing in
        rw (read, serve) refl

    serve-pending :
        (hooks : Interceptors) (call_id : ℕ → ℕ) (fuel n : ℕ) (reqs : List Request)
        (conn : ClientConn) (node : Node)
        → AreKeeping hooks
        → conn.key ≡ []
        → All Sendable reqs
        → length reqs < fuel
        → let after = (serve mode dial perform hooks call_id fuel n (stream reqs) conn node).0 in
          (replies : List Request) × (numbers replies ≡ numbers reqs)
          × (after.jobs ≡ conn.jobs ++ pending replies)
          × (after.key ≡ conn.key)
          × (after.closed ≡ conn.closed)
          × (after.out ≡ conn.out)
    serve-pending hooks call_id zero n reqs conn node kept plain fit enough = absurd (omega arith)
    serve-pending hooks call_id (suc fuel) n [] conn node kept plain fit enough =
        let done = ap (λ r. r.0) (serve-nothing hooks call_id fuel n conn node plain) in
        (
          [],
          refl,
          ap (λ c. c.jobs) done ∙ sym (append-nil conn.jobs),
          ap (λ c. c.key) done,
          ap (λ c. c.closed) done,
          ap (λ c. c.out) done,
        )
    serve-pending hooks call_id (suc fuel) n (req ∷ reqs) conn node kept plain (fits, fit) enough =
        let sized : Request = record req { size = length req.buff } in
        let after = handle_message mode dial perform hooks (call_id n) sized conn node in
        let (reply, cmd, seq, jobs, key, closed, out) =
          handle_message-AnswersOnce mode dial perform hooks (call_id n) sized conn node kept in
        let (replies, same, jobs', key', closed', out') =
          serve-pending hooks call_id fuel (n + 1) reqs after.0 after.1 kept (key ∙ plain) fit
            (omega arith) in
        let round =
          ap (λ r. r.0) (serve-frame hooks call_id fuel n req (stream reqs) conn node plain fits) in
        (
          reply ∷ replies,
          cc,
          ap (λ c. c.jobs) round
              ∙ jobs'
              ∙ ap (λ js. js ++ pending replies) jobs
              ∙ append_assoc conn.jobs ((reply, false) ∷ []) (pending replies),
          ap (λ c. c.key) round ∙ key' ∙ key,
          ap (λ c. c.closed) round ∙ closed' ∙ closed,
          ap (λ c. c.out) round ∙ out' ∙ out,
        )

    -- With SyncCall, for interceptors that leave what an answer is made of, an open connection
    -- without a key and without messages to write, messages that a client may send, and fuel above
    -- their number: in whatever order the pool writes what handleConn gave it, the connection gets
    -- whole messages, one behind the other, whose commands and numbers are those of the messages
    -- that were read, each once.
    pub serve-answers :
        (hooks : Interceptors) (call_id : ℕ → ℕ) (fuel n : ℕ) (reqs order : List Request)
        (conn : ClientConn) (node : Node)
        → AreKeeping hooks
        → conn.key ≡ []
        → conn.closed ≡ false
        → conn.jobs ≡ []
        → All Sendable reqs
        → length reqs < fuel
        → let after = (serve mode dial perform hooks call_id fuel n (stream reqs) conn node).0 in
          Perm (pending order) after.jobs
          → Perm (numbers order) (numbers reqs)
            × ((write_jobs mode (pending order) after).out ≡ conn.out ++ stream order)
    serve-answers hooks call_id fuel n reqs order conn node kept plain live idle fit enough p =
        let after = (serve mode dial perform hooks call_id fuel n (stream reqs) conn node).0 in
        let (replies, same, jobs, key, closed, out) =
          serve-pending hooks call_id fuel n reqs conn node kept plain fit enough in
        let made : after.jobs ≡ pending replies = jobs ∙ ap (λ js. js ++ pending replies) idle in
        let q = Perm.map (λ (job : Request × Bool). (job.0.cmd, job.0.seq)) p in
        (
          subst (λ ns. Perm ns (numbers reqs)) (numbers-pending order)
              (subst (Perm (map (λ (job : Request × Bool). (job.0.cmd, job.0.seq)) (pending order)))
                (ap (map (λ (job : Request × Bool). (job.0.cmd, job.0.seq))) made
                  ∙ numbers-pending replies
                  ∙ same)
                q),
          write_jobs-pending order after (key ∙ plain) (closed ∙ live)
              ∙ ap (λ o. o ++ stream order) out,
        )
