-- ===== src/Rpc/GoServer/Pool.antt =====
-- ServeCodec of rpc/go_server.go with its goroutines. The reading loop refuses a request itself and
-- submits a call to the pool, which runs the calls in any order; a codec's lock keeps each response
-- whole.
pub mod Ends
use mathlib.Core.List.{Perm, perm_append_comm}
use mathlib.Core.List.Perm
use goms.Base.{
  ℕ, suc, Bytes, bytes_Eq, List, [], ◌∷◌, ◌++◌, append_assoc, append-nil, All, length,
  length-append, ◌≡◌, refl, sym, subst, ap, arith, ◌∙◌,
}
use goms.Rpc.Frame.{WireError}
use goms.Rpc.GoClient.{Codec}
use goms.Rpc.Coder.{Request}
use goms.Rpc.Services.{
  MethodType, Server, Found, found, refused, find_method, find_remote, count_call,
}
use goms.Rpc.GoServer.{rejected, accepted, read_request, answer_call, refuse, serve_codec}
use goms.Rpc.GoServer.RoundTrip.{incoming}
use goms.Rpc.Coder.Exchange.{received}
use goms.Rpc.GoServer.Answers.{
  Sent, stream, wanted, answers, IsSent, IsAnswerable, serve_codec-in_order, read_request-sent,
}

-- `left` is how many requests are still read, `jobs` what each submitted call will write, and
-- `written` the responses on the connection.
pub record Serving (M : Type 0) : Type 0 where
  pub left : ℕ
  pub rest : Bytes
  pub server : Server M
  pub jobs : List (List Bytes)
  pub written : List Bytes

abbrev pub begin : {M : Type 0} → ℕ → Bytes → Server M → Serving M
begin n s server = record { left = n; rest = s; server = server; jobs = []; written = [] }

abbrev pub joined : List (List Bytes) → List Bytes
joined [] = []
joined (job ∷ jobs) = job ++ joined jobs

joined-append : (xs ys : List (List Bytes)) → joined (xs ++ ys) ≡ joined xs ++ joined ys
joined-append [] ys = refl
joined-append (x ∷ xs) ys = rw (joined-append xs ys) (sym (append_assoc x (joined xs) (joined ys)))

-- What is on the connection may go before what the calls still write.
moved : (a b c d : List Bytes) → Perm (a ++ (b ++ (c ++ d))) ((a ++ c) ++ (b ++ d))
moved a b c d =
    subst (λ l. Perm (a ++ (b ++ (c ++ d))) l) (sym (append_assoc a c (b ++ d)))
      (Perm.append_left a (
        subst (λ l. Perm (b ++ (c ++ d)) l) (append_assoc c b d)
          (subst (λ l. Perm l ((c ++ b) ++ d)) (append_assoc b c d)
            (Perm.append_right d (perm_append_comm b c)))))

-- The same responses, in any order.
abbrev pub Rearranges : List Bytes → List Bytes → Type 0
Rearranges xs ys = Perm xs ys × (length xs ≡ length ys)

moved-Rearranges : (a b c d : List Bytes) → Rearranges (a ++ (b ++ (c ++ d))) ((a ++ c) ++ (b ++ d))
moved-Rearranges a b c d = (
  moved a b c d,
  omega (
    arith,
    length-append a (b ++ (c ++ d)),
    length-append b (c ++ d),
    length-append c d,
    length-append (a ++ c) (b ++ d),
    length-append a c,
    length-append b d,
  ),
)

-- One more call that was submitted, behind the others.
joined-last :
    (a : List Bytes) (jobs : List (List Bytes)) (job rest : List Bytes)
    → a ++ (joined jobs ++ (job ++ rest)) ≡ a ++ (joined (jobs ++ job ∷ []) ++ rest)
joined-last a jobs job rest =
    ap (λ l. a ++ l)
      (sym (append_assoc (joined jobs) job rest)
        ∙ ap (λ l. (joined jobs ++ l) ++ rest) (sym (append-nil job))
        ∙ ap (λ l. l ++ rest) (sym (joined-append jobs (job ∷ []))))

-- One of the calls that were submitted, out of their middle.
joined-middle :
    (a : List Bytes) (before after : List (List Bytes)) (job rest : List Bytes)
    → Rearranges
        (a ++ (joined (before ++ job ∷ after) ++ rest))
        ((a ++ job) ++ (joined (before ++ after) ++ rest))
joined-middle a before after job rest =
    subst (λ l. Rearranges (a ++ l) ((a ++ job) ++ (joined (before ++ after) ++ rest)))
      (sym (
        ap (λ l. l ++ rest) (joined-append before (job ∷ after))
        ∙ append_assoc (joined before) (job ++ joined after) rest
        ∙ ap (λ l. joined before ++ l) (append_assoc job (joined after) rest)))
      (subst
        (λ l.
          Rearranges (a ++ (joined before ++ (job ++ (joined after ++ rest)))) ((a ++ job) ++ l))
        (sym (
          ap (λ l. l ++ rest) (joined-append before after)
          ∙ append_assoc (joined before) (joined after) rest))
        (moved-Rearranges a (joined before) job (joined after ++ rest)))

module _ {M : Type 0} (codec : Codec M) (null : M) (text_of : WireError → Bytes) where
  pub data Step (s t : Serving M) : Type 0 where
    refuses :
        (n : ℕ) (req : Request) (text rest : Bytes)
        → s.left ≡ suc n
        → read_request codec null text_of s.server s.rest ≡ rejected req text rest
        → t ≡ record s {
          left = n;
          rest = rest;
          written = s.written ++ refuse codec null text_of req text;
        }
        → Step s t
    submits :
        (n : ℕ) (req : Request) (m : MethodType M) (arg : M) (rest : Bytes)
        → s.left ≡ suc n
        → read_request codec null text_of s.server s.rest ≡ accepted req m arg rest
        → t ≡ record s {
          left = n;
          rest = rest;
          server = count_call req.service_method s.server;
          jobs = s.jobs ++ answer_call codec null text_of req (m.function req.conn arg) ∷ [];
        }
        → Step s t
    finishes :
        (before after : List (List Bytes)) (job : List Bytes)
        → s.jobs ≡ before ++ job ∷ after
        → t ≡ record s { jobs = before ++ after; written = s.written ++ job }
        → Step s t

  pub data Reach (s : Serving M) : Serving M → Type 0 where
    at_start : Reach s s
    goes_on : {t u : Serving M} → Reach s t → Step t u → Reach s u

  -- What is written and what is still to be written, the requests that are not read included.
  abbrev all_of : Serving M → List Bytes
  all_of s =
      s.written ++ (joined s.jobs ++ (serve_codec codec null text_of s.left s.rest s.server).0)

  Step-all_of : {s t : Serving M} → Step s t → Rearranges (all_of s) (all_of t)
  unfolding serve_codec
  Step-all_of {s} {t} (refuses n req text rest l r e) =
      subst (λ u. Rearranges (all_of s) (all_of u)) (sym e)
        (rw (l, serve_codec, r)
          (moved-Rearranges s.written (joined s.jobs) (refuse codec null text_of req text)
            (serve_codec codec null text_of n rest s.server).0))
  Step-all_of {s} {t} (submits n req m arg rest l r e) =
      let job = answer_call codec null text_of req (m.function req.conn arg) in
      let more =
        (serve_codec codec null text_of n rest (count_call req.service_method s.server)).0 in
      subst (λ u. Rearranges (all_of s) (all_of u)) (sym e)
        (rw (l, serve_codec, r)
          (subst (λ l. Rearranges (s.written ++ (joined s.jobs ++ (job ++ more))) l)
            (joined-last s.written s.jobs job more)
            (Perm.refl (s.written ++ (joined s.jobs ++ (job ++ more))), refl)))
  Step-all_of {s} {t} (finishes before after job j e) =
      subst (λ u. Rearranges (all_of s) (all_of u)) (sym e)
        (rw j (
          joined-middle s.written before after job
            (serve_codec codec null text_of s.left s.rest s.server).0))

  Reach-all_of : {s t : Serving M} → Reach s t → Rearranges (all_of s) (all_of t)
  Reach-all_of {s} at_start = (Perm.refl (all_of s), refl)
  Reach-all_of (goes_on r st) =
      let (p, l) = Reach-all_of r in let (q, k) = Step-all_of st in (Perm.trans p q, l ∙ k)

  -- For any number of requests on one connection that are encoded below the frame limit with the
  -- protobuf encoding and whose answers can be encoded, and any run of ServeCodec in which all of
  -- them were read and all submitted calls have ended, in whatever order: what was written is the
  -- answers of the requests by what each method returned, rearranged, and as many as there are
  -- requests that want one.
  pub serve_codec-answers :
      (server : Server M) (xs : List (Sent M)) (t : Serving M)
      → All (IsSent codec null text_of server) xs
      → All (IsAnswerable codec null text_of server) xs
      → Reach (begin (length xs) (stream xs) server) t
      → t.left ≡ 0
      → t.jobs ≡ []
      → Perm (answers codec null text_of server xs) t.written × (length t.written ≡ wanted xs)
  unfolding serve_codec
  serve_codec-answers server xs t h a run read idle =
      let (p, l) = Reach-all_of run in
      let (e, n) = serve_codec-in_order codec null text_of server xs h a in
      let start = (serve_codec codec null text_of (length xs) (stream xs) server).0 in
      let end : all_of t ≡ t.written = rw (read, idle) (append-nil t.written) in
      (
        subst (λ ys. Perm ys t.written) e (subst (λ ys. Perm start ys) end p),
        ap length (sym end) ∙ sym l ∙ n,
      )
