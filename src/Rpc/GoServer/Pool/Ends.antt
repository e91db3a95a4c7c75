-- ===== src/Rpc/GoServer/Pool/Ends.antt =====
-- ServeCodec of rpc/go_server.go reads every request, and its calls end.

use goms.Base.{ℕ, suc, Bytes, bytes_Eq, List, [], ◌∷◌, ◌++◌, All, length, ◌≡◌, refl, ap, ◌∙◌}
use goms.Rpc.Frame.{WireError}
use goms.Rpc.GoClient.{Codec}
use goms.Rpc.Coder.{Request}
use goms.Rpc.Services.{Server, Found, found, refused, find_method, find_remote}
use goms.Rpc.GoServer.{read_request}
use goms.Rpc.GoServer.RoundTrip.{incoming}
use goms.Rpc.Coder.Exchange.{received}
use goms.Rpc.GoServer.Answers.{Sent, stream, IsSent, read_request-sent}
use goms.Rpc.GoServer.Pool.{
  Serving, begin, Step, refuses, submits, finishes, Reach, at_start, goes_on,
}

module _ {M : Type 0} (codec : Codec M) (null : M) (text_of : WireError → Bytes) where
  Reach-trans :
      {s t u : Serving M}
      → Reach codec null text_of s t
      → Reach codec null text_of t u
      → Reach codec null text_of s u
  Reach-trans r at_start = r
  Reach-trans r (goes_on q st) = goes_on (Reach-trans r q) st

  -- A request that can be read is a step of the loop.
  one_read :
      (s : Serving M) (n : ℕ) (req : Request) (arg : M) (f : Found M) (rest : Bytes)
      → s.left ≡ suc n
      → read_request codec null text_of s.server s.rest ≡ incoming codec null text_of req arg f rest
      → (t : Serving M) × Step codec null text_of s t
        × (t.left ≡ n)
        × (t.rest ≡ rest)
        × ((name : Bytes) → find_remote name t.server ≡ find_remote name s.server)
  unfolding find_remote find_method
  one_read s n req arg (refused text) rest l r =
      (_, refuses n req text rest l r refl, refl, refl, λ name. refl)
  one_read s n req arg (found m) rest l r =
      (_, submits n req m arg rest l r refl, refl, refl, λ name. refl)

  reading_ends :
      (base : Server M) (xs : List (Sent M)) (s : Serving M)
      → s.left ≡ length xs
      → s.rest ≡ stream xs
      → ((name : Bytes) → find_remote name s.server ≡ find_remote name base)
      → All (IsSent codec null text_of base) xs
      → (t : Serving M) × Reach codec null text_of s t × (t.left ≡ 0)
  reading_ends base [] s l r same h = (s, at_start, l)
  reading_ends base (x ∷ xs) s l r same (first, h) =
      let read =
        ap (read_request codec null text_of s.server) r
        ∙ read_request-sent codec null text_of base s.server x (stream xs) same first in
      let (u, st, left, rest, kept) =
        one_read s (length xs) (received x.req) x.arg (find_remote x.req.service_method base)
          (stream xs) l read in
      let (t, run, end) = reading_ends base xs u left rest (λ name. kept name ∙ same name) h in
      (t, Reach-trans (goes_on at_start st) run, end)

  calls_end :
      (jobs : List (List Bytes)) (s : Serving M)
      → s.jobs ≡ jobs
      → (t : Serving M) × Reach codec null text_of s t × (t.left ≡ s.left) × (t.jobs ≡ [])
  calls_end [] s e = (s, at_start, refl, e)
  calls_end (job ∷ jobs) s e =
      let u : Serving M = record s { jobs = jobs; written = s.written ++ job } in
      let (t, run, left, idle) = calls_end jobs u refl in
      (t, Reach-trans (goes_on at_start (finishes [] jobs job e refl)) run, left, idle)

  -- For requests that are encoded below the frame limit with the protobuf encoding there is a run of
  -- ServeCodec in which all of them are read and all submitted calls end.
  serve_codec-ends :
      (server : Server M) (xs : List (Sent M))
      → All (IsSent codec null text_of server) xs
      → (t : Serving M) × Reach codec null text_of (begin (length xs) (stream xs) server) t
        × (t.left ≡ 0)
        × (t.jobs ≡ [])
  serve_codec-ends server xs h =
      let (u, read, end) =
        reading_ends server xs (begin (length xs) (stream xs) server) refl refl (λ name. refl) h in
      let (t, run, left, idle) = calls_end u.jobs u refl in
      (t, Reach-trans read run, left ∙ end, idle)
