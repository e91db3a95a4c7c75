-- ===== src/Rpc/GoServer/Single.antt =====
-- ServeCodec of rpc/go_server.go beside ServeRequest, and the pools of requests and responses.
use goms.Base.{false, ℕ, suc, Bytes, none, some, List, [], ◌∷◌, ◌++◌, ◌≡◌, refl}
use goms.Rpc.Frame.{WireError}
use goms.Rpc.GoClient.{Codec}
use goms.Rpc.Services.{Server, count_call}
use goms.Rpc.Coder.{Request, Response}
use goms.Rpc.GoServer.{
  Incoming, broken, rejected, accepted, read_request, answer_call, refuse, serve_codec, Served,
  stopped, served, serve_request,
}

-- getRequest: the blank request that it gives, and the pool that it leaves.
abbrev blank_request : Request
blank_request = record { service_method = []; seq = 0; no_resp = false; conn = none; raw = 0 }

unfoldable pub get_request : List Request → Request × List Request
get_request [] = (blank_request, [])
get_request (req ∷ free) = (blank_request, free)

abbrev pub free_request : Request → List Request → List Request
free_request req free = req ∷ free

abbrev blank_response : Response
blank_response = record { service_method = []; seq = 0; error = []; ret = 0; raw = 0 }

unfoldable pub get_response : List Response → Response × List Response
get_response [] = (blank_response, [])
get_response (rsp ∷ free) = (blank_response, free)

abbrev pub free_response : Response → List Response → List Response
free_response rsp free = rsp ∷ free

-- Whatever was put back, the next request is blank, and the pool is as before.
pub get_request-free_request :
    (req : Request) (free : List Request)
    → get_request (free_request req free) ≡ ((get_request []).0, free)
unfolding get_request
get_request-free_request req free = refl

pub get_response-free_response :
    (rsp : Response) (free : List Response)
    → get_response (free_response rsp free) ≡ ((get_response []).0, free)
unfolding get_response
get_response-free_response rsp free = refl

module _ {M : Type 0} (codec : Codec M) (null : M) (text_of : WireError → Bytes) where
  -- A round of ServeCodec does what ServeRequest does, and goes on where the reader stands unless the
  -- connection broke.
  pub serve_codec-serve_request :
      (fuel : ℕ) (s : Bytes) (server : Server M)
      → serve_codec codec null text_of (suc fuel) s server
        ≡ elim (serve_request codec null text_of s server) [
          | stopped e ↦ ([], server)
          | served error out after rest ↦
              let (more, end) = serve_codec codec null text_of fuel rest after in (out ++ more, end)
        ]
  unfolding serve_codec serve_request
  serve_codec-serve_request fuel s server = by_request (read_request codec null text_of server s)
    where
      by_request :
          (r : Incoming M)
          → Path
              (List Bytes × Server M)
              (elim r [
                | broken e ↦ ([], server)
                | rejected req text rest ↦
                    let (out, after) = serve_codec codec null text_of fuel rest server in
                    (refuse codec null text_of req text ++ out, after)
                | accepted req m arg rest ↦
                    let (out, after) =
                      serve_codec codec null text_of fuel rest
                        (count_call req.service_method server) in
                    (answer_call codec null text_of req (m.function req.conn arg) ++ out, after)
              ])
              (let one : Served codec null text_of = elim r [
                | broken e ↦ stopped e
                | rejected req text rest ↦
                    served (some text) (refuse codec null text_of req text) server rest
                | accepted req m arg rest ↦
                    served none
                      (answer_call codec null text_of req (m.function req.conn arg))
                      (count_call req.service_method server)
                      rest
              ] in
                elim one [
                  | stopped e ↦ ([], server)
                  | served error out after rest ↦
                      let (more, end) = serve_codec codec null text_of fuel rest after in
                      (out ++ more, end)
                ])
      by_request (broken e) = refl
      by_request (rejected req text rest) = refl
      by_request (accepted req m arg rest) = refl
