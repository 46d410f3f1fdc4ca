-- ===== src/Link/ToWorker.antt =====
-- From `Connection` of src/connection.rs to `Protocol.handleData` of src/worker/src/protocol.ts.
use mathlib.Core.List.{flatten}
use js_sidecar.Prelude.{ℕ, ◌+◌, ◌<◌, ◌^◌, ◌≡◌, ap, ◌∙◌, List, [], ◌++◌, map, length, All}
use js_sidecar.Prelude.Outcome.{ok}
use js_sidecar.Frame.{Frame, stream}
use js_sidecar.Host.Libs.{Libs, Profile, WritesWords, WritesAll}
use js_sidecar.Host.Connection.{Connection}
use js_sidecar.Host.Connection.Requests.{Request, request_all, Fits, CarriesAll, request_all-Framed}
use js_sidecar.Worker.Protocol.{fresh, returned, handle_chunks}
use js_sidecar.Worker.Protocol.Frames.{received, handle_chunks-stream}

module _ (lib : Libs) (p : Profile) (words : WritesWords lib) (written : lib.Writer → List ℕ)
    (writes : WritesAll lib written) where
  -- If requests on a new socket all succeed, then however the bytes that they wrote are cut on the
  -- way, the worker emits one message for each request, in order, with consecutive request and
  -- message IDs, the type of the request and its data, and is left waiting for a new message.
  pub handle_chunks-request_all :
      (rs : List (Request lib.Value)) (c : Connection lib) (chunks : List (List ℕ))
      → c.next_req_id + length rs < 2 ^ 32
      → c.next_id + length rs < 2 ^ 32
      → All (Fits lib) rs
      → written c.stream ≡ []
      → (request_all lib p rs c).0 ≡ ok tt
      → flatten chunks ≡ written (request_all lib p rs c).1.stream
      → (fs : List Frame) × CarriesAll lib c.recreate_context_on_next c.next_req_id c.next_id rs fs
        × (handle_chunks fresh chunks
            ≡ record { incoming = fresh; emitted = map received fs; status = returned })
  handle_chunks-request_all rs c chunks hr hm fits new done cut =
      let (fs, v, carried, wire) =
        request_all-Framed lib p words written writes rs c hr hm fits done in
      (fs, carried, handle_chunks-stream fs chunks v (cut ∙ wire ∙ ap (λ b. b ++ stream fs) new))
