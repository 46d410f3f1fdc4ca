-- ===== src/Host/Connection/Requests.antt =====
-- A run of requests on one connection of src/connection.rs: the frames that they leave on the wire.
use js_sidecar.Prelude.{
  ℕ, ◌+◌, ◌<◌, ◌^◌, ◌≡◌, refl, sym, ◌∙◌, Bool, false, ◌||◌, List, [], ◌∷◌, ◌++◌, append_assoc,
  append-nil, length, All, arith,
}
use js_sidecar.Prelude.Outcome.{
  Outcome, ok, err, panicked, pending, spent, Call, pure, map_err, after, ◌>>◌,
}
use js_sidecar.Frame.{Frame, IsEncodable, encode, stream}
use js_sidecar.Host.Messages.{RunScriptArgs}
use js_sidecar.Host.Libs.{Libs, Profile, WritesWords, WritesAll}
use js_sidecar.Host.Error.{Error, write_stream}
use js_sidecar.Host.Protocol.{host_message_type}
use js_sidecar.Host.Protocol.Write.{frame_of, write_to_ok, map_err_ok, to_vec_of_serialize}
use js_sidecar.Host.Connection.{Connection, run_script, ping}
use js_sidecar.Host.Connection.Send.{
  HasIds, ids_taken, sent_args, script_message, ping_message, script_frame-IsEncodable,
  ping_frame-IsEncodable, run_script_lem, run_script-encode, ping-encode,
}

pub data Request (V : Type 0) : Type 0 where
  scripts : RunScriptArgs V → Request V
  pings : Request V

module _ (lib : Libs) (p : Profile) where
  unfoldable pub request : Request lib.Value → Call (Connection lib) (Error lib) (Unit {0})
  request (scripts args) = run_script lib p args
  request pings = do ping lib p; pure tt

  -- Requests one after the other, up to the first that fails.
  unfoldable pub request_all :
      List (Request lib.Value) → Call (Connection lib) (Error lib) (Unit {0})
  request_all [] = pure tt
  request_all (r ∷ rs) = do request r; request_all rs

-- Whether a new context is still forced after the request.
abbrev pub still_marked : {V : Type 0} → Bool → Request V → Bool
still_marked b (scripts args) = false
still_marked b pings = b

module _ (lib : Libs) where
  -- The JSON of a script fits the length word, whichever way the context flag is set.
  abbrev pub Fits : Request lib.Value → Type 0
  Fits (scripts args) =
      (b : Bool) (body : List ℕ)
      → lib.to_vec (record args { recreate_context = b }) ≡ ok body
      → length body + 12 < 2 ^ 32
  Fits pings = Unit

  -- `f` is the frame of the request, where `b` says whether a new context is forced.
  abbrev pub Carries : Bool → Request lib.Value → Frame → Type 0
  Carries b (scripts args) f =
      (f.message_type ≡ 0)
      × (lib.to_vec (record args { recreate_context = b || args.recreate_context }) ≡ ok f.body)
  Carries b pings f = (f.message_type ≡ 1) × (f.body ≡ [])

  -- The frames of the requests in order, with consecutive IDs from `n` and `k` on.
  abbrev pub CarriesAll : Bool → ℕ → ℕ → List (Request lib.Value) → List Frame → Type 0
  CarriesAll b n k [] [] = Unit
  CarriesAll b n k [] (f ∷ fs) = ⊥
  CarriesAll b n k (r ∷ rs) [] = ⊥
  CarriesAll b n k (r ∷ rs) (f ∷ fs) =
      (f.request_id ≡ n)
      × (f.message_id ≡ k)
      × Carries b r f
      × CarriesAll (still_marked b r) (n + 1) (k + 1) rs fs

module _ (lib : Libs) (p : Profile) (words : WritesWords lib) (written : lib.Writer → List ℕ)
    (writes : WritesAll lib written) where
  -- A `ping` whose value is dropped succeeds if its write does.
  ping_written :
      (o : Outcome lib.IoError (Unit {0})) (n : ℕ) (c : Connection lib)
      → (let (r, c') = after {E = Error lib} (map_err write_stream o) (λ _. pure n) c in
          after {B = Unit {0}} r (λ _. pure tt) c').0
        ≡ ok tt
      → o ≡ ok tt
  ping_written (ok tt) n c h = refl
  ping_written (err e) n c h = cc
  ping_written panicked n c h = cc
  ping_written pending n c h = cc
  ping_written spent n c h = cc

  -- One request that succeeds.
  record Sent (c c' : Connection lib) (r : Request lib.Value) : Type 0 where
    frame : Frame
    encodable : IsEncodable frame
    request_id : frame.request_id ≡ c.next_req_id
    message_id : frame.message_id ≡ c.next_id
    carries : Carries lib c.recreate_context_on_next r frame
    on_wire : written c'.stream ≡ written c.stream ++ encode frame
    next_request : c'.next_req_id ≡ c.next_req_id + 1
    next_message : c'.next_id ≡ c.next_id + 1
    mark : c'.recreate_context_on_next ≡ still_marked c.recreate_context_on_next r

  script-Sent :
      (args : RunScriptArgs lib.Value) (c : Connection lib) (body : List ℕ)
      → HasIds c
      → Fits lib (scripts args)
      → lib.to_vec (sent_args c args) ≡ ok body
      → (run_script lib p args c).0 ≡ ok tt
      → Sent c (run_script lib p args c).1 (scripts args)
  unfolding host_message_type
  script-Sent args c body v fits e h = rw run (record {
    frame = frame_of (script_message c args) body;
    encodable = script_frame-IsEncodable c args body v small;
    request_id = refl;
    message_id = refl;
    carries = (refl, e);
    on_wire = writes.writes _ c.stream (map_err_ok lib write_stream _ tt (rw run at h));
    next_request = refl;
    next_message = refl;
    mark = refl;
  })
    where
      small : length body + 12 < 2 ^ 32
      small = fits (c.recreate_context_on_next || args.recreate_context) body e

      run : run_script lib p args c ≡ (
          let (r, w) = lib.write_all (encode (frame_of (script_message c args) body)) c.stream in
          (
            map_err write_stream r,
            record (ids_taken c) { stream = w; recreate_context_on_next = false },
          ))
      run = run_script-encode lib p words c args body v e small

  request-Sent :
      (r : Request lib.Value) (c : Connection lib)
      → HasIds c
      → Fits lib r
      → (request lib p r c).0 ≡ ok tt
      → Sent c (request lib p r c).1 r
  unfolding request host_message_type
  request-Sent (scripts args) c v fits h =
      let (body, serialized) =
        write_to_ok lib (script_message c args) c.stream
          (rw (run_script_lem lib p c args v) at h) in
      script-Sent args c body v fits (to_vec_of_serialize lib (sent_args c args) body serialized) h
  request-Sent pings c v fits h =
      rw (run, done)
        (record {
          frame = frame_of (ping_message c) [];
          encodable = ping_frame-IsEncodable c v;
          request_id = refl;
          message_id = refl;
          carries = (refl, refl);
          on_wire = writes.writes _ c.stream done;
          next_request = refl;
          next_message = refl;
          mark = refl;
        })
    where
      run : ping lib p c ≡ (
          let (r, w) = lib.write_all (encode (frame_of (ping_message c) [])) c.stream in
          after
            (map_err write_stream r)
            (λ _. pure c.next_req_id)
            (record (ids_taken c) { stream = w }))
      run = ping-encode lib p words c v

      done : (lib.write_all (encode (frame_of (ping_message c) [])) c.stream).0 ≡ ok tt
      done = ping_written _ c.next_req_id _ (rw run at h)

  first_ok :
      (o : Outcome (Error lib) (Unit {0})) (k : Call (Connection lib) (Error lib) (Unit {0}))
      (c : Connection lib)
      → (after o (λ _. k) c).0 ≡ ok tt
      → o ≡ ok tt
  first_ok (ok x) k c h = refl
  first_ok (err e) k c h = cc
  first_ok panicked k c h = cc
  first_ok pending k c h = cc
  first_ok spent k c h = cc

  -- The wire after the requests: what was there, and well-formed frames that carry them.
  abbrev pub Framed : List (Request lib.Value) → Connection lib → Type 0
  Framed rs c =
      (fs : List Frame) × All IsEncodable fs
      × CarriesAll lib c.recreate_context_on_next c.next_req_id c.next_id rs fs
      × (written (request_all lib p rs c).1.stream ≡ written c.stream ++ stream fs)

  Framed-cons :
      (r : Request lib.Value) (rs : List (Request lib.Value)) (c : Connection lib)
      → (request lib p r c).0 ≡ ok tt
      → Sent c (request lib p r c).1 r
      → Framed rs (request lib p r c).1
      → Framed (r ∷ rs) c
  unfolding request_all
  Framed-cons r rs c done sent (fs, encodable, carried, on_wire) = (
    sent.frame ∷ fs,
    (sent.encodable, encodable),
    (
      sent.request_id,
      sent.message_id,
      sent.carries,
      rw (sent.mark, sent.next_request, sent.next_message) at carried,
    ),
    rw done (on_wire ∙ rw (sent.on_wire, append_assoc)),
  )

  -- If requests on a connection all succeed, what is on the wire is one well-formed frame for each of
  -- them, in order and with consecutive request and message IDs. A script carries its arguments, and
  -- the first script after the connection was recycled asks for a new context.
  pub request_all-Framed :
      (rs : List (Request lib.Value)) (c : Connection lib)
      → c.next_req_id + length rs < 2 ^ 32
      → c.next_id + length rs < 2 ^ 32
      → All (Fits lib) rs
      → (request_all lib p rs c).0 ≡ ok tt
      → Framed rs c
  unfolding request_all
  request_all-Framed [] c hr hm fits h = ([], tt, tt, sym (append-nil (written c.stream)))
  request_all-Framed (r ∷ rs) c hr hm fits h =
      let done : (request lib p r c).0 ≡ ok tt = first_ok _ (request_all lib p rs) _ h in
      let sent : Sent c (request lib p r c).1 r = request-Sent r c (omega arith) fits.0 done in
      Framed-cons r rs c done sent (
        request_all-Framed rs (request lib p r c).1 (omega (arith, sent.next_request))
          (omega (arith, sent.next_message)) fits.1 (rw done at h))
