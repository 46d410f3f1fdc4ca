-- ===== src/Host/Protocol/Errors.antt =====
-- `read_from` and `parse_data` of src/protocol.rs on input that is cut, malformed or unknown.
use js_sidecar.Prelude.{
  ℕ, ◌+◌, ◌-◌, ◌≤◌, ◌<◌, ◌≡◌, ◌⊎◌, append-nil, ◌^◌, ◌%◌, sym, ap, ◌∙◌, List, [], ◌++◌, length,
  length-append, length-drop, take, take-append_le, arith, lt→ltb,
}
use native.Mathlib.Decide.{dec_lt}
use js_sidecar.Prelude.Outcome.{Outcome, ok, err, panicked, pending, spent}
use js_sidecar.Bytes.{u32_mod, u32_at}
use js_sidecar.Frame.{Frame, IsEncodable, encode}
use js_sidecar.Host.Messages.{WorkerToHostMessageData, run_response, log, error}
use js_sidecar.Host.Libs.{Libs, Profile, debug, release, ReadsExactly}
use js_sidecar.Host.Error.{Error, read_stream, invalid_message_type}
use js_sidecar.Host.Protocol.{payload_length, parse_data, read_from, worker_message_type, parsed}
use js_sidecar.Host.Protocol.Read.{
  header16, header_words, payload_length-body, take-encode, length-encode,
}

module _ (lib : Libs) where
  parsed-cases :
      {D : Type 0} (c : D → WorkerToHostMessageData lib.Value) (o : Outcome lib.JsonError D)
      (d : WorkerToHostMessageData lib.Value)
      → parsed lib c o ≡ ok d
      → (x : D) × (d ≡ c x)
  parsed-cases c (ok x) d e = (x, cc)
  parsed-cases c (err x) d e = cc
  parsed-cases c panicked d e = cc
  parsed-cases c pending d e = cc
  parsed-cases c spent d e = cc

  -- What was parsed has the message type that it was parsed under.
  pub message_type-parse_data :
      (t : ℕ) (buffer : List ℕ) (d : WorkerToHostMessageData lib.Value)
      → parse_data lib t buffer ≡ ok d
      → worker_message_type d ≡ t
  unfolding parse_data worker_message_type
  message_type-parse_data t buffer d e = ground (
    arith,
    parsed-cases run_response (lib.run_response_from_slice buffer) d,
    parsed-cases log (lib.log_from_slice buffer) d,
    parsed-cases error (lib.error_from_slice buffer) d,
  )

  -- A type outside 0x1000 to 0x1003 is refused whatever the data is, with the type in the error.
  pub parse_data_unknown :
      (t : ℕ) (buffer : List ℕ)
      → (t < 0x1000) ⊎ (0x1003 < t)
      → parse_data lib t buffer ≡ err (invalid_message_type t)
  unfolding parse_data worker_message_type
  parse_data_unknown t buffer h = ground arith

module _ (lib : Libs) (unread : lib.Reader → List ℕ) (reads : ReadsExactly lib unread) where
  pub no_header :
      (p : Profile) (r : lib.Reader)
      → length (unread r) < 16
      → (e : lib.IoError) × ((read_from lib p r).0 ≡ err (read_stream e))
  unfolding read_from
  no_header p r h = let (e, q) = reads.at_end 16 r h in (e, rw q)

  -- On input that ends inside a frame `read_from` returns a read error, in both builds.
  pub read_from_cut :
      (p : Profile) (f : Frame) (more : List ℕ) (r : lib.Reader)
      → IsEncodable f
      → unread r ++ more ≡ encode f
      → 0 < length more
      → (e : lib.IoError) × ((read_from lib p r).0 ≡ err (read_stream e))
  unfolding read_from
  read_from_cut p f more r v cut m = elim (dec_lt (length (unread r)) 16) [
    | yes short ↦ no_header p r short
    | no long ↦
        let (e, q) =
          reads.at_end (length f.body) (lib.read_exact 16 r).1 (rest_short (omega arith)) in
        (
          e,
          rw (
            header (omega arith),
            (header_words f v).0,
            payload_length-body f v {E = Error lib} p,
            q,
          ),
        )
  ]
    where
      whole : unread r ++ more ≡ encode f ++ []
      whole = cut ∙ sym (append-nil (encode f))

      header : 16 ≤ length (unread r) → (lib.read_exact 16 r).0 ≡ ok (header16 f)
      header h =
          reads.filled 16 r h
          ∙ ap ok
              (sym (take-append_le 16 (unread r) more h) ∙ ap (take 16) whole ∙ take-encode f [])

      rest_short : 16 ≤ length (unread r) → length (unread (lib.read_exact 16 r).1) < length f.body
      rest_short h =
          rw (reads.moved 16 r h, length-drop 16 (unread r))
            (omega (arith, length-append (unread r) more, ap length whole, length-encode f []))

  -- A frame whose length word is below 12, the length of the rest of its header: `length - 12` on a
  -- u32 panics in a debug build. In a release build it wraps, and `read_from` asks for almost 4 GiB,
  -- which is a read error unless the worker sends that much.
  pub read_from_underflow :
      (r : lib.Reader)
      → 16 ≤ length (unread r)
      → u32_at (take 16 (unread r)) 0 < 12
      → length (unread r) < 2 ^ 32
      → ((read_from lib debug r).0 ≡ panicked)
        × ((e : lib.IoError) × ((read_from lib release r).0 ≡ err (read_stream e)))
  unfolding read_from payload_length
  read_from_underflow r h small few =
      let (e, q) = reads.at_end wrapped (lib.read_exact 16 r).1 too_many in
      (rw (reads.filled 16 r h, lt→ltb _ 12 small), (e, rw (reads.filled 16 r h) (rw q)))
    where
      wrapped : ℕ
      wrapped = (u32_at (take 16 (unread r)) 0 + u32_mod - 12) % u32_mod

      too_many : length (unread (lib.read_exact 16 r).1) < wrapped
      too_many = rw (reads.moved 16 r h, length-drop 16 (unread r)) (omega arith)
