-- ===== src/Host/Protocol/Read.antt =====
-- What `read_from` of src/protocol.rs makes of well-formed frames, and of input that is cut.
use js_sidecar.Prelude.{
  ℕ, ◌+◌, ◌≤◌, ◌≡◌, refl, ap, ◌∙◌, List, ◌++◌, length, length-append, take, drop, take-append,
  drop-append, arith,
}
use js_sidecar.Prelude.Outcome.{Outcome, ok, err, panicked, pending, spent, pure, after}
use js_sidecar.Bytes.{to_le_bytes, u32_at}
use js_sidecar.Frame.{Frame, IsEncodable, encode}
use js_sidecar.Host.Messages.{WorkerToHostMessageData, WorkerToHostMessage}
use js_sidecar.Host.Libs.{Libs, Profile, debug, release, ReadsExactly}
use js_sidecar.Host.Error.{Error}
use js_sidecar.Host.Protocol.{payload_length, parse_data, read_from}

-- A message from its parts, when the data has been parsed.
abbrev pub with_content :
    {lib : Libs}
    → Frame
    → Outcome (Error lib) (WorkerToHostMessageData lib.Value)
    → Outcome (Error lib) (WorkerToHostMessage lib.Value)
with_content f (ok d) =
    ok (record { request_id = f.request_id; message_id = f.message_id; content = d })
with_content f (err e) = err e
with_content f panicked = panicked
with_content f pending = pending
with_content f spent = spent

abbrev pub header16 : Frame → List ℕ
unfolding to_le_bytes
header16 f =
    to_le_bytes (length f.body + 12)
    ++ (to_le_bytes f.request_id ++ (to_le_bytes f.message_id ++ to_le_bytes f.message_type))

module _ (f : Frame) (v : IsEncodable f) where
  pub header_words :
      (u32_at (header16 f) 0 ≡ length f.body + 12)
      × (u32_at (header16 f) 4 ≡ f.request_id)
      × (u32_at (header16 f) 8 ≡ f.message_id)
      × (u32_at (header16 f) 12 ≡ f.message_type)
  unfolding header16 to_le_bytes u32_at
  header_words = omega (arith, v.length_fits, v.request_fits, v.message_fits, v.type_fits)

  pub payload_length-body :
      {E : Type 0} (p : Profile)
      → payload_length {E = E} p (length f.body + 12) ≡ ok (length f.body)
  unfolding payload_length
  payload_length-body debug = ground arith
  payload_length-body release = ground (arith, v.length_fits)

pub take-encode : (f : Frame) (rest : List ℕ) → take 16 (encode f ++ rest) ≡ header16 f
unfolding encode header16 to_le_bytes
take-encode f rest = refl

drop-encode : (f : Frame) (rest : List ℕ) → drop 16 (encode f ++ rest) ≡ f.body ++ rest
unfolding encode
drop-encode f rest = refl

pub length-encode :
    (f : Frame) (rest : List ℕ) → length (encode f ++ rest) ≡ length f.body + length rest + 16
unfolding encode
length-encode f rest = omega (arith, length-append f.body rest)

module _ (lib : Libs) (unread : lib.Reader → List ℕ) (reads : ReadsExactly lib unread) where
  -- The call that reads the header, and the call that reads the data.
  module _ (f : Frame) (rest : List ℕ) (r : lib.Reader) (waits : unread r ≡ encode f ++ rest) where
    header_there : 16 ≤ length (unread r)
    header_there = rw (waits, length-encode f rest) (omega arith)

    read_header : (lib.read_exact 16 r).0 ≡ ok (header16 f)
    read_header = reads.filled 16 r header_there ∙ ap ok (ap (take 16) waits ∙ take-encode f rest)

    unread_body : unread (lib.read_exact 16 r).1 ≡ f.body ++ rest
    unread_body = reads.moved 16 r header_there ∙ ap (drop 16) waits ∙ drop-encode f rest

    body_there : length f.body ≤ length (unread (lib.read_exact 16 r).1)
    body_there = rw (unread_body, length-append f.body rest) (omega arith)

    read_body : (lib.read_exact (length f.body) (lib.read_exact 16 r).1).0 ≡ ok f.body
    read_body =
        reads.filled (length f.body) _ body_there
        ∙ ap ok (ap (take (length f.body)) unread_body ∙ take-append f.body rest)

    unread_rest : unread (lib.read_exact (length f.body) (lib.read_exact 16 r).1).1 ≡ rest
    unread_rest =
        reads.moved (length f.body) _ body_there
        ∙ ap (drop (length f.body)) unread_body
        ∙ drop-append f.body rest

  finish :
      (f : Frame) (d : Outcome (Error lib) (WorkerToHostMessageData lib.Value)) (r : lib.Reader)
      → after d
          (λ content.
            pure
              (record { request_id = f.request_id; message_id = f.message_id; content = content }))
          r
        ≡ (with_content f d, r)
  finish f (ok d) r = refl
  finish f (err e) r = refl
  finish f panicked r = refl
  finish f pending r = refl
  finish f spent r = refl

  module _ (p : Profile) (f : Frame) (rest : List ℕ) (r : lib.Reader) where
    -- On a whole frame `read_from` returns what `parse_data` makes of its type and data, with the
    -- IDs of the frame, and consumes the frame alone. The length check of a debug build passes.
    pub read_from-encode :
        IsEncodable f
        → unread r ≡ encode f ++ rest
        → ((read_from lib p r).0 ≡ with_content f (parse_data lib f.message_type f.body))
          × (unread (read_from lib p r).1 ≡ rest)
    unfolding read_from
    read_from-encode v waits =
        let (size, request, message, type) = header_words f v in
        rw
          (
            read_header f rest r waits,
            size,
            request,
            message,
            type,
            payload_length-body f v {E = Error lib} p,
            read_body f rest r waits,
            finish f (parse_data lib f.message_type f.body) _,
          )
          (refl, unread_rest f rest r waits)
