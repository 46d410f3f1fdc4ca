-- ===== src/Worker/Protocol/Frames.antt =====
-- `handleData` of src/worker/src/protocol.ts on well-formed frames.
use js_sidecar.Prelude.{
  ℕ, ◌+◌, ◌≤◌, ◌<◌, ◌≡◌, refl, sym, ap, ◌∙◌, some, List, [], ◌∷◌, ◌++◌, length, length-append,
  length-drop, length-zero, take, drop, take-append, drop-append, append-split, All, map, arith,
}
use mathlib.Core.List.{flatten}
use native.Mathlib.Decide.{dec_lt}
use js_sidecar.Bytes.{u32_at, u32_at-append, to_le_bytes, subarray}
use js_sidecar.Frame.{Frame, IsEncodable, encode, stream}
use js_sidecar.Worker.Protocol.{
  Incoming, IncomingMessage, fresh, emits, waits, turn, returned, take_message, ends, prepend,
  message_loop, feed, handle_data, handle_chunks,
}
use js_sidecar.Worker.Protocol.Turns.{
  known, turn-none, take_length_takes, take_message_emits, turn-measure, take_length_waits,
  take_message_waits,
}
use js_sidecar.Worker.Protocol.Chunks.{handle_chunks-flatten}
use js_sidecar.Worker.Protocol.Loop.{loop_emits, loop_waits, loop-fuel}

abbrev pub received : Frame → IncomingMessage
received f = record {
  id = f.message_id;
  req_id = f.request_id;
  type = f.message_type;
  body = f.body;
}

-- The header behind the length word.
abbrev header : Frame → List ℕ
unfolding to_le_bytes
header f =
    to_le_bytes f.request_id ++ (to_le_bytes f.message_id ++ (to_le_bytes f.message_type ++ []))

module _ (f : Frame) (rest : List ℕ) (v : IsEncodable f) where
  unread : List ℕ
  unread = (header f ++ f.body) ++ rest

  unread_words :
      (u32_at unread 0 ≡ f.request_id)
      × (u32_at unread 4 ≡ f.message_id)
      × (u32_at unread 8 ≡ f.message_type)
  unfolding unread header to_le_bytes u32_at
  unread_words = omega arith

  unread_body : subarray unread 12 (length f.body + 12) ≡ f.body
  unfolding unread header to_le_bytes
  unread_body = ap (λ k. take k (f.body ++ rest)) (omega arith) ∙ take-append f.body rest

  unread_rest : drop (length f.body + 12) unread ≡ rest
  unfolding unread header to_le_bytes
  unread_rest =
      ap (λ k. drop k unread) {y = length (header f ++ f.body)} (omega arith)
      ∙ drop-append (header f ++ f.body) rest

  length-unread : length f.body + 12 ≤ length unread
  unfolding unread header to_le_bytes
  length-unread = omega (arith, length-append f.body rest)

  take_message-unread :
      take_message
        (length f.body + 12)
        (record { buffer = unread; expected_length = some (length f.body + 12) })
      ≡ emits (received f) (feed fresh rest)
  take_message-unread =
      take_message_emits _ _ length-unread (omega (arith, length-unread))
      ∙ ground (arith, unread_words, unread_body, unread_rest)

  length_word : (u32_at (encode f ++ rest) 0 ≡ length f.body + 12) × (4 ≤ length (encode f ++ rest))
  unfolding encode u32_at
  length_word = omega (arith, v.length_fits)

  drop-encode : drop 4 (encode f ++ rest) ≡ unread
  unfolding unread header encode to_le_bytes
  drop-encode = refl

  -- A round over a whole frame emits its message and leaves what follows it.
  turn-encode : turn (feed fresh (encode f ++ rest)) ≡ emits (received f) (feed fresh rest)
  turn-encode =
      turn-none (feed fresh (encode f ++ rest)) refl
      ∙ take_length_takes (feed fresh (encode f ++ rest)) length_word.1
      ∙ rw (length_word.0, drop-encode) take_message-unread

  -- So does an event whose bytes begin with the frame, and it goes on with the rest.
  pub handle_data-encode :
      handle_data fresh (encode f ++ rest) ≡ prepend (received f ∷ []) (handle_data fresh rest)
  unfolding handle_data
  handle_data-encode =
      loop_emits _ (feed fresh (encode f ++ rest)) (omega (arith, length_word)) (received f)
        (feed fresh rest) turn-encode
      ∙ ap (prepend (received f ∷ []))
          (loop-fuel _ _ (feed fresh rest) (turn-measure _ _ _ turn-encode) (omega arith))

-- A stream of whole frames gives their messages in order, and leaves nothing in the buffer.
handle_data-stream :
    (fs : List Frame)
    → All IsEncodable fs
    → handle_data fresh (stream fs)
      ≡ record { incoming = fresh; emitted = map received fs; status = returned }
handle_data-stream [] v = unfold handle_data message_loop in refl
handle_data-stream (f ∷ fs) v =
    handle_data-encode f (stream fs) v.0
    ∙ ap (prepend (received f ∷ [])) (handle_data-stream fs v.1)

length-encode : (f : Frame) → length (encode f) ≡ length f.body + 16
unfolding encode
length-encode f = omega arith

-- A state whose round waits is left to wait.
waits-returned :
    (d : List ℕ) (s : Incoming)
    → 0 < length d
    → turn (feed fresh d) ≡ waits s
    → (handle_data fresh d).status ≡ returned
unfolding handle_data
waits-returned d s p e = ap (λ h. h.status) (loop_waits _ (feed fresh d) p s e)

announced :
    (f : Frame) (d r rest : List ℕ)
    → IsEncodable f
    → d ++ r ≡ encode f ++ rest
    → 4 ≤ length d
    → u32_at d 0 ≡ length f.body + 12
announced f d r rest v e h =
    sym (u32_at-append d r 0 h) ∙ ap (λ b. u32_at b 0) e ∙ (length_word f rest v).0

-- A part of a frame, from its start, is waited on.
partial_frame :
    (f : Frame) (d r rest : List ℕ)
    → IsEncodable f
    → d ++ r ≡ encode f ++ rest
    → length d < length (encode f)
    → (handle_data fresh d).status ≡ returned
partial_frame f d r rest v e h = elim (dec_lt 0 (length d)) [
  | no z ↦ rw (length-zero d (omega arith)) (unfold handle_data message_loop in refl)
  | yes p ↦ elim (dec_lt (length d) 4) [
    | yes few ↦
        waits-returned d _ p (turn-none (feed fresh d) refl ∙ take_length_waits (feed fresh d) few)
    | no enough ↦ waits-returned d _ p (
        turn-none (feed fresh d) refl
        ∙ take_length_takes (feed fresh d) (omega arith)
        ∙ take_message_waits (u32_at d 0) (known (feed fresh d))
            (omega (arith, announced f d r rest v e, length-encode f, length-drop 4 d)))
  ]
]

-- Every front of a stream of whole frames is handled without an exception.
prefix-returned :
    (fs : List Frame) (d r : List ℕ)
    → All IsEncodable fs
    → d ++ r ≡ stream fs
    → (handle_data fresh d).status ≡ returned
prefix-returned [] [] r v e = unfold handle_data message_loop in refl
prefix-returned [] (x ∷ d) r v e = cc
prefix-returned (f ∷ fs) d r v e = elim (dec_lt (length d) (length (encode f))) [
  | yes short ↦ partial_frame f d r (stream fs) v.0 e short
  | no long ↦
      let (rest, front, back) = append-split d r (encode f) (stream fs) e (omega arith) in
      rw (front, handle_data-encode f rest v.0) (prefix-returned fs rest r v.1 back)
]

-- However the bytes of a stream of whole frames are cut into events, the worker emits the message of
-- each frame, in order and once, throws nothing, and is left with an empty buffer.
pub handle_chunks-stream :
    (fs : List Frame) (chunks : List (List ℕ))
    → All IsEncodable fs
    → flatten chunks ≡ stream fs
    → handle_chunks fresh chunks
      ≡ record { incoming = fresh; emitted = map received fs; status = returned }
handle_chunks-stream fs chunks v e =
    rw nothing at (handle_chunks-flatten [] chunks (λ d r p. prefix-returned fs d r v (p ∙ e)))
    ∙ ap (handle_data fresh) e
    ∙ handle_data-stream fs v
  where
    nothing : handle_data fresh [] ≡ ends fresh returned
    nothing = unfold handle_data message_loop in refl
