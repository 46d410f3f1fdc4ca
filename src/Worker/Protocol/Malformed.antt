-- ===== src/Worker/Protocol/Malformed.antt =====
-- `handleData` of src/worker/src/protocol.ts on frames that announce less than their own header.
use js_sidecar.Prelude.{
  ℕ, zero, suc, ◌≤◌, ◌<◌, ◌≡◌, refl, ap, ◌∙◌, none, some, List, [], ◌∷◌, ◌++◌, length, drop, inl,
  inr, Option-cases, arith,
}
use native.Mathlib.Decide.{dec_lt}
use js_sidecar.Bytes.{u32_at, to_le_bytes, u32_at-to_le_bytes}
use js_sidecar.Worker.Protocol.{
  Incoming, fresh, throws, emits, take_message, turn, threw, ends, prepend, message_loop, feed,
  handle_data, handle_chunks,
}
use js_sidecar.Worker.Protocol.Turns.{
  took, too_few, no_header, Took-cases, message_at, past, known, take_message_waits,
  take_message_throws, take_message_emits, take_length_takes, take_length_waits, turn-some,
  turn-none, turn-measure,
}
use js_sidecar.Worker.Protocol.Loop.{
  idle, waited, failed, cut, Round-cases, loop_empty, loop_waits, loop_throws, loop_emits,
  loop-fuel,
}

-- The frame that is being read announces fewer bytes than a header has, and they are there, but the
-- bytes of a header are not.
abbrev pub IsShort : Incoming → Type 0
IsShort s = elim s.expected_length [
  | none ↦ ⊥
  | some n ↦ (n ≤ length s.buffer) × (length s.buffer < 12)
]

take_message-IsShort :
    (n : ℕ) (s s' : Incoming)
    → s.expected_length ≡ some n
    → take_message n s ≡ throws s'
    → IsShort s'
take_message-IsShort n s s' x e = elim (Took-cases n s) [
  | too_few h ↦ cc (take_message_waits n s h)
  | no_header h k ↦ ground (arith, take_message_throws n s h k)
  | took h k ↦ cc (take_message_emits n s h k)
]

turn-IsShort : (s s' : Incoming) → turn s ≡ throws s' → IsShort s'
turn-IsShort s s' e = elim (Option-cases s.expected_length) [
  | inl h ↦ elim (dec_lt (length s.buffer) 4) [
    | yes few ↦ cc (turn-none s h, take_length_waits s few)
    | no enough ↦
        take_message-IsShort (u32_at s.buffer 0) (known s) s' refl
          (cc (e, turn-none s h, take_length_takes s (omega arith)))
  ]
  | inr (n, h) ↦ take_message-IsShort n s s' h (cc (e, turn-some s n h))
]

loop-IsShort :
    (f : ℕ) (s : Incoming) → (message_loop f s).status ≡ threw → IsShort (message_loop f s).incoming
loop-IsShort zero s h = unfold message_loop in cc h
loop-IsShort (suc f) s h = elim (Round-cases s) [
  | idle z ↦ ground (arith, loop_empty f s z)
  | waited p s' e ↦ ground (arith, loop_waits f s p s' e)
  | failed p s' e ↦ ground (arith, loop_throws f s p s' e, turn-IsShort s s' e)
  | cut p m s' e ↦ ground (arith, loop_emits f s p m s' e, loop-IsShort f s')
]

-- `handleData` throws only over a frame that announces less than 12 bytes, the length of a header
-- behind the length word.
pub handle_data-IsShort :
    (s : Incoming) (d : List ℕ)
    → (handle_data s d).status ≡ threw
    → IsShort (handle_data s d).incoming
unfolding handle_data
handle_data-IsShort s d h = loop-IsShort _ (feed s d) h

module _ (n : ℕ) (b : List ℕ) (short : n < 12) where
  announced : List ℕ
  announced = to_le_bytes n ++ b

  turn-announced :
      turn (feed fresh announced) ≡ take_message n (record { buffer = b; expected_length = some n })
  unfolding announced to_le_bytes
  turn-announced =
      turn-none (feed fresh announced) refl
      ∙ take_length_takes (feed fresh announced) (omega arith)
      ∙ ap (λ k. take_message k (record { buffer = b; expected_length = some k }))
          (u32_at-to_le_bytes n b (omega arith))

  nonempty : 0 < length announced
  unfolding announced to_le_bytes
  nonempty = omega arith

  -- A short frame whose header is cut stops the worker.
  short_throws :
      n ≤ length b
      → length b < 12
      → handle_data fresh (to_le_bytes n ++ b)
        ≡ ends (record { buffer = b; expected_length = some n }) threw
  unfolding handle_data announced
  short_throws h k =
      loop_throws _ (feed fresh announced) nonempty _ (turn-announced ∙ take_message_throws n _ h k)

  -- With twelve bytes behind the length it is read as a message, and the rest of its header again.
  short_emits :
      12 ≤ length b
      → handle_data fresh (to_le_bytes n ++ b)
        ≡ prepend (message_at n b ∷ []) (handle_data fresh (drop n b))
  unfolding handle_data announced
  short_emits h =
      loop_emits _ (feed fresh announced) nonempty (message_at n b) (past n b) emitted
      ∙ ap (prepend (message_at n b ∷ []))
          (loop-fuel _ _ (past n b) (turn-measure _ _ _ emitted) (omega arith))
    where
      emitted : turn (feed fresh announced) ≡ emits (message_at n b) (past n b)
      emitted = turn-announced ∙ take_message_emits n _ (omega arith) h

-- A frame that announces fewer bytes than the 12 of a header is handled by where the socket cuts it. If
-- the first event has all the bytes that it announces, but not those of a header, then this event throws,
-- and nothing is emitted. If the bytes of both events come in one, the frame is emitted as a message with
-- no data, and what is behind the bytes that it announces is read as further frames.
pub short_frame_cut :
    (n : ℕ) (b d : List ℕ)
    → n ≤ length b
    → length b < 12
    → 12 ≤ length (b ++ d)
    → (handle_chunks fresh ((to_le_bytes n ++ b) ∷ d ∷ [])
        ≡ ends (record { buffer = b; expected_length = some n }) threw)
      × (handle_chunks fresh ((to_le_bytes n ++ (b ++ d)) ∷ [])
          ≡ prepend (message_at n (b ++ d) ∷ []) (handle_chunks fresh (drop n (b ++ d) ∷ [])))
unfolding handle_chunks
short_frame_cut n b d h k l =
    ground (arith, short_throws n b (omega arith) h k, short_emits n (b ++ d) (omega arith) l)
