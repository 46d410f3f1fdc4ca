-- ===== src/Worker/Protocol/Turns.antt =====
-- One round of the loop of `handleData`, in src/worker/src/protocol.ts.
use js_sidecar.Prelude.{
  ℕ, ◌-◌, ◌≤◌, ◌<◌, ◌≡◌, refl, inl, inr, none, some, List, ◌++◌, length, length-append, length-drop,
  take-append_le, drop, drop-append_le, arith, Option-cases,
}
use native.Mathlib.Decide.{dec_lt}
use js_sidecar.Bytes.{u32_at, u32_at-append, read_u32_le, subarray}
use js_sidecar.Worker.Protocol.{
  Incoming, IncomingMessage, waits, throws, emits, read_header, take_message, take_length, turn,
  feed, measure,
}

read_header_whole :
    (b : List ℕ) → 12 ≤ length b → read_header b ≡ some (u32_at b 0, u32_at b 4, u32_at b 8)
unfolding read_header read_u32_le
read_header_whole b h = ground arith

read_header_short : (b : List ℕ) → length b < 12 → read_header b ≡ none
unfolding read_header read_u32_le
read_header_short b h = ground arith

-- The message in the first `n` bytes of the buffer, and what follows it.
abbrev pub message_at : ℕ → List ℕ → IncomingMessage
message_at n b = record {
  id = u32_at b 4;
  req_id = u32_at b 0;
  type = u32_at b 8;
  body = subarray b 12 n;
}

abbrev pub past : ℕ → List ℕ → Incoming
past n b = record { buffer = drop n b; expected_length = none }

pub take_message_waits : (n : ℕ) (s : Incoming) → length s.buffer < n → take_message n s ≡ waits s
unfolding take_message
take_message_waits n s h = ground arith

pub take_message_throws :
    (n : ℕ) (s : Incoming)
    → n ≤ length s.buffer
    → length s.buffer < 12
    → take_message n s ≡ throws s
unfolding take_message
take_message_throws n s h k = ground (arith, read_header_short s.buffer)

pub take_message_emits :
    (n : ℕ) (s : Incoming)
    → n ≤ length s.buffer
    → 12 ≤ length s.buffer
    → take_message n s ≡ emits (message_at n s.buffer) (past n s.buffer)
unfolding take_message
take_message_emits n s h k = ground (arith, read_header_whole s.buffer)

message_at-append :
    (n : ℕ) (b d : List ℕ) → n ≤ length b → 12 ≤ length b → message_at n (b ++ d) ≡ message_at n b
message_at-append n b d h k = rw (
  u32_at-append b d 0 (omega arith),
  u32_at-append b d 4 (omega arith),
  u32_at-append b d 8 (omega arith),
  drop-append_le 12 b d k,
  take-append_le (n - 12) (drop 12 b) d (omega (arith, length-drop 12 b)),
)

-- How a round ends, by the length that it knows: it emits, waits or throws.
pub data Took (n : ℕ) (s : Incoming) : Type 0 where
  took : n ≤ length s.buffer → 12 ≤ length s.buffer → Took n s
  too_few : length s.buffer < n → Took n s
  no_header : n ≤ length s.buffer → length s.buffer < 12 → Took n s

pub Took-cases : (n : ℕ) (s : Incoming) → Took n s
Took-cases n s = elim (dec_lt (length s.buffer) n) [
  | yes few ↦ too_few few
  | no enough ↦ elim (dec_lt (length s.buffer) 12) [
    | yes few ↦ no_header (omega arith) few
    | no header ↦ took (omega arith) (omega arith)
  ]
]

-- A message that was cut is cut the same with more bytes behind it.
take_message-feed :
    (n : ℕ) (s s' : Incoming) (m : IncomingMessage) (d : List ℕ)
    → take_message n s ≡ emits m s'
    → take_message n (feed s d) ≡ emits m (feed s' d)
take_message-feed n s s' m d e = elim (Took-cases n s) [
  | too_few h ↦ cc (take_message_waits n s h)
  | no_header h k ↦ cc (take_message_throws n s h k)
  | took h k ↦ ground (
    arith,
    take_message_emits n s h k,
    length-append s.buffer d,
    take_message_emits n (feed s d),
    message_at-append n s.buffer d h k,
    drop-append_le n s.buffer d h,
  )
]

pub take_length_takes :
    (s : Incoming)
    → 4 ≤ length s.buffer
    → take_length s
      ≡ take_message
          (u32_at s.buffer 0)
          (record { buffer = drop 4 s.buffer; expected_length = some (u32_at s.buffer 0) })
unfolding take_length
take_length_takes s h = ground arith

pub take_length_waits : (s : Incoming) → length s.buffer < 4 → take_length s ≡ waits s
unfolding take_length
take_length_waits s h = ground arith

pub turn-some : (s : Incoming) (n : ℕ) → s.expected_length ≡ some n → turn s ≡ take_message n s
unfolding turn
turn-some s n e = ground arith

pub turn-none : (s : Incoming) → s.expected_length ≡ none → turn s ≡ take_length s
unfolding turn
turn-none s e = ground arith

take_message-measure :
    (n : ℕ) (s s' : Incoming) (m : IncomingMessage)
    → take_message n s ≡ emits m s'
    → measure s' ≤ length s.buffer
take_message-measure n s s' m e = elim (Took-cases n s) [
  | too_few h ↦ cc (take_message_waits n s h)
  | no_header h k ↦ cc (take_message_throws n s h k)
  | took h k ↦ ground (arith, take_message_emits n s h k, length-drop n s.buffer)
]

-- The state that a round over the length word hands on.
abbrev pub known : Incoming → Incoming
known s = record { buffer = drop 4 s.buffer; expected_length = some (u32_at s.buffer 0) }

take_length-feed :
    (s s' : Incoming) (m : IncomingMessage) (d : List ℕ)
    → take_length s ≡ emits m s'
    → take_length (feed s d) ≡ emits m (feed s' d)
take_length-feed s s' m d e = elim (dec_lt (length s.buffer) 4) [
  | yes few ↦ cc (take_length_waits s few)
  | no enough ↦ ground (
    arith,
    take_length_takes s,
    take_length_takes (feed s d),
    length-append s.buffer d,
    u32_at-append s.buffer d 0,
    drop-append_le 4 s.buffer d,
    take_message-feed (u32_at s.buffer 0) (known s) s' m d,
  )
]

pub turn-feed :
    (s s' : Incoming) (m : IncomingMessage) (d : List ℕ)
    → turn s ≡ emits m s'
    → turn (feed s d) ≡ emits m (feed s' d)
turn-feed s s' m d e = elim (Option-cases s.expected_length) [
  | inl h ↦ ground (arith, turn-none s h, turn-none (feed s d) h, take_length-feed s s' m d)
  | inr (n, h) ↦
      ground (arith, turn-some s n h, turn-some (feed s d) n h, take_message-feed n s s' m d)
]

pub turn-measure :
    (s s' : Incoming) (m : IncomingMessage) → turn s ≡ emits m s' → measure s' < measure s
turn-measure s s' m e = elim (Option-cases s.expected_length) [
  | inl h ↦ elim (dec_lt (length s.buffer) 4) [
    | yes few ↦ cc (turn-none s h, take_length_waits s few)
    | no enough ↦ ground (
      arith,
      turn-none s h,
      take_length_takes s,
      length-drop 4 s.buffer,
      take_message-measure (u32_at s.buffer 0) (known s) s' m,
    )
  ]
  | inr (n, h) ↦ ground (arith, turn-some s n h, take_message-measure n s s' m)
]

take_message_waits_self : (n : ℕ) (s s' : Incoming) → take_message n s ≡ waits s' → s' ≡ s
take_message_waits_self n s s' e = elim (Took-cases n s) [
  | too_few h ↦ cc (take_message_waits n s h)
  | no_header h k ↦ cc (take_message_throws n s h k)
  | took h k ↦ cc (take_message_emits n s h k)
]

-- A round that waits can be made again once there are more bytes.
pub turn-feed_waits :
    (s s' : Incoming) (d : List ℕ) → turn s ≡ waits s' → turn (feed s d) ≡ turn (feed s' d)
turn-feed_waits s s' d e = elim (Option-cases s.expected_length) [
  | inl h ↦ elim (dec_lt (length s.buffer) 4) [
    | yes few ↦ cc (turn-none s h, take_length_waits s few)
    | no enough ↦ ground (
      arith,
      turn-none s h,
      turn-none (feed s d) h,
      take_length_takes s,
      take_length_takes (feed s d),
      length-append s.buffer d,
      u32_at-append s.buffer d 0,
      drop-append_le 4 s.buffer d,
      take_message_waits_self (u32_at s.buffer 0) (known s) s',
      turn-some (feed (known s) d) (u32_at s.buffer 0) refl,
    )
  ]
  | inr (n, h) ↦ ground (arith, turn-some s n h, take_message_waits_self n s s')
]
