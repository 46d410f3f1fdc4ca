-- ===== src/Worker/Protocol.antt =====
-- src/worker/src/protocol.ts: how a worker cuts the bytes of its socket into messages, and how it
-- frames the messages that it sends. The listener of the `message` event runs inside `emit`; it
-- reads and writes neither `buffer` nor `expectedLength`, so the messages are collected here.
pub mod Turns
pub mod Loop
pub mod Chunks
pub mod Frames
pub mod Malformed
use js_sidecar.Prelude.{
  ℕ, zero, suc, ◌+◌, Option, none, some, List, [], ◌∷◌, ◌++◌, length, drop, ltb, if◌then◌else◌,
}
use js_sidecar.Bytes.{u32_at, read_u32_le, subarray}

-- `data` of the source is `body`.
pub record IncomingMessage : Type 0 where
  pub id : ℕ
  pub req_id : ℕ
  pub type : ℕ
  pub body : List ℕ

-- The fields of `Protocol` that the receiving side uses.
pub record Incoming : Type 0 where
  pub buffer : List ℕ
  pub expected_length : Option ℕ

abbrev pub fresh : Incoming
fresh = record { buffer = []; expected_length = none }

-- How one round of the loop ends: it returns to wait for more bytes, it throws a RangeError, or it
-- emits a message and goes on.
pub data Turn : Type 0 where
  waits : Incoming → Turn
  throws : Incoming → Turn
  emits : IncomingMessage → Incoming → Turn

-- The three words of the header behind the length.
unfoldable pub read_header : List ℕ → Option (ℕ × ℕ × ℕ)
read_header buffer = elim (read_u32_le buffer 0) [
  | none ↦ none
  | some req_id ↦ elim (read_u32_le buffer 4) [
    | none ↦ none
    | some id ↦ elim (read_u32_le buffer 8) [ none ↦ none | some type ↦ some (req_id, id, type) ]
  ]
]

unfoldable pub take_message : ℕ → Incoming → Turn
take_message expected s =
    if ltb (length s.buffer) expected then waits s else elim (read_header s.buffer) [
      | none ↦ throws s
      | some (req_id, id, type) ↦
          emits
            (record { id = id; req_id = req_id; type = type; body = subarray s.buffer 12 expected })
            (record { buffer = drop expected s.buffer; expected_length = none })
    ]

-- The length word, which is taken off the buffer as soon as it is there.
unfoldable pub take_length : Incoming → Turn
unfolding take_message
take_length s =
    let expected = u32_at s.buffer 0 in
    if ltb (length s.buffer) 4
    then waits s
    else take_message expected
        (record { buffer = drop 4 s.buffer; expected_length = some expected })

unfoldable pub turn : Incoming → Turn
turn s = elim s.expected_length [ some expected ↦ take_message expected s | none ↦ take_length s ]

-- `spent` is no state of the program: the fuel of the loop ran out.
pub data Status : Type 0 where
  returned threw spent : Status

pub record Handled : Type 0 where
  pub incoming : Incoming
  pub emitted : List IncomingMessage
  pub status : Status

abbrev pub ends : Incoming → Status → Handled
ends s status = record { incoming = s; emitted = []; status = status }

abbrev pub prepend : List IncomingMessage → Handled → Handled
prepend ms h = record h { emitted = ms ++ h.emitted }

-- `while (this.buffer.length > 0)`.
unfoldable pub message_loop : ℕ → Incoming → Handled
message_loop zero s = ends s spent
message_loop (suc fuel) s = elim s.buffer [
  | [] ↦ ends s returned
  | _ ∷ _ ↦ elim (turn s) [
    | waits s' ↦ ends s' returned
    | throws s' ↦ ends s' threw
    | emits m s' ↦ prepend (m ∷ []) (message_loop fuel s')
  ]
]

abbrev pub feed : Incoming → List ℕ → Incoming
feed s bytes = record s { buffer = s.buffer ++ bytes }

-- A round that goes on takes a byte off the buffer, or clears `expectedLength`.
abbrev pub measure : Incoming → ℕ
measure s = length s.buffer + elim s.expected_length [ none ↦ 0 | some _ ↦ 1 ]

unfoldable pub handle_data : Incoming → List ℕ → Handled
handle_data s bytes = message_loop (suc (measure (feed s bytes))) (feed s bytes)

-- The `data` events of one socket, in order. What is thrown in an event is not caught, and no event
-- follows it.
unfoldable pub handle_chunks : Incoming → List (List ℕ) → Handled
handle_chunks s [] = ends s returned
handle_chunks s (bytes ∷ rest) =
    let h = handle_data s bytes in
    let more = handle_chunks h.incoming rest in
    elim h.status [ returned ↦ prepend h.emitted more | threw ↦ h | spent ↦ h ]
