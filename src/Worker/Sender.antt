-- ===== src/Worker/Sender.antt =====
-- The sending side of src/worker/src/protocol.ts: `sendMessage` and its counter.
use js_sidecar.Prelude.{
  ℕ, ◌+◌, ◌<◌, ◌≤◌, ◌^◌, ◌≡◌, List, [], ◌++◌, length, ltb, if◌then◌else◌, arith, ◌⊎◌,
}
use js_sidecar.Prelude.Outcome.{Outcome, ok, err, Call, pure, lift, ◌>>=◌, ◌>>◌}
use js_sidecar.Bytes.{u32_mod, to_le_bytes}
use js_sidecar.Frame.{Frame, IsEncodable, encode}
use js_sidecar.Worker.ApiTypes.{
  WorkerToHostMessage, run_response, log, error, pong, worker_to_host_value,
}

-- Node's ERR_OUT_OF_RANGE.
pub data Exception : Type 0 where
  range_error : Exception

-- The fields of `Protocol` that the sending side uses. `sent` is what it has written to the socket.
pub record Sender : Type 0 where
  pub id : ℕ
  pub sent : List ℕ

abbrev pub new_sender : Sender
new_sender = record { id = 0; sent = [] }

-- `header.writeUInt32LE(n)`.
unfoldable pub write_u32_le : ℕ → Outcome Exception (List ℕ)
write_u32_le n = if ltb n u32_mod then ok (to_le_bytes n) else err range_error

-- `this.id++`
abbrev take_id : Call Sender Exception ℕ
take_id s = (ok s.id, record s { id = s.id + 1 })

abbrev socket_write : List ℕ → Call Sender Exception (Unit {0})
socket_write bytes s = (ok tt, record s { sent = s.sent ++ bytes })

unfoldable pub send_message : ℕ → WorkerToHostMessage → List ℕ → Call Sender Exception ℕ
send_message req_id type message = do
  id ← take_id
  length_word ← lift (write_u32_le (length message + 12))
  req_id_word ← lift (write_u32_le req_id)
  id_word ← lift (write_u32_le id)
  type_word ← lift (write_u32_le (worker_to_host_value type))
  socket_write ((length_word ++ (req_id_word ++ (id_word ++ type_word))) ++ message)
  pure id

abbrev pub sent_frame : ℕ → ℕ → WorkerToHostMessage → List ℕ → Frame
sent_frame id req_id type message = record {
  request_id = req_id;
  message_id = id;
  message_type = worker_to_host_value type;
  body = message;
}

pub value-IsU32 : (type : WorkerToHostMessage) → worker_to_host_value type < 2 ^ 32
unfolding worker_to_host_value
value-IsU32 run_response = omega arith
value-IsU32 log = omega arith
value-IsU32 error = omega arith
value-IsU32 pong = omega arith

write_u32_le_fits : (n : ℕ) → n < 2 ^ 32 → write_u32_le n ≡ ok (to_le_bytes n)
unfolding write_u32_le
write_u32_le_fits n h = ground arith

-- Where the header words fit 32 bits, `sendMessage` writes the frame of the message under the next
-- message ID, and returns that ID.
pub send_message-encode :
    (s : Sender) (req_id : ℕ) (type : WorkerToHostMessage) (message : List ℕ)
    → IsEncodable (sent_frame s.id req_id type message)
    → send_message req_id type message s ≡ (
      ok s.id,
      record { id = s.id + 1; sent = s.sent ++ encode (sent_frame s.id req_id type message) },
    )
unfolding send_message encode
send_message-encode s req_id type message v = rw (
  write_u32_le_fits _ v.length_fits,
  write_u32_le_fits _ v.request_fits,
  write_u32_le_fits _ v.message_fits,
  write_u32_le_fits _ v.type_fits,
)

-- Otherwise it throws, writes nothing, and the message ID is used up all the same.
pub send_message_throws :
    (s : Sender) (req_id : ℕ) (type : WorkerToHostMessage) (message : List ℕ)
    → (2 ^ 32 ≤ length message + 12) ⊎ ((2 ^ 32 ≤ req_id) ⊎ (2 ^ 32 ≤ s.id))
    → send_message req_id type message s ≡ (err range_error, record s { id = s.id + 1 })
unfolding send_message write_u32_le
send_message_throws s req_id type message h = ground arith
