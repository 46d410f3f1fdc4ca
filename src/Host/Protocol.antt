-- ===== src/Host/Protocol.antt =====
-- src/protocol.rs: message types and their codes, and how messages are written and read.
pub mod Write
pub mod Read
pub mod Errors
use js_sidecar.Prelude.{
  ℕ, ◌+◌, ◌-◌, ◌%◌, ◌≡◌, List, [], ◌∷◌, ◌++◌, length, ltb, ◌==◌, if◌then◌else◌,
}
use js_sidecar.Prelude.Outcome.{
  Outcome, ok, err, panicked, pending, spent, Call, map_err, pure, lift, call_map_err, after, ◌>>=◌,
  ◌>>◌,
}
use js_sidecar.Bytes.{u32_mod, u32_at}
use js_sidecar.Host.Messages.{
  HostToWorkerMessageData, run_script, ping, WorkerToHostMessageData, run_response, log, error,
  pong, HostToWorkerMessage, WorkerToHostMessage,
}
use js_sidecar.Host.Libs.{Libs, Profile, debug, release}
use js_sidecar.Host.Error.{Error, json_serialize, read_stream, write_stream, invalid_message_type}

unfoldable pub host_message_type : {V : Type 0} → HostToWorkerMessageData V → ℕ
host_message_type (run_script args) = 0
host_message_type ping = 1

unfoldable pub worker_message_type : {V : Type 0} → WorkerToHostMessageData V → ℕ
worker_message_type (run_response d) = 0x1000
worker_message_type (log d) = 0x1001
worker_message_type (error d) = 0x1002
worker_message_type pong = 0x1003

-- `(length - 12) as usize` on a u32.
unfoldable pub payload_length {ℓ} : {E : Type ℓ} → Profile → ℕ → Outcome E ℕ
payload_length debug n = if ltb n 12 then panicked else ok (n - 12)
payload_length release n = ok ((n + u32_mod - 12) % u32_mod)

module _ (lib : Libs) where
  open lib use {
    Value, JsonError, to_vec, run_response_from_slice, log_from_slice, error_from_slice,
    write_u32_le, Writer, write_all, Reader, read_exact,
  }

  unfoldable pub serialize : HostToWorkerMessageData Value → Outcome (Error lib) (List ℕ)
  serialize (run_script args) = map_err json_serialize (to_vec args)
  serialize ping = ok []

  -- The bytes of one message: `data` of `to_buffer`.
  unfoldable pub fill_buffer :
      HostToWorkerMessageData Value → ℕ → ℕ → List ℕ → Call (List ℕ) (Error lib) (Unit {0})
  fill_buffer d request_id message_id message_data = do
    call_map_err write_stream (write_u32_le ((length message_data + 12) % u32_mod))
    call_map_err write_stream (write_u32_le request_id)
    call_map_err write_stream (write_u32_le message_id)
    call_map_err write_stream (write_u32_le (host_message_type d))
    λ bytes. (ok tt, bytes ++ message_data)

  unfoldable pub to_buffer :
      HostToWorkerMessageData Value → ℕ → ℕ → Call Writer (Error lib) (Unit {0})
  to_buffer d request_id message_id = do
    message_data ← lift (serialize d)
    let (done, bytes) = fill_buffer d request_id message_id message_data []
    lift done
    call_map_err write_stream (write_all bytes)

  unfoldable pub write_to : HostToWorkerMessage Value → Call Writer (Error lib) (Unit {0})
  write_to m = to_buffer m.content m.request_id m.message_id

  -- `Ok(constructor(serde_json::from_slice(buffer)?))`.
  abbrev pub parsed :
      {D : Type 0}
      → (D → WorkerToHostMessageData Value)
      → Outcome JsonError D
      → Outcome (Error lib) (WorkerToHostMessageData Value)
  parsed constructor (ok d) = ok (constructor d)
  parsed constructor (err e) = err (json_serialize e)
  parsed constructor panicked = panicked
  parsed constructor pending = pending
  parsed constructor spent = spent

  unfoldable pub parse_data : ℕ → List ℕ → Outcome (Error lib) (WorkerToHostMessageData Value)
  parse_data message_type buffer =
      if message_type == 0x1000
      then parsed run_response (run_response_from_slice buffer)
      else if message_type == 0x1001
      then parsed log (log_from_slice buffer)
      else if message_type == 0x1002
      then parsed error (error_from_slice buffer)
      else if message_type == 0x1003
      then ok pong
      else err (invalid_message_type message_type)

  unfoldable pub read_from : Profile → Call Reader (Error lib) (WorkerToHostMessage Value)
  read_from profile = do
    header ← call_map_err read_stream (read_exact 16)
    let length_word = u32_at header 0
    let request_id = u32_at header 4
    let message_id = u32_at header 8
    let message_type = u32_at header 12
    size ← lift (payload_length profile length_word)
    bytes ← call_map_err read_stream (read_exact size)
    content ← lift (parse_data message_type bytes)
    pure (record { request_id = request_id; message_id = message_id; content = content })
