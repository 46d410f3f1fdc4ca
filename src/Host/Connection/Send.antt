-- ===== src/Host/Connection/Send.antt =====
-- What one `run_script` or `ping` of src/connection.rs sends, and what it does to the connection.
use js_sidecar.Prelude.{ℕ, ◌+◌, ◌-◌, ◌<◌, ◌^◌, ◌≡◌, refl, ◌∙◌, false, ◌||◌, List, [], length, arith}
use js_sidecar.Prelude.Outcome.{Outcome, ok, err, panicked, pending, spent, map_err, pure, after}
use js_sidecar.Frame.{IsEncodable, encode}
use js_sidecar.Host.Messages.{
  RunScriptArgs, HostToWorkerMessage, run_script as RunScript, ping as Ping,
}
use js_sidecar.Host.Libs.{Libs, Profile, debug, release, WritesWords}
use js_sidecar.Host.Error.{Error, json_serialize, write_stream}
use js_sidecar.Host.Protocol.{serialize, to_buffer, write_to, host_message_type}
use js_sidecar.Host.Protocol.Write.{frame_of, write_to-encode}
use js_sidecar.Host.Connection.{
  Connection, increment, take_ids, send, apply_recreate, run_script, ping,
}

-- Neither counter is at the end of the u32 range.
pub record HasIds {lib : Libs} (c : Connection lib) : Type 0 where
  pub request_left : c.next_req_id < 2 ^ 32 - 1
  pub message_left : c.next_id < 2 ^ 32 - 1

-- The connection after its next pair of IDs was taken.
abbrev pub ids_taken : {lib : Libs} → Connection lib → Connection lib
ids_taken c = record c { next_id = c.next_id + 1; next_req_id = c.next_req_id + 1 }

-- The arguments that `run_script` sends: a recycled connection forces a new context.
abbrev pub sent_args :
    {lib : Libs} → Connection lib → RunScriptArgs lib.Value → RunScriptArgs lib.Value
sent_args c args = record args {
  recreate_context = c.recreate_context_on_next || args.recreate_context;
}

abbrev pub script_message :
    {lib : Libs} → Connection lib → RunScriptArgs lib.Value → HostToWorkerMessage lib.Value
script_message c args = record {
  request_id = c.next_req_id;
  message_id = c.next_id;
  content = RunScript (sent_args c args);
}

abbrev pub ping_message : {lib : Libs} → Connection lib → HostToWorkerMessage lib.Value
ping_message c = record { request_id = c.next_req_id; message_id = c.next_id; content = Ping }

pub script_frame-IsEncodable :
    {lib : Libs} (c : Connection lib) (args : RunScriptArgs lib.Value) (body : List ℕ)
    → HasIds c
    → length body + 12 < 2 ^ 32
    → IsEncodable (frame_of (script_message c args) body)
unfolding host_message_type
script_frame-IsEncodable c args body v fits = omega (arith, v.request_left, v.message_left)

pub ping_frame-IsEncodable :
    {lib : Libs} (c : Connection lib) → HasIds c → IsEncodable (frame_of (ping_message c) [])
unfolding host_message_type
ping_frame-IsEncodable c v = omega (arith, v.request_left, v.message_left)

increment_lem :
    {E : Type 0} (p : Profile) (n : ℕ) → n < 2 ^ 32 - 1 → increment {E = E} p n ≡ ok (n + 1)
unfolding increment
increment_lem debug n h = ground arith
increment_lem release n h = ground arith

module _ (lib : Libs) (p : Profile) where
  take_ids_lem :
      (c : Connection lib)
      → HasIds c
      → take_ids lib p c ≡ (ok (c.next_req_id, c.next_id), ids_taken c)
  unfolding take_ids
  take_ids_lem c v = rw (
    increment_lem {E = Error lib} p c.next_req_id v.request_left,
    increment_lem {E = Error lib} p c.next_id v.message_left,
  )

  apply_recreate_lem :
      (c : Connection lib) (args : RunScriptArgs lib.Value)
      → apply_recreate lib args c
        ≡ (ok (sent_args c args), record c { recreate_context_on_next = false })
  unfolding apply_recreate
  apply_recreate_lem c args = ground arith

  -- `run_script` takes the next two IDs and clears the mark of a recycled connection, also where the
  -- write then fails; its message asks for a new context if the connection was marked or the
  -- arguments ask for one.
  pub run_script_lem :
      (c : Connection lib) (args : RunScriptArgs lib.Value)
      → HasIds c
      → run_script lib p args c ≡ (
          let (r, w) = write_to lib (script_message c args) c.stream in
          (r, record (ids_taken c) { stream = w; recreate_context_on_next = false }))
  unfolding run_script send
  run_script_lem c args v = rw (apply_recreate_lem c args, take_ids_lem unmarked left)
    where
      unmarked : Connection lib
      unmarked = record c { recreate_context_on_next = false }

      left : HasIds unmarked
      left = record { request_left = v.request_left; message_left = v.message_left }

  pub ping_lem :
      (c : Connection lib)
      → HasIds c
      → ping lib p c ≡ (
          let (r, w) = write_to lib (ping_message c) c.stream in
          after r (λ _. pure c.next_req_id) (record (ids_taken c) { stream = w }))
  unfolding ping send
  ping_lem c v = rw (take_ids_lem c v)

  after-pure :
      (o : Outcome (Error lib) (Unit {0})) (n : ℕ) (c : Connection lib)
      → ((after o (λ _. pure n) c).1 ≡ c) × ((k : ℕ) → (after o (λ _. pure n) c).0 ≡ ok k → k ≡ n)
  after-pure (ok x) n c = (refl, λ k e. cc)
  after-pure (err x) n c = (refl, λ k e. cc)
  after-pure panicked n c = (refl, λ k e. cc)
  after-pure pending n c = (refl, λ k e. cc)
  after-pure spent n c = (refl, λ k e. cc)

  -- A ping moves the counters and the stream, and returns its request ID.
  pub ping_conn :
      (c : Connection lib)
      → HasIds c
      → (ping lib p c).1
        ≡ record (ids_taken c) { stream = (write_to lib (ping_message c) c.stream).1 }
  ping_conn c v = rw (ping_lem c v) (after-pure _ c.next_req_id _).0

  pub ping_id :
      (c : Connection lib) (k : ℕ) → HasIds c → (ping lib p c).0 ≡ ok k → k ≡ c.next_req_id
  ping_id c k v h = (after-pure _ c.next_req_id _).1 k (rw (ping_lem c v) at h)

  -- What is written is the frame of that message, in one call of `write_all`, if its arguments
  -- serialize to `body` and it fits the length word.
  pub run_script-encode :
      (words : WritesWords lib) (c : Connection lib) (args : RunScriptArgs lib.Value)
      (body : List ℕ)
      → HasIds c
      → lib.to_vec (sent_args c args) ≡ ok body
      → length body + 12 < 2 ^ 32
      → run_script lib p args c ≡ (
          let (r, w) = lib.write_all (encode (frame_of (script_message c args) body)) c.stream in
          (
            map_err write_stream r,
            record (ids_taken c) { stream = w; recreate_context_on_next = false },
          ))
  unfolding serialize
  run_script-encode words c args body v e fits =
      run_script_lem c args v
      ∙ rw (
          write_to-encode lib words (script_message c args) body c.stream (rw e)
            (script_frame-IsEncodable c args body v fits))

  pub ping-encode :
      (words : WritesWords lib) (c : Connection lib)
      → HasIds c
      → ping lib p c ≡ (
          let (r, w) = lib.write_all (encode (frame_of (ping_message c) [])) c.stream in
          after
            (map_err write_stream r)
            (λ _. pure c.next_req_id)
            (record (ids_taken c) { stream = w }))
  unfolding serialize
  ping-encode words c v =
      ping_lem c v
      ∙ rw
          (write_to-encode lib words (ping_message c) [] c.stream refl (ping_frame-IsEncodable c v))

  -- A failed serialization writes nothing, but the IDs are used up and the mark of a recycled
  -- connection is gone.
  run_script_json_error :
      (c : Connection lib) (args : RunScriptArgs lib.Value) (e : lib.JsonError)
      → HasIds c
      → lib.to_vec (sent_args c args) ≡ err e
      → run_script lib p args c
        ≡ (err (json_serialize e), record (ids_taken c) { recreate_context_on_next = false })
  unfolding write_to to_buffer serialize
  run_script_json_error c args e v q = run_script_lem c args v ∙ rw q
