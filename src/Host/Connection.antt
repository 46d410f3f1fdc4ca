-- ===== src/Host/Connection.antt =====
-- `Connection` and `ConnectionManager::recycle` of src/connection.rs.
pub mod Send
pub mod Requests
pub mod Wait
pub mod Recycle
pub mod Bounds
use js_sidecar.Prelude.{
  ℕ, zero, suc, ◌+◌, ◌-◌, ◌%◌, ◌^◌, Bool, true, false, not, ◌||◌, Option, none, some, List, [], ◌∷◌,
  ◌++◌, ◌==◌, if◌then◌else◌,
}
use js_sidecar.Prelude.Outcome.{
  Outcome, ok, err, panicked, pending, spent, Call, pure, lift, after, ◌>>=◌, ◌>>◌,
}
use js_sidecar.Bytes.{u32_mod}
use js_sidecar.Host.Messages.{
  RunScriptArgs, RunResponseData, HostToWorkerMessageData, run_script as RunScript, ping as Ping,
  WorkerToHostMessageData, run_response, log, error, pong, HostToWorkerMessage, WorkerToHostMessage,
}
use js_sidecar.Host.Libs.{Libs, Profile, debug, release, Polled, ready, waiting}
use js_sidecar.Host.Error.{
  Error, RunScriptError, read_stream, timeout, connection_out_of_sync, script, script_ended_early,
}
use js_sidecar.Host.Protocol.{write_to}

-- `+= 1` on a u32.
unfoldable pub increment {ℓ} : {E : Type ℓ} → Profile → ℕ → Outcome E ℕ
increment debug n = if n == u32_mod - 1 then panicked else ok (n + 1)
increment release n = ok ((n + 1) % u32_mod)

abbrev pub usize_mod : ℕ
usize_mod = 2 ^ 64

pub record RunScriptAndWaitResult (V : Type 0) : Type 0 where
  pub response : RunResponseData V
  pub messages : List (WorkerToHostMessageData V)

pub record Connection (lib : Libs) : Type 0 where
  pub stream : lib.Writer
  pub receiver : lib.Receiver
  pub next_id : ℕ
  pub next_req_id : ℕ
  pub recreate_context_on_next : Bool

module _ (lib : Libs) where
  open lib use {Value, other, recv}

  -- The two counters, of which `next_req_id` moves first.
  unfoldable pub take_ids : Profile → Call (Connection lib) (Error lib) (ℕ × ℕ)
  take_ids p c =
      after (increment p c.next_req_id)
        (λ next_req_id c'.
          after (increment p c'.next_id)
            (λ next_id c''. (ok (c.next_req_id, c.next_id), record c'' { next_id = next_id }))
            (record c' { next_req_id = next_req_id }))
        c

  -- `message.write_to(&mut self.stream).await`.
  unfoldable pub send : HostToWorkerMessage Value → Call (Connection lib) (Error lib) (Unit {0})
  send m c = let (r, w) = write_to lib m c.stream in (r, record c { stream = w })

  unfoldable pub apply_recreate :
      RunScriptArgs Value → Call (Connection lib) (Error lib) (RunScriptArgs Value)
  apply_recreate args c =
      if c.recreate_context_on_next
      then (
        ok (record args { recreate_context = true }),
        record c { recreate_context_on_next = false },
      )
      else (ok args, c)

  unfoldable pub run_script :
      Profile → RunScriptArgs Value → Call (Connection lib) (Error lib) (Unit {0})
  run_script p args = do
    args' ← apply_recreate args
    (req_id, message_id) ← take_ids p
    send (record { request_id = req_id; message_id = message_id; content = RunScript args' })

  unfoldable pub ping : Profile → Call (Connection lib) (Error lib) ℕ
  ping p = do
    (req_id, message_id) ← take_ids p
    send (record { request_id = req_id; message_id = message_id; content = Ping })
    pure req_id

  unfoldable pub receive_message :
      Connection lib → Polled (Option (WorkerToHostMessage Value)) × Connection lib
  receive_message c = let (m, r) = recv c.receiver in (m, record c { receiver = r })

  -- `while let Some(message) = self.receive_message().await`, with the messages seen so far.
  unfoldable pub wait_loop :
      ℕ
      → List (WorkerToHostMessageData Value)
      → Call (Connection lib) (Error lib) (RunScriptAndWaitResult Value)
  unfolding receive_message
  wait_loop zero seen c = (spent, c)
  wait_loop (suc fuel) seen c =
      let (received, c') = receive_message c in
      elim received [
        | waiting ↦ (pending, c')
        | ready none ↦ (err script_ended_early, c')
        | ready (some message) ↦ elim message.content [
          | run_response response ↦ (ok (record { response = response; messages = seen }), c')
          | error e ↦ (err (script (record { error = e; messages = seen })), c')
          | between ↦ wait_loop fuel (seen ++ between ∷ []) c'
        ]
      ]

  unfoldable pub run_script_and_wait :
      ℕ
      → Profile
      → RunScriptArgs Value
      → Call (Connection lib) (Error lib) (RunScriptAndWaitResult Value)
  run_script_and_wait fuel p args = do run_script p args; wait_loop fuel []

-- A connection with the counters of its `ConnectionManager`, which are `usize` and are only read by
-- a test. They wrap at 2 ^ 64.
pub record Managed (lib : Libs) : Type 0 where
  pub recycle_calls : ℕ
  pub recycle_success : ℕ
  pub conn : Connection lib

module _ (lib : Libs) where
  open lib use {Value, other}

  abbrev pub on_conn :
      {A : Type 0} → Call (Connection lib) (Error lib) A → Call (Managed lib) (Error lib) A
  on_conn call m = let (r, c) = call m.conn in (r, record m { conn = c })

  -- `timeout(Duration::from_secs(1), conn.receive_message())`, then `?` and `ok_or`. `elapsed` says
  -- that the second was over before `recv` was answered; a cancelled `recv` takes nothing.
  unfoldable pub receive_in_time :
      Bool → Call (Connection lib) (Error lib) (WorkerToHostMessage Value)
  unfolding receive_message
  receive_in_time true c = (err timeout, c)
  receive_in_time false c =
      let (received, c') = receive_message lib c in
      elim received [
        | waiting ↦ (err timeout, c')
        | ready none ↦ (err (read_stream (other "Worker is closed")), c')
        | ready (some message) ↦ (ok message, c')
      ]

  unfoldable pub is_pong : WorkerToHostMessageData Value → Bool
  is_pong pong = true
  is_pong _ = false

  unfoldable pub count_call : Call (Managed lib) (Error lib) (Unit {0})
  count_call m = (ok tt, record m { recycle_calls = (m.recycle_calls + 1) % usize_mod })

  unfoldable pub mark_recycled : Call (Managed lib) (Error lib) (Unit {0})
  mark_recycled m = (
    ok tt,
    record m {
      conn = record m.conn { recreate_context_on_next = true };
      recycle_success = (m.recycle_success + 1) % usize_mod;
    },
  )

  unfoldable pub check_reply :
      ℕ → WorkerToHostMessage Value → Call (Managed lib) (Error lib) (Unit {0})
  unfolding is_pong
  check_reply req_id msg =
      if not (msg.request_id == req_id) || not (is_pong msg.content)
      then lift (err connection_out_of_sync)
      else pure tt

  -- The errors are returned inside deadpool's `RecycleError::Backend`.
  unfoldable pub recycle : Profile → Bool → Call (Managed lib) (Error lib) (Unit {0})
  recycle p elapsed = do
    count_call
    req_id ← on_conn (ping lib p)
    msg ← on_conn (receive_in_time elapsed)
    check_reply req_id msg
    mark_recycled
