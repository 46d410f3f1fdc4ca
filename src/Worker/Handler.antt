-- ===== src/Worker/Handler.antt =====
-- The message handlers of src/worker/src/worker.ts.
pub mod Answers
pub mod Recreated
pub mod Ping
pub mod Failures
use js_sidecar.Prelude.{ℕ, Bool, Option, none, some, List, [], ◌==◌, if◌then◌else◌}
use js_sidecar.Prelude.Outcome.{
  Outcome, ok, err, panicked, pending, spent, Call, map_err, pure, lift, after, ◌>>=◌, ◌>>◌,
}
use js_sidecar.Worker.ApiTypes.{WorkerToHostMessage, run_response, error, pong}
use js_sidecar.Worker.Sender.{send_message}
use js_sidecar.Worker.Protocol.{IncomingMessage}
use js_sidecar.Worker.Node.{Node, RunResponse}
use js_sidecar.Worker.RunScript.{Session, run_script}

module _ (n : Node) where
  open n use {Value, Thrown}

  unfoldable pub send : ℕ → WorkerToHostMessage → List ℕ → Call (Session n) Thrown (Unit {0})
  send req_id type message s =
      let (r, sender) = send_message req_id type message s.sender in
      (after (map_err n.thrown r) (λ id. pure tt) (record s { sender = sender }))

  unfoldable pub respond : ℕ → Option (RunResponse Value) → Call (Session n) Thrown (Unit {0})
  respond req_id response = do
    message ← lift (n.response_json response)
    send req_id run_response message

  unfoldable pub report : ℕ → Thrown → Call (Session n) Thrown (Unit {0})
  report req_id e = do message ← lift (n.error_json e); send req_id error message

  unfoldable pub handle_run_script :
      ℕ → List ℕ → Call (Session n) Thrown (Option (RunResponse Value))
  handle_run_script req_id message = do
    args ← lift (n.parse message)
    response ← run_script n req_id args
    pure (some response)

  -- No message but the two of the host is known; another has no response.
  unfoldable pub handle_message :
      ℕ → ℕ → List ℕ → Call (Session n) Thrown (Option (RunResponse Value))
  handle_message req_id type message =
      if type == 0 then handle_run_script req_id message else pure none

  -- `.catch`: what is thrown there is not handled.
  abbrev pub caught : ℕ → Outcome Thrown (Unit {0}) → Call (Session n) Thrown (Unit {0})
  caught req_id (err e) s = report req_id e s
  caught req_id r s = (r, s)

  -- `.then` and `.catch` behind the promise of `handleMessage`.
  unfoldable pub settle :
      ℕ → Outcome Thrown (Option (RunResponse Value)) → Call (Session n) Thrown (Unit {0})
  settle req_id response s = let (r, s') = after response (respond req_id) s in caught req_id r s'

  unfoldable pub handle_raw_message : IncomingMessage → Call (Session n) Thrown (Unit {0})
  handle_raw_message m = if m.type == 1 then send m.req_id pong [] else λ s.
      let (response, s') = handle_message m.req_id m.type m.body s in settle m.req_id response s'
