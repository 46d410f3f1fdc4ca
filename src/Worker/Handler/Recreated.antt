-- ===== src/Worker/Handler/Recreated.antt =====
-- `handleRawMessage` of src/worker/src/worker.ts on a script that asks for a new context.
use js_sidecar.Prelude.{ℕ, ◌≡◌, true, Option, List}
use js_sidecar.Prelude.Outcome.{ok}
use js_sidecar.Worker.Protocol.{IncomingMessage}
use js_sidecar.Worker.Node.{Node, RunScriptArgs}
use js_sidecar.Worker.RunScript.{RunContext, Session, is_true}
use js_sidecar.Worker.RunScript.Context.{run_script_recreated}
use js_sidecar.Worker.Handler.{handle_message, handle_run_script, handle_raw_message}

module _ (n : Node) where
  handle_message_recreated :
      (req_id : ℕ) (message : List ℕ) (args : RunScriptArgs n.Value) (s : Session n)
      (other : Option (RunContext n))
      → n.parse message ≡ ok args
      → is_true args.recreate_context ≡ true
      → handle_message n req_id 0 message (record s { run_ctx = other })
        ≡ handle_message n req_id 0 message s
  unfolding handle_message handle_run_script
  handle_message_recreated req_id message args s other p h =
      rw (p, run_script_recreated n req_id args s other h)

  -- It is handled in the same way whatever context its connection had: what it sends, what it leaves
  -- in the cache and what it does to the worker do not depend on that context.
  pub handle_raw_message_recreated :
      (m : IncomingMessage) (args : RunScriptArgs n.Value) (s : Session n)
      (other : Option (RunContext n))
      → m.type ≡ 0
      → n.parse m.body ≡ ok args
      → is_true args.recreate_context ≡ true
      → handle_raw_message n m (record s { run_ctx = other }) ≡ handle_raw_message n m s
  unfolding handle_raw_message
  handle_raw_message_recreated m args s other t p h =
      rw (t, handle_message_recreated m.req_id m.body args s other p h)
