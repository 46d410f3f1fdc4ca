-- ===== src/Link/Recycled.antt =====
-- From `ConnectionManager::recycle` of src/connection.rs to `createContext` of
-- src/worker/src/run_script.ts: the context of the first script on a connection that was recycled.
use js_sidecar.Prelude.{ℕ, ◌+◌, ◌<◌, ◌^◌, ◌≡◌, refl, Bool, true, false, Option, List, length}
use js_sidecar.Prelude.Outcome.{ok, map_err}
use js_sidecar.Frame.{encode}
use js_sidecar.Host.Messages.{RunScriptArgs}
use js_sidecar.Host.Libs.{Libs, Profile, WritesWords}
use js_sidecar.Host.Error.{write_stream}
use js_sidecar.Host.Protocol.{host_message_type}
use js_sidecar.Host.Protocol.Write.{frame_of}
use js_sidecar.Host.Connection.{Managed, run_script, recycle}
use js_sidecar.Host.Connection.Send.{HasIds, ids_taken, script_message}
use js_sidecar.Host.Connection.Recycle.{run_script-recycle}
use js_sidecar.Worker.Protocol.Frames.{received}
use js_sidecar.Link.Arguments.{IsExact}
use js_sidecar.Link.Documents.{Requests}
use js_sidecar.Link.Script.{parse-to_vec}
use js_sidecar.Worker.Node.{Node}
use js_sidecar.Worker.RunScript.{RunContext, Session}
use js_sidecar.Worker.Handler.{handle_raw_message}
use js_sidecar.Worker.Handler.Recreated.{handle_raw_message_recreated}

module _ (lib : Libs) (p : Profile) (words : WritesWords lib) (n : Node)
    (json : Requests lib n) where
  -- The first script on a connection after a successful recycling is written as a frame that a worker
  -- handles in the same way whatever context the connection had in its cache there, if the arguments can
  -- be serialized and fit a frame, and the timeout is a number that JavaScript has exactly.
  pub handle_raw_message-recycle :
      (elapsed : Bool) (m : Managed lib) (args : RunScriptArgs lib.Value) (body : List ℕ)
      (s : Session n) (other : Option (RunContext n))
      → HasIds m.conn
      → (recycle lib p elapsed m).0 ≡ ok tt
      → HasIds (recycle lib p elapsed m).1.conn
      → IsExact args.timeout_ms
      → lib.to_vec (record args { recreate_context = true }) ≡ ok body
      → length body + 12 < 2 ^ 32
      → let c = (recycle lib p elapsed m).1.conn in
        let f = frame_of (script_message c args) body in
        (run_script lib p args c ≡ (
          let (r, w) = lib.write_all (encode f) c.stream in
          (
            map_err write_stream r,
            record (ids_taken c) { stream = w; recreate_context_on_next = false },
          )))
        × (handle_raw_message n (received f) (record s { run_ctx = other })
            ≡ handle_raw_message n (received f) s)
  unfolding host_message_type
  handle_raw_message-recycle elapsed m args body s other v done left exact e fits = (
    run_script-recycle lib p elapsed m v words args body done left e fits,
    handle_raw_message_recreated n _ _ s other refl (parse-to_vec lib n json _ body exact e) refl,
  )
