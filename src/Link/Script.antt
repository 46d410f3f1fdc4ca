-- ===== src/Link/Script.antt =====
-- From `Connection::run_script` of src/connection.rs to `runScript` of src/worker/src/run_script.ts.
use js_sidecar.Prelude.{ℕ, ◌+◌, ◌<◌, ◌^◌, ◌≡◌, refl, false, some, List, length}
use js_sidecar.Prelude.Outcome.{ok, map_err, pure, ◌>>=◌}
use js_sidecar.Frame.{encode}
use js_sidecar.Host.Messages.{RunScriptArgs as HostArgs}
use js_sidecar.Host.Libs.{Libs, Profile, WritesWords}
use js_sidecar.Host.Error.{write_stream}
use js_sidecar.Host.Serde.{args_json}
use js_sidecar.Host.Protocol.{host_message_type}
use js_sidecar.Host.Protocol.Write.{frame_of}
use js_sidecar.Host.Connection.{Connection, run_script as host_run_script}
use js_sidecar.Host.Connection.Send.{
  HasIds, ids_taken, sent_args, script_message, run_script-encode,
}
use js_sidecar.Worker.Protocol.Frames.{received}
use js_sidecar.Worker.Node.{Node}
use js_sidecar.Worker.RunScript.{Session, run_script}
use js_sidecar.Worker.Handler.{settle, handle_message, handle_run_script, handle_raw_message}
use js_sidecar.Link.Arguments.{IsExact, as_args, read_args-args_json}
use js_sidecar.Link.Documents.{Requests}

module _ (lib : Libs) (n : Node) (json : Requests lib n) where
  open json use {from_json, order}

  -- What `JSON.parse` gives for the data of a script.
  pub parse-to_vec :
      (args : HostArgs lib.Value) (body : List ℕ)
      → IsExact args.timeout_ms
      → lib.to_vec args ≡ ok body
      → n.parse body ≡ ok (as_args from_json order args)
  parse-to_vec args body exact e =
      json.parses body (args_json args) _ (json.writes args body e)
        (read_args-args_json from_json order args exact)

  -- A script that the host runs on a connection is written as a frame, in one write, and a worker that
  -- receives the frame runs the script with the arguments of the host, under the request ID of the
  -- host, and then answers with what came of it. A context is recreated if the arguments or the
  -- recycling of the connection ask for it. A timeout has to be a number that JavaScript has exactly.
  pub handle_raw_message-run_script :
      (p : Profile) (words : WritesWords lib) (c : Connection lib) (args : HostArgs lib.Value)
      (body : List ℕ) (s : Session n)
      → HasIds c
      → IsExact args.timeout_ms
      → lib.to_vec (sent_args c args) ≡ ok body
      → length body + 12 < 2 ^ 32
      → let f = frame_of (script_message c args) body in
        (host_run_script lib p args c ≡ (
          let (r, w) = lib.write_all (encode f) c.stream in
          (
            map_err write_stream r,
            record (ids_taken c) { stream = w; recreate_context_on_next = false },
          )))
        × (handle_raw_message n (received f) s ≡ (
            let (response, s') =
              (do
                response ← run_script n c.next_req_id (as_args from_json order (sent_args c args))
                pure (some response))
                s in
            settle n c.next_req_id response s'))
  unfolding handle_raw_message handle_message handle_run_script host_message_type
  handle_raw_message-run_script p words c args body s v exact e fits = (
    run_script-encode lib p words c args body v e fits,
    rw (parse-to_vec (sent_args c args) body exact e) refl,
  )
