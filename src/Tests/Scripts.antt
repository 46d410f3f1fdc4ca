-- ===== src/Tests/Scripts.antt =====
-- Scripts on a fresh connection and on a recycled one, from the host to the worker.
use js_sidecar.Prelude.{ℕ, ◌+◌, ◌≡◌, refl, false, none, some, [], ◌∷◌, arith}
use js_sidecar.Prelude.Outcome.{ok, map_err, pure, ◌>>=◌}
use js_sidecar.Frame.{encode}
use js_sidecar.Host.Serde.{args_json}
use js_sidecar.Host.Libs.{release}
use js_sidecar.Worker.Json.{read_args}
use js_sidecar.Link.Arguments.{as_args, read_args-args_json}
use js_sidecar.Link.Documents.{Requests}
use js_sidecar.Host.Error.{write_stream}
use js_sidecar.Host.Protocol.{
  host_message_type, serialize, payload_length, fill_buffer, to_buffer, write_to,
}
use js_sidecar.Host.Protocol.Write.{frame_of}
use js_sidecar.Host.Connection.{
  Managed, increment, take_ids, send, run_script as host_run_script, ping, receive_message,
  receive_in_time, is_pong, count_call, mark_recycled, check_reply, recycle,
}
use js_sidecar.Host.Connection.Send.{HasIds, ids_taken, script_message}
use js_sidecar.Worker.Protocol.Frames.{received}
use js_sidecar.Worker.RunScript.{run_script}
use js_sidecar.Worker.Handler.{handle_raw_message, settle}
use js_sidecar.Link.Script.{handle_raw_message-run_script}
use js_sidecar.Link.Recycled.{handle_raw_message-recycle}
use js_sidecar.Tests.Conn.{pong_to_3}
use js_sidecar.Tests.Worker.{small_node, session, script_args}
use js_sidecar.Tests.Json.{
  the_args, many, narrow, narrow_words, Denotes, narrow-writes, narrow-parses,
}

abbrev narrow_requests : Requests narrow small_node
narrow_requests = record {
  Denotes = Denotes;
  from_json = λ v. v;
  order = λ entries. entries;
  writes = narrow-writes;
  parses = narrow-parses;
}

abbrev narrow_managed : Managed narrow
narrow_managed = record {
  recycle_calls = 4;
  recycle_success = 2;
  conn = record {
    stream = [];
    receiver = (pong_to_3 ∷ [], false);
    next_id = 8;
    next_req_id = 3;
    recreate_context_on_next = false;
  };
}

narrow_ids : HasIds narrow_managed.conn
narrow_ids = record { request_left = omega arith; message_left = omega arith }

narrow_accepted : (recycle narrow release false narrow_managed).0 ≡ ok tt
unfolding recycle count_call mark_recycled check_reply receive_in_time receive_message is_pong ping
    take_ids increment send write_to to_buffer fill_buffer payload_length serialize
    host_message_type
narrow_accepted = refl

recycled_ids : HasIds (recycle narrow release false narrow_managed).1.conn
unfolding recycle count_call mark_recycled check_reply receive_in_time receive_message is_pong ping
    take_ids increment send write_to to_buffer fill_buffer payload_length serialize
    host_message_type
recycled_ids = record { request_left = omega arith; message_left = omega arith }

handle_raw_message-recycle_example :
    let c = (recycle narrow release false narrow_managed).1.conn in
    let f = frame_of (script_message c (the_args false)) (1 ∷ []) in
    (host_run_script narrow release (the_args false) c ≡ (
      let (r, w) = narrow.write_all (encode f) c.stream in
      (
        map_err write_stream r,
        record (ids_taken c) { stream = w; recreate_context_on_next = false },
      )))
    × (handle_raw_message small_node (received f) (record session { run_ctx = none })
        ≡ handle_raw_message small_node (received f) session)
handle_raw_message-recycle_example =
    handle_raw_message-recycle narrow release narrow_words small_node narrow_requests false
      narrow_managed (the_args false) (1 ∷ []) session none narrow_ids narrow_accepted recycled_ids
      tt refl (omega arith)

read_args-args_json_example :
    read_args (λ (v : ℕ). v + 1) (λ entries. entries) (args_json many)
    ≡ some (as_args (λ (v : ℕ). v + 1) (λ entries. entries) many)
read_args-args_json_example =
    read_args-args_json (λ (v : ℕ). v + 1) (λ entries. entries) many (omega arith)

handle_raw_message-run_script_example :
    let c = narrow_managed.conn in
    let f = frame_of (script_message c (the_args false)) (0 ∷ []) in
    (host_run_script narrow release (the_args false) c ≡ (
      let (r, w) = narrow.write_all (encode f) c.stream in
      (
        map_err write_stream r,
        record (ids_taken c) { stream = w; recreate_context_on_next = false },
      )))
    × (handle_raw_message small_node (received f) session ≡ (
        let (response, s') =
          (do response ← run_script small_node 3 (script_args false); pure (some response))
            session in
        settle small_node 3 response s'))
handle_raw_message-run_script_example =
    handle_raw_message-run_script narrow small_node narrow_requests release narrow_words
      narrow_managed.conn (the_args false) (0 ∷ []) session narrow_ids tt refl (omega arith)
