-- ===== src/Tests/Overtaken.antt =====
-- A script whose answer comes behind the pong, when the connection has its next caller.
use js_sidecar.Prelude.{
  ℕ, ◌≡◌, ◌<◌, ◌^◌, refl, inl, false, List, [], ◌∷◌, ◌++◌, none, String, some, All, arith, Option,
}
use js_sidecar.Prelude.Outcome.{Outcome, ok}
use js_sidecar.Bytes.{to_le_bytes, u32_at}
use js_sidecar.Frame.{Frame, encode}
use js_sidecar.Host.Messages.{WorkerToHostMessage, run_response as RunResponse, pong as Pong}
use js_sidecar.Host.Libs.{debug}
use js_sidecar.Host.Protocol.{
  host_message_type, payload_length, parse_data, read_from, write_to, to_buffer, fill_buffer,
  serialize,
}
use js_sidecar.Host.Reader.{reads_all, reader_task}
use js_sidecar.Host.Connection.{
  Managed, recycle, run_script_and_wait, run_script, apply_recreate, count_call, mark_recycled,
  check_reply, receive_in_time, receive_message, is_pong, ping, take_ids, increment,
  send as send_to_worker,
}
use js_sidecar.Host.Connection.Send.{HasIds, ping_message}
use js_sidecar.Host.Connection.Wait.{verdict, contents}
use js_sidecar.Worker.ApiTypes.{worker_to_host_value, run_response, pong}
use js_sidecar.Worker.Sender.{sent_frame, send_message, write_u32_le}
use js_sidecar.Worker.Node.{RunResponse as Response}
use js_sidecar.Worker.Protocol.{IncomingMessage}
use js_sidecar.Worker.Protocol.Frames.{received}
use js_sidecar.Host.Protocol.Write.{frame_of}
use js_sidecar.Worker.RunScript.{
  create_context, find_context, define_functions, define_modules, compile_expr, get_code, on_heap,
  keep_code, with_console, send_logs,
}
use js_sidecar.Worker.Handler.{handle_raw_message, settle, respond, send}
use js_sidecar.Worker.Handler.Answers.{Answered}
use js_sidecar.Worker.Tasks.{
  staged, settles, World, Reach, connected, turns, arrives, arrive, resume_task, begin, begin_expr,
  finish, resume,
}
use js_sidecar.Worker.Tasks.Overtake.{request_of, pinged, resumed, answered}
use js_sidecar.Link.Conversation.{IsReadable, messages_of}
use js_sidecar.Link.Overtaken.{run_script_and_wait-recycle}
use js_sidecar.Tests.Toy.{toy, toy_words, toy_reads, toy_queued, toy_closed, toy-Delivers}
use js_sidecar.Tests.Conn.{plain}
use js_sidecar.Tests.Worker.{small_node, session}
use js_sidecar.Tests.Tasks.{promising, waiting_task, w1, script_message}

abbrev answer : Frame
answer = sent_frame 2 5 run_response (8 ∷ [])

abbrev delivered : List (WorkerToHostMessage ℕ)
delivered =
    record { request_id = 6; message_id = 1; content = Pong }
    ∷ record {
      request_id = 5;
      message_id = 2;
      content = RunResponse (record { globals = []; return_value = none });
    }
    ∷ []

-- The connection of a caller who started a script under the ID 5 and is gone.
abbrev abandoned : Managed toy
abandoned = record {
  recycle_calls = 0;
  recycle_success = 0;
  conn = record {
    stream = [];
    receiver = (delivered, false);
    next_id = 6;
    next_req_id = 6;
    recreate_context_on_next = false;
  };
}

abbrev result : Outcome String (Option (Response ℕ))
result = ok (some (record { globals = some []; return_value = some 4 }))

abbrev ping_in : IncomingMessage
ping_in = received (frame_of (ping_message abandoned.conn) [])

abbrev w2 : World small_node
w2 = pinged small_node promising [] [] waiting_task (ok (some 4)) result ping_in w1

abbrev w3 : World small_node
w3 = answered small_node promising [] [] waiting_task (ok (some 4)) result ping_in w1

-- All that runs in the worker.
unfoldable late : Answered (request_of waiting_task) w2.session.sender w3.session.sender
unfolding arrive resume_task begin begin_expr finish resume handle_raw_message create_context
    find_context define_functions define_modules compile_expr get_code on_heap keep_code
    with_console send_logs settle respond send send_message write_u32_le worker_to_host_value
    host_message_type encode to_le_bytes
late = record {
  lines = [];
  logs = tt;
  answer = answer;
  encodable = record {
    request_fits = omega arith;
    message_fits = omega arith;
    type_fits = omega arith;
    length_fits = omega arith;
  };
  to_request = refl;
  right = inl refl;
  on_wire = refl;
  rising = omega arith;
}

logs_readable : All (IsReadable toy) late.lines
unfolding late
logs_readable = tt

answer_readable : IsReadable toy late.answer
unfolding late parse_data worker_to_host_value
answer_readable = (RunResponse (record { globals = []; return_value = none }), refl)

unfoldable sent_bytes : List ℕ
sent_bytes = encode (sent_frame 1 6 pong []) ++ encode answer

waiting : w1.tasks ≡ waiting_task ∷ []
unfolding arrive begin create_context find_context define_functions define_modules begin_expr
    compile_expr get_code on_heap keep_code with_console send_logs send_message write_u32_le
    worker_to_host_value
waiting = refl

worker_runs :
    (staged small_node (resume small_node promising waiting_task.stage (ok (some 4)) w2.session).0
      ≡ settles result)
    × ((settle small_node 5 result
          (resumed small_node promising [] [] waiting_task
            (ok (some 4))
            result
            ping_in
            w1).session).0
        ≡ ok tt)
    × (w1.session.sender.id < 2 ^ 32)
    × (w3.session.sender.sent ≡ w1.session.sender.sent ++ sent_bytes)
unfolding arrive resume_task begin begin_expr finish resume handle_raw_message create_context
    find_context define_functions define_modules compile_expr get_code on_heap keep_code
    with_console send_logs settle respond send send_message write_u32_le worker_to_host_value
    host_message_type sent_bytes encode to_le_bytes
worker_runs = (refl, refl, omega arith, refl)

heard :
    delivered
    ≡ (reader_task toy debug
        (reads_all (sent_frame 1 6 pong [] ∷ late.lines ++ late.answer ∷ []) [])
        sent_bytes).delivered
unfolding late sent_bytes reader_task read_from payload_length u32_at parse_data encode to_le_bytes
    worker_to_host_value
heard = refl

recycled_ids : HasIds (recycle toy debug false abandoned).1.conn
unfolding recycle count_call mark_recycled check_reply receive_in_time receive_message is_pong ping
    take_ids increment send_to_worker write_to to_buffer fill_buffer payload_length serialize
    host_message_type
recycled_ids = record { request_left = omega arith; message_left = omega arith }

starts : (run_script toy debug plain (recycle toy debug false abandoned).1.conn).0 ≡ ok tt
unfolding recycle count_call mark_recycled check_reply receive_in_time receive_message is_pong ping
    take_ids increment send_to_worker write_to to_buffer fill_buffer payload_length serialize
    host_message_type run_script apply_recreate
starts = refl

run_script_and_wait-recycle_example :
    Reach small_node session w3 ([] ++ 6 ∷ []) (5 ∷ [])
    × ((recycle toy debug false abandoned).0 ≡ ok tt)
    × ((run_script_and_wait toy 2 debug plain (recycle toy debug false abandoned).1.conn).0
        ≡ verdict toy (contents (messages_of toy late.lines logs_readable)) answer_readable.0)
    × (late.answer.request_id < (recycle toy debug false abandoned).1.conn.next_req_id)
run_script_and_wait-recycle_example =
    run_script_and_wait-recycle toy (λ r. r) toy_reads toy_queued toy_closed toy-Delivers toy_words
      debug small_node promising [] [] waiting_task (ok (some 4)) result w1 abandoned late
      logs_readable answer_readable session [] (5 ∷ []) sent_bytes plain 2
      (turns connected (arrives promising script_message cc)) waiting worker_runs.0 worker_runs.1
      worker_runs.2 (omega arith)
      (record { request_left = omega arith; message_left = omega arith }) recycled_ids refl
      worker_runs.3 heard starts (unfold late in omega arith)
