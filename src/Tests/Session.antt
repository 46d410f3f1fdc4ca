-- ===== src/Tests/Session.antt =====
-- A connection that runs a script, is recycled, and runs a script for its next caller.
use js_sidecar.Prelude.{ℕ, ◌≡◌, refl, inl, false, List, [], ◌∷◌, ◌++◌, none, some, arith}
use js_sidecar.Prelude.Outcome.{ok}
use js_sidecar.Bytes.{to_le_bytes, u32_at}
use js_sidecar.Frame.{encode, stream}
use js_sidecar.Host.Messages.{
  WorkerToHostMessage, WorkerToHostMessageData, run_response as RunResponse, log as Log,
  pong as Pong,
}
use js_sidecar.Host.Libs.{debug}
use js_sidecar.Host.Protocol.{payload_length, parse_data, read_from}
use js_sidecar.Host.Reader.{reads_all, reader_task}
use js_sidecar.Host.Connection.{Managed}
use js_sidecar.Worker.ApiTypes.{worker_to_host_value, log, run_response}
use js_sidecar.Worker.Sender.{sent_frame, send_message, write_u32_le}
use js_sidecar.Worker.Protocol.Frames.{received}
use js_sidecar.Worker.RunScript.{
  Session, create_context, find_context, new_context, save, define_functions, define_modules,
  run_script, run_expr, compile_expr, get_code, on_heap, keep_code, with_console, send_logs,
}
use js_sidecar.Worker.Handler.{
  handle_raw_message, handle_message, handle_run_script, settle, respond, send,
}
use js_sidecar.Worker.Handler.Answers.{Answered}
use js_sidecar.Link.Session.{
  Talk, over, ran, recycled, script_frame, ping_frame, use_all, uses, answers, requests, replies,
  worker_after,
}
use js_sidecar.Link.Session.Answers.{use_all-answers}
use js_sidecar.Tests.Toy.{
  toy, toy_words, toy_writes, toy_reads, toy_queued, toy_closed, toy-Delivers,
}
use js_sidecar.Tests.Conn.{plain}
use js_sidecar.Tests.Worker.{small_node, session}

abbrev after_first : Session small_node
after_first = (handle_raw_message small_node (received (script_frame 3 8 (0 ∷ []))) session).1

abbrev after_ping : Session small_node
after_ping = (handle_raw_message small_node (received (ping_frame 4 9)) after_first).1

abbrev after_second : Session small_node
after_second = (handle_raw_message small_node (received (script_frame 5 10 (1 ∷ []))) after_ping).1

-- The first script runs in a context of an earlier request, whose ID its log line has.
unfoldable first : Answered (received (script_frame 3 8 (0 ∷ []))) session.sender after_first.sender
unfolding handle_raw_message handle_message handle_run_script run_script create_context find_context
    new_context save define_functions define_modules run_expr compile_expr get_code on_heap
    keep_code with_console send_logs settle respond send send_message write_u32_le
    worker_to_host_value encode to_le_bytes
first = record {
  lines = sent_frame 0 2 log (7 ∷ []) ∷ [];
  logs = ((refl, omega arith), tt);
  answer = sent_frame 1 3 run_response (8 ∷ []);
  encodable = omega arith;
  to_request = refl;
  right = inl refl;
  on_wire = refl;
  rising = omega arith;
}

unfoldable second :
    Answered (received (script_frame 5 10 (1 ∷ []))) after_ping.sender after_second.sender
unfolding handle_raw_message handle_message handle_run_script run_script create_context find_context
    new_context save define_functions define_modules run_expr compile_expr get_code on_heap
    keep_code with_console send_logs settle respond send send_message write_u32_le
    worker_to_host_value encode to_le_bytes
second = record {
  lines = sent_frame 3 5 log (7 ∷ []) ∷ [];
  logs = ((refl, omega arith), tt);
  answer = sent_frame 4 5 run_response (8 ∷ []);
  encodable = omega arith;
  to_request = refl;
  right = inl refl;
  on_wire = refl;
  rising = omega arith;
}

abbrev logged : WorkerToHostMessageData ℕ
logged = Log (record { level = "info"; message = 1 })

abbrev responded : WorkerToHostMessageData ℕ
responded = RunResponse (record { globals = []; return_value = none })

unfoldable life : Talk toy small_node 2 3 8 false session
unfolding first second parse_data worker_to_host_value handle_raw_message handle_message
    handle_run_script run_script create_context find_context new_context save define_functions
    define_modules run_expr compile_expr get_code on_heap keep_code with_console send_logs settle
    respond send send_message write_u32_le
life =
    ran plain (0 ∷ []) first ((logged, refl), tt) (responded, refl) refl (omega arith) (omega arith)
      (omega arith) (omega arith)
      (recycled (omega arith) (omega arith) (omega arith) (
        ran plain (1 ∷ []) second ((logged, refl), tt) (responded, refl) refl (omega arith)
          (omega arith) (omega arith) (omega arith) over))

abbrev message : ℕ → ℕ → WorkerToHostMessageData ℕ → WorkerToHostMessage ℕ
message id request content = record { request_id = request; message_id = id; content = content }

abbrev managed : Managed toy
managed = record {
  recycle_calls = 0;
  recycle_success = 0;
  conn = record {
    stream = [];
    receiver = (
      message 0 2 logged
          ∷ message 1 3 responded
          ∷ message 2 4 Pong
          ∷ message 3 5 logged
          ∷ message 4 5 responded
          ∷ [],
      false,
    );
    next_id = 8;
    next_req_id = 3;
    recreate_context_on_next = false;
  };
}

unfoldable sent_bytes : List ℕ
sent_bytes = stream (replies life)

on_wire : (worker_after life).sender.sent ≡ [] ++ sent_bytes
unfolding life sent_bytes first second encode to_le_bytes handle_raw_message handle_message
    handle_run_script run_script create_context find_context new_context save define_functions
    define_modules run_expr compile_expr get_code on_heap keep_code with_console send_logs settle
    respond send send_message write_u32_le worker_to_host_value
on_wire = refl

heard :
    managed.conn.receiver.0
    ≡ (reader_task toy debug (reads_all (replies life) []) sent_bytes).delivered
unfolding life first second sent_bytes reader_task read_from payload_length u32_at parse_data encode
    to_le_bytes worker_to_host_value handle_raw_message handle_message handle_run_script run_script
    create_context find_context new_context save define_functions define_modules run_expr
    compile_expr get_code on_heap keep_code with_console send_logs settle respond send send_message
    write_u32_le
heard = refl

use_all-answers_example :
    ((use_all toy 2 debug (uses life) managed).0 ≡ answers life)
    × ((use_all toy 2 debug (uses life) managed).1.conn.stream ≡ [] ++ stream (requests life))
use_all-answers_example =
    use_all-answers toy toy_queued toy_closed toy-Delivers toy_words debug (λ bytes w. refl)
      small_node 2 (λ w. w) toy_writes (λ r. r) toy_reads managed session life sent_bytes on_wire
      heard

-- The answers, in full: the scripts of both callers, each with its log line, and the recycling.
answers_in_full :
    answers life
    ≡ ok (
        some (record {
          response = record { globals = []; return_value = none };
          messages = logged ∷ [];
        }))
      ∷ ok none
      ∷ ok (
          some (record {
            response = record { globals = []; return_value = none };
            messages = logged ∷ [];
          }))
      ∷ []
unfolding life first second
answers_in_full = refl
