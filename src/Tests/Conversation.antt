-- ===== src/Tests/Conversation.antt =====
-- A script that logs a line and returns a value, from `run_script_and_wait` to the worker and back.
use js_sidecar.Prelude.{◌≡◌, refl, inl, false, List, [], ◌∷◌, ◌++◌, none, All, arith, ℕ}
use js_sidecar.Bytes.{to_le_bytes, u32_at}
use js_sidecar.Frame.{Frame, encode}
use js_sidecar.Host.Messages.{WorkerToHostMessage, run_response as RunResponse, log as Log}
use js_sidecar.Host.Libs.{debug}
use js_sidecar.Host.Protocol.{host_message_type, payload_length, parse_data, read_from}
use js_sidecar.Host.Protocol.Write.{frame_of}
use js_sidecar.Host.Reader.{reads_all, reader_task}
use js_sidecar.Host.Connection.{Connection, run_script_and_wait}
use js_sidecar.Host.Connection.Send.{script_message}
use js_sidecar.Host.Connection.Wait.{verdict, contents}
use js_sidecar.Worker.ApiTypes.{worker_to_host_value, log, run_response}
use js_sidecar.Worker.Sender.{new_sender, sent_frame, send_message, write_u32_le}
use js_sidecar.Worker.Protocol.Frames.{received}
use js_sidecar.Worker.RunScript.{
  create_context, find_context, new_context, save, define_functions, define_modules, run_script,
  run_expr, compile_expr, get_code, on_heap, keep_code, with_console, send_logs,
}
use js_sidecar.Worker.Handler.{
  handle_raw_message, handle_message, handle_run_script, settle, respond, send,
}
use js_sidecar.Worker.Handler.Answers.{Answered}
use js_sidecar.Link.Conversation.{IsReadable, messages_of, run_script_and_wait-handle_raw_message}
use js_sidecar.Tests.Toy.{toy, toy_words, toy_reads, toy_queued, toy_closed, toy-Delivers}
use js_sidecar.Tests.Conn.{plain}
use js_sidecar.Tests.Worker.{small_node, session}

abbrev pub line : Frame
line = sent_frame 0 2 log (7 ∷ [])

abbrev pub answer : Frame
answer = sent_frame 1 3 run_response (8 ∷ [])

abbrev pub delivered : List (WorkerToHostMessage ℕ)
delivered =
    record {
      request_id = 2;
      message_id = 0;
      content = Log (record { level = "info"; message = 1 });
    }
    ∷ record {
      request_id = 3;
      message_id = 1;
      content = RunResponse (record { globals = []; return_value = none });
    }
    ∷ []

abbrev conn : Connection toy
conn = record {
  stream = [];
  receiver = (delivered, false);
  next_id = 8;
  next_req_id = 3;
  recreate_context_on_next = false;
}

unfoldable conversation :
    let m = received (frame_of (script_message conn plain) (0 ∷ [])) in
    Answered m new_sender (handle_raw_message small_node m session).1.sender
unfolding handle_raw_message handle_message handle_run_script run_script create_context find_context
    new_context save define_functions define_modules run_expr compile_expr get_code on_heap
    keep_code with_console send_logs settle respond send send_message write_u32_le
    worker_to_host_value host_message_type encode to_le_bytes
conversation = record {
  lines = line ∷ [];
  logs = (
    (
      refl,
      record {
        request_fits = omega arith;
        message_fits = omega arith;
        type_fits = omega arith;
        length_fits = omega arith;
      },
    ),
    tt,
  );
  answer = answer;
  encodable = record {
    request_fits = omega arith;
    message_fits = omega arith;
    type_fits = omega arith;
    length_fits = omega arith;
  };
  to_request = refl;
  right = inl refl;
  on_wire = refl;
  rising = omega arith;
}

logs_readable : All (IsReadable toy) conversation.lines
unfolding conversation parse_data worker_to_host_value
logs_readable = ((Log (record { level = "info"; message = 1 }), refl), tt)

answer_readable : IsReadable toy conversation.answer
unfolding conversation parse_data worker_to_host_value
answer_readable = (RunResponse (record { globals = []; return_value = none }), refl)

unfoldable pub sent_bytes : List ℕ
sent_bytes = encode line ++ encode answer

on_wire :
    let m = received (frame_of (script_message conn plain) (0 ∷ [])) in
    (handle_raw_message small_node m session).1.sender.sent ≡ [] ++ sent_bytes
unfolding conversation sent_bytes
on_wire = refl

heard :
    delivered
    ≡ (reader_task toy debug
        (reads_all (conversation.lines ++ conversation.answer ∷ []) [])
        sent_bytes).delivered
unfolding conversation sent_bytes reader_task read_from payload_length u32_at parse_data encode
    to_le_bytes worker_to_host_value
heard = refl

run_script_and_wait-handle_raw_message_example :
    (run_script_and_wait toy 3 debug plain conn).0
    ≡ verdict toy (contents (messages_of toy conversation.lines logs_readable)) answer_readable.0
run_script_and_wait-handle_raw_message_example =
    run_script_and_wait-handle_raw_message toy (λ r. r) toy_reads toy_queued toy_closed toy-Delivers
      toy_words debug small_node conn plain (0 ∷ []) session conversation logs_readable
      answer_readable sent_bytes 3
      (record { request_left = omega arith; message_left = omega arith }) refl (omega arith) refl
      on_wire heard (unfold conversation in omega arith)
