-- ===== src/Tests/Requests.antt =====
-- A script and a ping on one connection, and the frames that come back.
use mathlib.Core.List.{flatten}
use js_sidecar.Prelude.{
  ℕ, ◌≡◌, refl, sym, subst, List, [], ◌∷◌, append-nil, All, arith, some, Option, String,
}
use js_sidecar.Prelude.Outcome.{Outcome, ok}
use js_sidecar.Bytes.{u32_at, to_le_bytes, subarray, read_u32_le}
use js_sidecar.Frame.{Frame, stream}
use js_sidecar.Host.Libs.{debug}
use js_sidecar.Host.Protocol.{
  write_to, to_buffer, fill_buffer, payload_length, serialize, host_message_type,
}
use js_sidecar.Host.Connection.{
  run_script as run_on_host, apply_recreate, take_ids, increment, send as send_to_worker, ping,
}
use js_sidecar.Host.Connection.Requests.{request_all, request}
use js_sidecar.Worker.ApiTypes.{worker_to_host_value}
use js_sidecar.Worker.Protocol.{
  IncomingMessage, fresh, handle_chunks, handle_data, message_loop, turn, take_length, take_message,
  read_header,
}
use js_sidecar.Worker.Node.{RunResponse}
use js_sidecar.Worker.Sender.{send_message, write_u32_le}
use js_sidecar.Worker.RunScript.{
  create_context, find_context, new_context, save, define_functions, define_modules, compile_expr,
  get_code, on_heap, keep_code, with_console, send_logs,
}
use js_sidecar.Worker.Handler.{handle_raw_message, settle, respond, send}
use js_sidecar.Worker.Tasks.{
  World, settles, begin, begin_expr, finish, arrive, settled, Reach, connected,
}
use js_sidecar.Worker.Tasks.Served.{quiet}
use js_sidecar.Worker.Tasks.Events.{IsReply}
use js_sidecar.Worker.Tasks.Intake.{take_one, take_in, take_in-Reach, pings_in, others_in}
use js_sidecar.Link.Requests.{AnsweredOnce, request_all-AnsweredOnce}
use js_sidecar.Tests.Toy.{toy, toy_words, toy_writes}
use js_sidecar.Tests.Conn.{two, marked, sent_bytes, plain-Fits, both_sent}
use js_sidecar.Tests.Worker.{small_node, session}
use js_sidecar.Tests.Tasks.{plain_turn}

abbrev script_3 : IncomingMessage
script_3 = record { id = 8; req_id = 3; type = 0; body = 1 ∷ [] }

abbrev ping_4 : IncomingMessage
ping_4 = record { id = 9; req_id = 4; type = 1; body = [] }

emitted : (handle_chunks fresh (sent_bytes ∷ [])).emitted ≡ script_3 ∷ ping_4 ∷ []
unfolding handle_chunks handle_data message_loop turn take_length take_message read_header u32_at
    read_u32_le request_all request run_on_host apply_recreate take_ids increment send_to_worker
    ping write_to to_buffer fill_buffer payload_length serialize host_message_type subarray
    to_le_bytes
emitted = refl

abbrev w0 : World small_node
w0 = record { session = session; tasks = [] }

abbrev w2 : World small_node
w2 = (take_in small_node plain_turn (script_3 ∷ ping_4 ∷ []) w0).1

handed : (take_in small_node plain_turn (script_3 ∷ ping_4 ∷ []) w0).0 ≡ ok tt
unfolding take_in take_one handle_raw_message arrive begin begin_expr finish create_context
    find_context new_context save define_functions define_modules compile_expr get_code on_heap
    keep_code with_console send_logs settle respond send send_message write_u32_le
    worker_to_host_value
handed = refl

abbrev result : Outcome String (Option (RunResponse ℕ))
result = ok (some (record { globals = some []; return_value = some 1 }))

abbrev w3 : World small_node
w3 = record { session = (settle small_node 3 result w2.session).1; tasks = [] }

settles_one :
    (w2.tasks ≡ record { req_id = 3; stage = settles result } ∷ [])
    × ((settle small_node 3 result w2.session).0 ≡ ok tt)
unfolding take_in take_one handle_raw_message arrive begin begin_expr finish create_context
    find_context new_context save define_functions define_modules compile_expr get_code on_heap
    keep_code with_console send_logs settle respond send send_message write_u32_le
    worker_to_host_value
settles_one = (refl, refl)

reached : Reach small_node session w3 (4 ∷ []) (3 ∷ [])
reached =
    quiet small_node session
      (take_in-Reach small_node plain_turn session (script_3 ∷ ping_4 ∷ []) w0 [] [] connected
        handed)
      (settled [] [] (record { req_id = 3; stage = settles result }) result settles_one.0 refl
        settles_one.1)

request_all-AnsweredOnce_example :
    (frames : List Frame) × (w3.session.sender.sent ≡ stream frames)
    × All IsReply frames
    × AnsweredOnce frames 3 two
request_all-AnsweredOnce_example =
    request_all-AnsweredOnce toy debug toy_words (λ w. w) toy_writes small_node session w3 two
      marked (sent_bytes ∷ []) (omega arith) (omega arith) (plain-Fits, (tt, tt)) refl both_sent
      (unfold flatten in append-nil sent_bytes) refl
      (subst (λ ms. Reach small_node session w3 (pings_in ms) (others_in ms)) (sym emitted) reached)
      refl
