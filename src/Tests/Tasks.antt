-- ===== src/Tests/Tasks.antt =====
-- A ping that is answered while a script of the same connection waits for its promise.
use mathlib.Core.List.{filter_map}
use js_sidecar.Prelude.{
  ◌≤◌, ◌+◌, ◌^◌, ◌*◌, ◌⊎◌, length, arith, ◌++◌, All, ◌≡◌, refl, false, none, some, List, [], ◌∷◌,
}
use js_sidecar.Prelude.Outcome.{ok}
use js_sidecar.Frame.{Frame, stream}
use js_sidecar.Worker.Sender.{send_message, write_u32_le}
use js_sidecar.Worker.ApiTypes.{worker_to_host_value}
use js_sidecar.Worker.Protocol.{IncomingMessage}
use js_sidecar.Worker.RunScript.{
  create_context, find_context, define_functions, define_modules, compile_expr, get_code, on_heap,
  keep_code, with_console, send_logs,
}
use js_sidecar.Worker.Handler.{handle_raw_message, settle, respond, send}
use js_sidecar.Worker.Tasks.{
  awaits_value, settles, Task, World, Turn, finish, begin_expr, begin, resume, arrive, resume_task,
  pings, arrives, resumes, settled, Reach, connected, turns,
}
use js_sidecar.Worker.Tasks.Events.{IsReply, req_ids}
use js_sidecar.Worker.Tasks.Service.{Implements, Reach-Implements}
use js_sidecar.Worker.Tasks.Served.{Served, begun, woken}
use js_sidecar.Worker.Tasks.Progress.{advance, Throws, AllAnswered, Served-ends}
use js_sidecar.Worker.Logged.{Rising}
use js_sidecar.Worker.Tasks.Numbered.{Reach-numbered}
use js_sidecar.Worker.Tasks.Pending.{requests_of, pong_id, answer_id, Reach-pending}
use js_sidecar.Tests.Worker.{small_node, session, script_args, old_context, script_message_5}

-- Every script gives a promise.
abbrev pub promising : Turn small_node
promising = record {
  run_script = λ compiled context timeout heap. (ok none, (7 ∷ []) ∷ [], heap);
  link = λ compiled modules heap. heap;
  evaluate = λ compiled heap. (ok tt, [], heap);
}

abbrev ping_6 : IncomingMessage
ping_6 = record { id = 6; req_id = 6; type = 1; body = [] }

abbrev pub waiting_task : Task small_node
waiting_task = record { req_id = 5; stage = awaits_value old_context (script_args false) }

abbrev stopped : Task small_node
stopped = record {
  req_id = 5;
  stage = settles (ok (some (record { globals = some []; return_value = some 4 })));
}

abbrev pub script_message : IncomingMessage
script_message = record script_message_5 { body = 0 ∷ [] }

abbrev w0 : World small_node
w0 = record { session = session; tasks = [] }

abbrev pub w1 : World small_node
w1 = arrive small_node promising script_message w0

abbrev w2 : World small_node
w2 = record w1 { session = (handle_raw_message small_node ping_6 w1.session).1 }

abbrev w3 : World small_node
w3 = resume_task small_node promising [] waiting_task [] (ok (some 4)) w2

abbrev w4 : World small_node
w4 = record {
  session =
      (settle small_node 5 (ok (some (record { globals = some []; return_value = some 4 })))
        w3.session).1;
  tasks = [];
}

reached_before : Reach small_node session w2 (6 ∷ []) (5 ∷ [])
unfolding arrive resume_task begin begin_expr finish resume handle_raw_message create_context
    find_context define_functions define_modules compile_expr get_code on_heap keep_code
    with_console send_logs settle respond send send_message write_u32_le worker_to_host_value
reached_before =
    turns (turns connected (arrives promising script_message cc)) (pings ping_6 refl refl)

reached : Reach small_node session w4 (6 ∷ []) (5 ∷ [])
unfolding arrive resume_task begin begin_expr finish resume handle_raw_message create_context
    find_context define_functions define_modules compile_expr get_code on_heap keep_code
    with_console send_logs settle respond send send_message write_u32_le worker_to_host_value
reached = turns (turns reached_before (resumes promising [] [] waiting_task (ok (some 4)) refl)) (
    settled [] [] stopped (ok (some (record { globals = some []; return_value = some 4 }))) refl
      refl refl)

Reach-Implements_example : Implements (6 ∷ []) (5 ∷ []) w4
Reach-Implements_example = Reach-Implements small_node session w4 (6 ∷ []) (5 ∷ []) refl reached

Reach-pending_example :
    (frames : List Frame) × (w4.session.sender.sent ≡ stream frames)
    × All IsReply frames
    × (filter_map pong_id frames ≡ 6 ∷ [])
    × (requests_of (filter_map answer_id frames ++ req_ids w4.tasks) ≡ requests_of (5 ∷ []))
Reach-pending_example = Reach-pending small_node session w4 (6 ∷ []) (5 ∷ []) refl reached

Reach-numbered_example :
    (frames : List Frame) × (w4.session.sender.sent ≡ stream frames)
    × All IsReply frames
    × Rising 0 frames w4.session.sender.id
    × (length frames ≤ 2 ^ 32)
    × (2 ≤ 2 ^ 32 + length (req_ids w4.tasks))
Reach-numbered_example = Reach-numbered small_node session w4 (6 ∷ []) (5 ∷ []) refl reached

-- Every script gives a value.
abbrev pub plain_turn : Turn small_node
plain_turn = record {
  run_script = λ compiled context timeout heap. (ok (some context), (7 ∷ []) ∷ [], heap);
  link = λ compiled modules heap. heap;
  evaluate = λ compiled heap. (ok tt, [], heap);
}

w2_tasks : w2.tasks ≡ waiting_task ∷ []
unfolding arrive begin create_context find_context define_functions define_modules begin_expr
    compile_expr get_code on_heap keep_code with_console send_logs send_message write_u32_le
    worker_to_host_value
w2_tasks = refl

served : Served small_node w2 1 w3
served = woken promising [] [] waiting_task (ok (some 4)) begun w2_tasks (omega arith)

Served-ends_example :
    (1 ≤ 3 * length w2.tasks)
    × (AllAnswered (6 ∷ []) (5 ∷ []) w3
        ⊎ (Served small_node w2 2 (advance small_node promising (ok none) w3)
            ⊎ Throws small_node w3))
Served-ends_example =
    Served-ends small_node session w2 w3 (6 ∷ []) (5 ∷ []) 1 promising (ok none) refl reached_before
      served
