-- ===== src/Tests/Worker.antt =====
-- The handlers of src/worker/src/worker.ts and the script runner on a small stand-in for node:vm.
use js_sidecar.Prelude.{
  ℕ, ◌+◌, ◌≡◌, refl, Bool, true, false, none, some, List, [], ◌∷◌, String, ◌==◌,
}
use js_sidecar.Prelude.Outcome.{Outcome, ok, err}
use js_sidecar.Worker.Sender.{new_sender, send_message, write_u32_le}
use js_sidecar.Worker.ApiTypes.{worker_to_host_value}
use js_sidecar.Worker.Protocol.{IncomingMessage}
use js_sidecar.Worker.Node.{Node, RunScriptArgs}
use js_sidecar.Worker.RunScript.{
  RunContext, Session, create_context, find_context, new_context, define_functions, define_modules,
  save, run_script, run_expr, compile_expr, get_code, on_heap, keep_code, with_console, send_logs,
}
use js_sidecar.Worker.RunScript.Console.{LoggedUnder, run_script-console}
use js_sidecar.Worker.Handler.{
  handle_raw_message, handle_message, handle_run_script, settle, respond, report, send,
}
use js_sidecar.Worker.Handler.Answers.{Answered, handle_raw_message-Answered}
use js_sidecar.Worker.Logged.{Logged}
use js_sidecar.Worker.Handler.Failures.{handle_raw_message_throws}

abbrev pub script_args : Bool → RunScriptArgs ℕ
script_args recreate = record {
  name = "";
  code = some "1 + 1";
  recreate_context = some recreate;
  expr = some true;
  globals = some [];
  timeout_ms = none;
  functions = none;
  modules = none;
  return_keys = none;
}

abbrev parse_toy : List ℕ → Outcome String (RunScriptArgs ℕ)
parse_toy (b ∷ []) = ok (script_args (b == 1))
parse_toy bytes = err "SyntaxError"

-- Contexts are numbered, and a script logs one line and returns the number of its context.
abbrev pub small_node : Node
small_node = record {
  Value = ℕ;
  Thrown = String;
  thrown = λ e. "RangeError";
  parse = parse_toy;
  response_json = λ response. ok (8 ∷ []);
  error_json = λ e. ok (9 ∷ []);
  Heap = ℕ;
  Context = ℕ;
  Module = Unit {0};
  Script = Unit {0};
  Data = Unit {0};
  create_context = λ globals heap. (heap, heap + 1);
  set_key = λ context key value heap. heap;
  get_keys = λ context keys heap. [];
  compile_function = λ code params context cached heap. (ok 0, heap);
  source_text_module = λ code name context cached heap. (ok tt, heap);
  module_data = λ compiled. none;
  script = λ code name cached heap. (ok tt, heap);
  script_data = λ compiled. tt;
  run_in_context = λ compiled context timeout heap. (ok context, (7 ∷ []) ∷ [], heap);
  link = λ compiled modules heap. (ok tt, heap);
  evaluate = λ compiled heap. (ok tt, [], heap);
  Cache = Unit {0};
  get = λ key cache. (none, cache);
  set = λ key value cache. cache;
}

abbrev pub old_context : RunContext small_node
old_context = record { modules = []; context = 0; console_req_id = 2 }

abbrev pub session : Session small_node
session = record { sender = new_sender; run_ctx = some old_context; heap = 1; code_cache = tt }

run_script-console_example :
    LoggedUnder 2 new_sender (run_script small_node 5 (script_args false) session).1.sender
run_script-console_example =
    run_script-console small_node 5 (script_args false) session old_context refl refl

abbrev pub script_message_5 : IncomingMessage
script_message_5 = record { id = 5; req_id = 5; type = 0; body = 1 ∷ [] }

handled : (handle_raw_message small_node script_message_5 session).0 ≡ ok tt
unfolding handle_raw_message handle_message handle_run_script run_script create_context find_context
    new_context save define_functions define_modules run_expr compile_expr get_code on_heap
    keep_code with_console send_logs settle respond send send_message write_u32_le
    worker_to_host_value
handled = refl

handle_raw_message-Answered_example :
    Answered script_message_5 new_sender
      (handle_raw_message small_node script_message_5 session).1.sender
handle_raw_message-Answered_example =
    handle_raw_message-Answered small_node script_message_5 session handled

-- What is thrown cannot be put into JSON.
abbrev null_thrower : Node
null_thrower = record small_node { error_json = λ e. err "TypeError" }

abbrev null_session : Session null_thrower
null_session = record { sender = new_sender; run_ctx = none; heap = 0; code_cache = tt }

abbrev no_script : IncomingMessage
no_script = record { id = 6; req_id = 6; type = 0; body = [] }

thrown_again : (handle_raw_message null_thrower no_script null_session).0 ≡ err "TypeError"
unfolding handle_raw_message handle_message handle_run_script settle report
thrown_again = refl

handle_raw_message_throws_example :
    Logged new_sender (handle_raw_message null_thrower no_script null_session).1.sender
handle_raw_message_throws_example =
    handle_raw_message_throws null_thrower no_script null_session "TypeError" thrown_again
