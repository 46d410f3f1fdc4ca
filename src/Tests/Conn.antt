-- ===== src/Tests/Conn.antt =====
-- `Connection` and `recycle` of src/connection.rs on concrete connections.
use js_sidecar.Prelude.{
  ℕ, ◌+◌, ◌<◌, ◌^◌, ◌≡◌, refl, Bool, true, false, none, some, List, [], ◌∷◌, String, length, arith,
  if◌then◌else◌,
}
use js_sidecar.Prelude.Outcome.{Outcome, ok, err, pending}
use js_sidecar.Host.Libs.{debug, release, ready}
use js_sidecar.Host.Messages.{
  RunScriptArgs, default_args, RunResponseData, WorkerToHostMessage, run_response, log, pong,
}
use js_sidecar.Host.Error.{script_ended_early}
use js_sidecar.Host.Protocol.{
  host_message_type, serialize, payload_length, fill_buffer, to_buffer, write_to,
}
use js_sidecar.Host.Connection.{
  Connection, Managed, increment, take_ids, send, apply_recreate, run_script, ping, receive_message,
  receive_in_time, is_pong, count_call, mark_recycled, check_reply, recycle, run_script_and_wait,
}
use js_sidecar.Host.Connection.Send.{HasIds}
use js_sidecar.Host.Connection.Requests.{
  Request, scripts, pings as ping_request, request, request_all, Fits, Framed, request_all-Framed,
}
use js_sidecar.Host.Connection.Wait.{run_script_and_wait_final, run_script_and_wait_unanswered}
use js_sidecar.Host.Connection.Recycle.{IsPongTo, recycle_ok}
use js_sidecar.Tests.Toy.{toy, toy_words, toy_writes, toy_queued, toy_closed, toy-Delivers}

abbrev pub plain : RunScriptArgs ℕ
plain = default_args

-- `toy` cannot serialize these.
abbrev pub unserializable : RunScriptArgs ℕ
unserializable = record plain { expr = true }

abbrev pub pong_to_3 : WorkerToHostMessage ℕ
pong_to_3 = record { request_id = 3; message_id = 0; content = pong }

abbrev log_line : WorkerToHostMessage ℕ
log_line = record {
  request_id = 3;
  message_id = 0;
  content = log (record { level = "info"; message = 7 });
}

abbrev response : RunResponseData ℕ
response = record { globals = []; return_value = none }

-- The answer to some other request.
abbrev stale : WorkerToHostMessage ℕ
stale = record { request_id = 2; message_id = 1; content = run_response response }

abbrev with_inbox : List (WorkerToHostMessage ℕ) → Bool → Connection toy
with_inbox ms closed = record {
  stream = [];
  receiver = (ms, closed);
  next_id = 8;
  next_req_id = 3;
  recreate_context_on_next = false;
}

abbrev pub marked : Connection toy
marked = record (with_inbox [] false) { recreate_context_on_next = true }

abbrev pub managed : Managed toy
managed = record {
  recycle_calls = 4;
  recycle_success = 2;
  conn = with_inbox (pong_to_3 ∷ []) false;
}

pub has_ids : HasIds managed.conn
has_ids = record { request_left = omega arith; message_left = omega arith }

one_byte :
    (x : ℕ) (body : List ℕ)
    → ◌≡◌ {A = Outcome String (List ℕ)} (ok (x ∷ [])) (ok body)
    → length body + 12 < 2 ^ 32
one_byte x body e = grind arith

pub plain-Fits : Fits toy (scripts plain)
plain-Fits b body e = one_byte _ body e

abbrev pub two : List (Request ℕ)
two = scripts plain ∷ ping_request ∷ []

pub both_sent : (request_all toy debug two marked).0 ≡ ok tt
unfolding request_all request run_script apply_recreate take_ids increment send ping write_to
    to_buffer fill_buffer payload_length serialize host_message_type
both_sent = refl

request_all-Framed_example : Framed toy debug toy_words (λ w. w) toy_writes two marked
request_all-Framed_example =
    request_all-Framed toy debug toy_words (λ w. w) toy_writes two marked (omega arith)
      (omega arith) (plain-Fits, (tt, tt)) both_sent

abbrev pub sent_bytes : List ℕ
sent_bytes = (request_all toy debug two marked).1.stream

pub accepted : (recycle toy release false managed).0 ≡ ok tt
unfolding recycle count_call mark_recycled check_reply receive_in_time receive_message is_pong ping
    take_ids increment send write_to to_buffer fill_buffer payload_length serialize
    host_message_type
accepted = refl

recycle_ok_example :
    (false ≡ false)
    × IsPongTo {V = ℕ} 3 (ready (some pong_to_3))
    × ((recycle toy release false managed).1.conn.recreate_context_on_next ≡ true)
recycle_ok_example = recycle_ok toy release false managed has_ids accepted

ids_moved :
    ((recycle toy release false managed).1.conn.next_req_id ≡ 4)
    × ((recycle toy release false managed).1.conn.next_id ≡ 9)
unfolding recycle count_call mark_recycled check_reply receive_in_time receive_message is_pong ping
    take_ids increment send write_to to_buffer fill_buffer payload_length serialize
    host_message_type
ids_moved = (refl, refl)

pub after_recycle : HasIds (recycle toy release false managed).1.conn
after_recycle = record {
  request_left = omega (arith, ids_moved.0);
  message_left = omega (arith, ids_moved.1);
}

abbrev answered : Connection toy
answered = with_inbox (log_line ∷ stale ∷ pong_to_3 ∷ []) false

started : (run_script toy debug plain answered).0 ≡ ok tt
unfolding run_script apply_recreate take_ids increment send write_to to_buffer fill_buffer
    payload_length serialize host_message_type
started = refl

answers_left :
    toy_queued (run_script toy debug plain answered).1.receiver ≡ log_line ∷ stale ∷ pong_to_3 ∷ []
unfolding run_script apply_recreate take_ids increment send write_to to_buffer fill_buffer
    payload_length serialize host_message_type
answers_left = refl

run_script_and_wait_final_example :
    ((run_script_and_wait toy 5 debug plain answered).0
      ≡ ok (record { response = response; messages = log_line.content ∷ [] }))
    × (toy_queued (run_script_and_wait toy 5 debug plain answered).1.receiver ≡ pong_to_3 ∷ [])
run_script_and_wait_final_example =
    run_script_and_wait_final toy toy_queued toy_closed toy-Delivers debug plain answered started
      (log_line ∷ []) (tt, tt) 5 (omega arith) stale (pong_to_3 ∷ []) tt answers_left

abbrev unanswered : Connection toy
unanswered = with_inbox (log_line ∷ []) true

begun : (run_script toy debug plain unanswered).0 ≡ ok tt
unfolding run_script apply_recreate take_ids increment send write_to to_buffer fill_buffer
    payload_length serialize host_message_type
begun = refl

log_left : toy_queued (run_script toy debug plain unanswered).1.receiver ≡ log_line ∷ []
unfolding run_script apply_recreate take_ids increment send write_to to_buffer fill_buffer
    payload_length serialize host_message_type
log_left = refl

run_script_and_wait_unanswered_example : (run_script_and_wait toy 2 debug plain unanswered).0 ≡ (
    if toy_closed (run_script toy debug plain unanswered).1.receiver
    then err script_ended_early
    else pending)
run_script_and_wait_unanswered_example =
    run_script_and_wait_unanswered toy toy_queued toy_closed toy-Delivers debug plain unanswered
      begun (log_line ∷ []) (tt, tt) 2 (omega arith) log_left
