-- ===== src/Worker/Handler/Answers.antt =====
-- What the handlers of src/worker/src/worker.ts answer to a message.
use js_sidecar.Prelude.{
  ℕ, ◌≡◌, ◌⊎◌, inl, inr, refl, sym, ap, subst, ◌∙◌, Bool, Option, none, List, [], ◌∷◌, ◌++◌, arith,
  append_assoc, All, ◌==◌, if◌then◌else◌, Bool-cases, true, false,
}
use js_sidecar.Prelude.Outcome.{Outcome, ok, err, panicked, pending, spent, pure, after}
use js_sidecar.Frame.{Frame, IsEncodable, encode, stream}
use js_sidecar.Worker.ApiTypes.{
  WorkerToHostMessage, run_response, error, pong, worker_to_host_value,
}
use js_sidecar.Worker.Sender.{Sender, sent_frame}
use js_sidecar.Worker.Protocol.{IncomingMessage}
use js_sidecar.Worker.Node.{Node, RunResponse}
use js_sidecar.Worker.RunScript.{Session}
use js_sidecar.Worker.Logged.{
  Sending-cases, went, threw, IsLog, Rising, Rising-append, Silent, Silent-refl, Logged,
}
use js_sidecar.Worker.RunScript.Logs.{Logs, bind-Logs, quiet, pure-Logs, run_script-Logs}
use js_sidecar.Worker.Handler.{
  send, respond, report, handle_message, handle_run_script, caught, settle, handle_raw_message,
}

-- The message types of an answer to a ping, and to any other message.
abbrev pub IsAnswer : ℕ → ℕ → Type 0
IsAnswer asked answered =
    if asked == 1 then answered ≡ 0x1003 else ((answered ≡ 0x1000) ⊎ (answered ≡ 0x1002))

pub ping_answer : (t answered : ℕ) → t ≡ 1 → IsAnswer t answered → answered ≡ 0x1003
ping_answer t answered e = subst (λ u. IsAnswer u answered → answered ≡ 0x1003) (sym e) (λ q. q)

-- From one state of the sender to the other, one frame was sent, under the request ID and with a
-- message type that is right.
pub record Sent (req_id : ℕ) (Right : ℕ → Type 0) (a b : Sender) : Type 0 where
  pub frame : Frame
  pub encodable : IsEncodable frame
  pub to_request : frame.request_id ≡ req_id
  pub right : Right frame.message_type
  pub on_wire : b.sent ≡ a.sent ++ encode frame
  pub rising : Rising a.id (frame ∷ []) b.id

-- Log lines were sent, and behind them one answer to the message.
pub record Answered (m : IncomingMessage) (a b : Sender) : Type 0 where
  pub lines : List Frame
  pub logs : All IsLog lines
  pub answer : Frame
  pub encodable : IsEncodable answer
  pub to_request : answer.request_id ≡ m.req_id
  pub right : IsAnswer m.type answer.message_type
  pub on_wire : b.sent ≡ a.sent ++ (stream lines ++ encode answer)
  pub rising : Rising a.id (lines ++ answer ∷ []) b.id

abbrev pub IsOutcome : ℕ → Type 0
IsOutcome t = (t ≡ 0x1000) ⊎ (t ≡ 0x1002)

module _ (n : Node) (req_id : ℕ) where
  module _ (type : WorkerToHostMessage) (Right : ℕ → Type 0)
      (right : Right (worker_to_host_value type)) where
    send-Sent :
        (message : List ℕ) (s : Session n)
        → (send n req_id type message s).0 ≡ ok tt
        → Sent req_id Right s.sender (send n req_id type message s).1.sender
    unfolding send
    send-Sent message s = elim (Sending-cases req_id type message s.sender) [
      | threw e ↦ rw e (λ h. cc h)
      | went v e ↦ rw e (λ h. record {
        frame = sent_frame s.sender.id req_id type message;
        encodable = v;
        to_request = refl;
        right = right;
        on_wire = refl;
        rising = (omega arith, omega arith);
      })
    ]

    json-Sent :
        (json : Outcome n.Thrown (List ℕ)) (s : Session n)
        → (after json (send n req_id type) s).0 ≡ ok tt
        → Sent req_id Right s.sender (after json (send n req_id type) s).1.sender
    json-Sent (ok message) s h = send-Sent message s h
    json-Sent (err e) s h = cc h
    json-Sent panicked s h = cc h
    json-Sent pending s h = cc h
    json-Sent spent s h = cc h

    pub send_err :
        (message : List ℕ) (e : n.Thrown) (s : Session n)
        → (send n req_id type message s).0 ≡ err e
        → Silent s.sender (send n req_id type message s).1.sender
    unfolding send
    send_err message e s = elim (Sending-cases req_id type message s.sender) [
      | threw q ↦ rw q (λ h. record { on_wire = refl; id_le = omega arith })
      | went v q ↦ rw q (λ h. cc h)
    ]

    pub json_err :
        (json : Outcome n.Thrown (List ℕ)) (e : n.Thrown) (s : Session n)
        → (after json (send n req_id type) s).0 ≡ err e
        → Silent s.sender (after json (send n req_id type) s).1.sender
    json_err (ok message) e s h = send_err message e s h
    json_err (err d) e s h = Silent-refl s.sender
    json_err panicked e s h = Silent-refl s.sender
    json_err pending e s h = Silent-refl s.sender
    json_err spent e s h = Silent-refl s.sender

  report-Sent :
      (e : n.Thrown) (s : Session n) (a : Sender)
      → Silent a s.sender
      → (report n req_id e s).0 ≡ ok tt
      → Sent req_id IsOutcome a (report n req_id e s).1.sender
  unfolding report worker_to_host_value
  report-Sent e s a q h =
      let sent = json-Sent error IsOutcome (inr refl) (n.error_json e) s h in
      record {
        frame = sent.frame;
        encodable = sent.encodable;
        to_request = sent.to_request;
        right = sent.right;
        on_wire = sent.on_wire ∙ ap (λ b. b ++ encode sent.frame) q.on_wire;
        rising = Rising-append [] (sent.frame ∷ []) a.id s.sender.id _ q.id_le sent.rising;
      }

  caught-Sent :
      (r : Outcome n.Thrown (Unit {0})) (s : Session n) (a : Sender)
      → (r ≡ ok tt → Sent req_id IsOutcome a s.sender)
      → ((e : n.Thrown) → r ≡ err e → Silent a s.sender)
      → (caught n req_id r s).0 ≡ ok tt
      → Sent req_id IsOutcome a (caught n req_id r s).1.sender
  caught-Sent (ok tt) s a p q h = p refl
  caught-Sent (err e) s a p q h = report-Sent e s a (q e refl) h
  caught-Sent panicked s a p q h = cc h
  caught-Sent pending s a p q h = cc h
  caught-Sent spent s a p q h = cc h

  pub settle-Sent :
      (response : Outcome n.Thrown (Option (RunResponse n.Value))) (s : Session n)
      → (settle n req_id response s).0 ≡ ok tt
      → Sent req_id IsOutcome s.sender (settle n req_id response s).1.sender
  unfolding settle respond worker_to_host_value
  settle-Sent (ok r) s h =
      caught-Sent _ _ s.sender (json-Sent run_response IsOutcome (inl refl) (n.response_json r) s)
        (λ e. json_err run_response IsOutcome (inl refl) (n.response_json r) e s) h
  settle-Sent (err e) s h = report-Sent e s s.sender (Silent-refl s.sender) h
  settle-Sent panicked s h = cc h
  settle-Sent pending s h = cc h
  settle-Sent spent s h = cc h

  either-Logs :
      (script : Bool) (message : List ℕ)
      → Logs n (if script then handle_run_script n req_id message else pure none)
  unfolding handle_run_script
  either-Logs true message =
      bind-Logs n (quiet n (λ s. refl))
        (λ args. bind-Logs n (run_script-Logs n req_id args) (λ response. pure-Logs n))
  either-Logs false message = pure-Logs n

  pub handle_message-Logs :
      (type : ℕ) (message : List ℕ) → Logs n (handle_message n req_id type message)
  unfolding handle_message
  handle_message-Logs type message = either-Logs (type == 0) message

module _ (m : IncomingMessage) (a b c : Sender) where
  only_answer : Sent m.req_id (IsAnswer m.type) a b → Answered m a b
  only_answer sent = record {
    lines = [];
    logs = tt;
    answer = sent.frame;
    encodable = sent.encodable;
    to_request = sent.to_request;
    right = sent.right;
    on_wire = sent.on_wire;
    rising = sent.rising;
  }

  pub logs_and_answer :
      Logged a b → Sent m.req_id IsOutcome b c → (m.type == 1) ≡ false → Answered m a c
  logs_and_answer logged sent other = record {
    lines = logged.lines;
    logs = logged.logs;
    answer = sent.frame;
    encodable = sent.encodable;
    to_request = sent.to_request;
    right = rw other sent.right;
    on_wire =
        sent.on_wire
        ∙ ap (λ w. w ++ encode sent.frame) logged.on_wire
        ∙ append_assoc a.sent (stream logged.lines) (encode sent.frame);
    rising = Rising-append logged.lines (sent.frame ∷ []) a.id b.id c.id logged.rising sent.rising;
  }

module _ (n : Node) where
  -- If a message is handled, and its handler does not itself throw, then it has sent log lines and
  -- behind them exactly one answer, under the request ID of the message: a pong to a ping, and to any
  -- other message a response or an error.
  pub handle_raw_message-Answered :
      (m : IncomingMessage) (s : Session n)
      → (handle_raw_message n m s).0 ≡ ok tt
      → Answered m s.sender (handle_raw_message n m s).1.sender
  unfolding handle_raw_message worker_to_host_value
  handle_raw_message-Answered m s h = elim (Bool-cases (m.type == 1)) [
    | inl e ↦ rw e (
        only_answer m s.sender (send n m.req_id pong [] s).1.sender s.sender
          (send-Sent n m.req_id pong (IsAnswer m.type) (rw e refl) [] s (rw e at h)))
    | inr e ↦
        let done = handle_message n m.req_id m.type m.body s in
        rw e (
          logs_and_answer m s.sender done.1.sender (settle n m.req_id done.0 done.1).1.sender
            ((handle_message-Logs n m.req_id m.type m.body).moves s)
            (settle-Sent n m.req_id done.0 done.1 (rw e at h)) e)
  ]
