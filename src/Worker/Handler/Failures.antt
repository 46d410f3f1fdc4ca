-- ===== src/Worker/Handler/Failures.antt =====
-- What the handlers of src/worker/src/worker.ts have sent when they throw.
use js_sidecar.Prelude.{ℕ, ◌≡◌, inl, inr, refl, Bool-cases, Option, [], ◌==◌}
use js_sidecar.Prelude.Outcome.{Outcome, ok, err, panicked, pending, spent}
use js_sidecar.Worker.ApiTypes.{run_response, error, pong, worker_to_host_value}
use js_sidecar.Worker.Sender.{Sender}
use js_sidecar.Worker.Protocol.{IncomingMessage}
use js_sidecar.Worker.Node.{Node, RunResponse}
use js_sidecar.Worker.RunScript.{Session}
use js_sidecar.Worker.Logged.{Silent, Silent-refl, Silent-trans, Logged, Logged-same, Logged-trans}
use js_sidecar.Worker.Handler.{
  send, respond, report, handle_message, caught, settle, handle_raw_message,
}
use js_sidecar.Worker.Handler.Answers.{IsOutcome, send_err, json_err, handle_message-Logs}

module _ (n : Node) (req_id : ℕ) (e : n.Thrown) where
  report_err :
      (d : n.Thrown) (s : Session n)
      → (report n req_id d s).0 ≡ err e
      → Silent s.sender (report n req_id d s).1.sender
  unfolding report worker_to_host_value
  report_err d s h = json_err n req_id error IsOutcome (inr refl) (n.error_json d) e s h

  caught_err :
      (r : Outcome n.Thrown (Unit {0})) (s : Session n) (a : Sender)
      → ((d : n.Thrown) → r ≡ err d → Silent a s.sender)
      → (caught n req_id r s).0 ≡ err e
      → Silent a (caught n req_id r s).1.sender
  caught_err (ok tt) s a q h = cc h
  caught_err (err d) s a q h = Silent-trans a s.sender _ (q d refl) (report_err d s h)
  caught_err panicked s a q h = cc h
  caught_err pending s a q h = cc h
  caught_err spent s a q h = cc h

  settle_err :
      (response : Outcome n.Thrown (Option (RunResponse n.Value))) (s : Session n)
      → (settle n req_id response s).0 ≡ err e
      → Silent s.sender (settle n req_id response s).1.sender
  unfolding settle respond worker_to_host_value
  settle_err (ok r) s h =
      caught_err _ _ s.sender
        (λ d. json_err n req_id run_response IsOutcome (inl refl) (n.response_json r) d s) h
  settle_err (err d) s h = report_err d s h
  settle_err panicked s h = Silent-refl s.sender
  settle_err pending s h = Silent-refl s.sender
  settle_err spent s h = Silent-refl s.sender

module _ (n : Node) where
  -- If the handler of a message itself throws, the message gets no answer: log lines may have been sent,
  -- and nothing else was.
  pub handle_raw_message_throws :
      (m : IncomingMessage) (s : Session n) (e : n.Thrown)
      → (handle_raw_message n m s).0 ≡ err e
      → Logged s.sender (handle_raw_message n m s).1.sender
  unfolding handle_raw_message
  handle_raw_message_throws m s e h = elim (Bool-cases (m.type == 1)) [
    | inl t ↦ rw t (
        Logged-same s.sender (send n m.req_id pong [] s).1.sender
          (send_err n m.req_id pong (λ k. Unit {0}) tt [] e s (rw t at h)))
    | inr t ↦
        let done = handle_message n m.req_id m.type m.body s in
        rw t (
          Logged-trans s.sender done.1.sender (settle n m.req_id done.0 done.1).1.sender
            ((handle_message-Logs n m.req_id m.type m.body).moves s)
            (Logged-same done.1.sender (settle n m.req_id done.0 done.1).1.sender
              (settle_err n m.req_id e done.0 done.1 (rw t at h))))
  ]
