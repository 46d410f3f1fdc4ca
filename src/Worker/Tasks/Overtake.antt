-- ===== src/Worker/Tasks/Overtake.antt =====
-- A ping that is answered while a task of src/worker/src/worker.ts is pending, and the task behind it.
use js_sidecar.Prelude.{ℕ, ◌≡◌, refl, ap, subst, Option, List, [], ◌∷◌, ◌++◌, append-nil}
use js_sidecar.Prelude.Outcome.{Outcome, ok}
use js_sidecar.Worker.Protocol.{IncomingMessage}
use js_sidecar.Worker.Node.{Node, RunResponse}
use js_sidecar.Worker.RunScript.{Session}
use js_sidecar.Worker.Handler.{settle, handle_raw_message}
use js_sidecar.Worker.Handler.Answers.{Answered, logs_and_answer, settle-Sent}
use js_sidecar.Worker.Tasks.{
  settles, Task, World, Turn, resume, staged, resume_task, pings, resumes, settled, Reach, turns,
}
use js_sidecar.Worker.Tasks.Logs.{resume-Logs}
use js_sidecar.Worker.Tasks.Served.{quiet}

-- The message that began a task, as far as its answer depends on it.
abbrev pub request_of : {n : Node} → Task n → IncomingMessage
request_of t = record { id = 0; req_id = t.req_id; type = 0; body = [] }

module _ (n : Node) (turn : Turn n) (before later : List (Task n)) (t : Task n)
    (came : Outcome n.Thrown (Option n.Value))
    (result : Outcome n.Thrown (Option (RunResponse n.Value))) (ping : IncomingMessage)
    (w : World n) where
  -- The ping is handled; then what `t` awaits comes; then `t` is answered.
  abbrev pub pinged : World n
  pinged = record w { session = (handle_raw_message n ping w.session).1 }

  abbrev pub resumed : World n
  resumed = resume_task n turn before t later came pinged

  abbrev pub answered : World n
  answered = record {
    session = (settle n t.req_id result resumed.session).1;
    tasks = before ++ later;
  }

  module _ (ends : staged n (resume n turn t.stage came pinged.session).0 ≡ settles result)
      (done : (settle n t.req_id result resumed.session).0 ≡ ok tt) where
    pub answered-Reach :
        (session : Session n) (asked_pings asked : List ℕ)
        → Reach n session w asked_pings asked
        → ping.type ≡ 1
        → (handle_raw_message n ping w.session).0 ≡ ok tt
        → w.tasks ≡ before ++ t ∷ later
        → Reach n session answered (asked_pings ++ ping.req_id ∷ []) asked
    unfolding resume_task
    answered-Reach session asked_pings asked reached type went e =
        quiet n session
          (quiet n session
            (subst (λ x. Reach n session pinged (asked_pings ++ ping.req_id ∷ []) x)
              (append-nil asked) (turns reached (pings ping type went)))
            (resumes turn before later t came e))
          (settled before later (record t { stage = settles result }) result
            (ap (λ stage. before ++ record t { stage = stage } ∷ later) ends) refl done)

    -- The answer to the earlier request comes behind the pong.
    pub answered-Answered : Answered (request_of t) pinged.session.sender answered.session.sender
    unfolding resume_task
    answered-Answered =
        logs_and_answer (request_of t) pinged.session.sender resumed.session.sender
          answered.session.sender ((resume-Logs n turn t.stage came).moves pinged.session)
          (settle-Sent n t.req_id result resumed.session done) refl
