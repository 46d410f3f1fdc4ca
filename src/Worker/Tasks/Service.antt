-- ===== src/Worker/Tasks/Service.antt =====
-- A connection of src/worker/src/worker.ts gives its service, whatever turns its scripts take.
use mathlib.Core.List.{filter_map, filter_map-append, map-append}
use js_sidecar.Prelude.{
  ℕ, arith, ◌≡◌, inl, inr, refl, sym, ap, ap₂, subst, ◌∙◌, Option, List, [], ◌∷◌, ◌++◌, append-nil,
  All, All-append, All-map,
}
use js_sidecar.Prelude.Outcome.{Outcome, ok}
use js_sidecar.Frame.{Frame, encode, stream}
use js_sidecar.Worker.Protocol.{IncomingMessage}
use js_sidecar.Worker.Logged.{Rising, Rising-append, Logged, stream-append, stream-last}
use js_sidecar.Worker.Node.{Node, RunResponse}
use js_sidecar.Worker.RunScript.{Session}
use js_sidecar.Worker.RunScript.Logs.{send_logs-Logs}
use js_sidecar.Worker.Handler.{settle, handle_raw_message}
use js_sidecar.Worker.Handler.Answers.{ping_answer, handle_raw_message-Answered, settle-Sent}
use js_sidecar.Worker.Tasks.Logs.{begin-Logs, resume-Logs}
use js_sidecar.Worker.Tasks.{
  Task, World, Turn, begin, resume, staged, arrive, resume_task, Step, pings, arrives, resumes,
  logs_later, settled, Reach, connected, turns,
}
use js_sidecar.Worker.Tasks.Events.{
  Event, requested, answered, ponged, Service, idle, takes, answers, pongs, shown, IsReply, output,
  request, ping, req_ids, shown-log, shown-answer, shown-pong, shown-last,
}

-- A run of the service that has taken the same requests and pings, has the same requests open, and has
-- put out, in order, what the frames on the wire show.
pub record Implements {n : Node} (pinged asked : List ℕ) (w : World n) : Type 0 where
  pub events : List Event
  pub service : Service (req_ids w.tasks) events
  pub requests : filter_map request events ≡ asked
  pub ponged_to : filter_map ping events ≡ pinged
  pub frames : List Frame
  pub replies : All IsReply frames
  pub on_wire : w.session.sender.sent ≡ stream frames
  pub outputs : filter_map shown frames ≡ filter_map output events
  pub rising : Rising 0 frames w.session.sender.id

module _ {n : Node} (pinged asked : List ℕ) (w : World n) (i : Implements pinged asked w) where
  -- More events, and the frames that show their output.
  more :
      (pinged' asked' : List ℕ) (w' : World n) (es : List Event) (fs : List Frame)
      → Service (req_ids w'.tasks) (i.events ++ es)
      → asked ++ filter_map request es ≡ asked'
      → pinged ++ filter_map ping es ≡ pinged'
      → All IsReply fs
      → w'.session.sender.sent ≡ w.session.sender.sent ++ stream fs
      → filter_map shown fs ≡ filter_map output es
      → Rising w.session.sender.id fs w'.session.sender.id
      → Implements pinged' asked' w'
  more pinged' asked' w' es fs service took ping_came v e o up = record {
    events = i.events ++ es;
    service = service;
    requests = filter_map-append request i.events es ∙ rw i.requests took;
    ponged_to = filter_map-append ping i.events es ∙ rw i.ponged_to ping_came;
    frames = i.frames ++ fs;
    replies = All-append IsReply i.frames fs i.replies v;
    on_wire = e ∙ ap (λ x. x ++ stream fs) i.on_wire ∙ sym (stream-append i.frames fs);
    outputs =
        filter_map-append shown i.frames fs
        ∙ ap₂ (λ xs ys. xs ++ ys) i.outputs o
        ∙ sym (filter_map-append output i.events es);
    rising = Rising-append i.frames fs 0 w.session.sender.id w'.session.sender.id i.rising up;
  }

  -- A turn that only logs.
  logged :
      (asked' : List ℕ) (w' : World n) (es : List Event)
      → Logged w.session.sender w'.session.sender
      → Service (req_ids w'.tasks) (i.events ++ es)
      → asked ++ filter_map request es ≡ asked'
      → filter_map ping es ≡ []
      → filter_map output es ≡ []
      → Implements (pinged ++ []) asked' w'
  logged asked' w' es sent service took no_ping silent =
      more (pinged ++ []) asked' w' es sent.lines service took (ap (λ x. pinged ++ x) no_ping)
        (All-map (λ f h. (h.1, inl h.0)) sent.lines sent.logs) sent.on_wire
        (shown-log sent.lines sent.logs ∙ sym silent) sent.rising

module _ {n : Node} (pinged asked : List ℕ) (w : World n) (i : Implements pinged asked w) where
  same_events : Service (req_ids w.tasks) (i.events ++ [])
  same_events = rw (append-nil i.events) i.service

  pings-Implements :
      (m : IncomingMessage)
      → m.type ≡ 1
      → (handle_raw_message n m w.session).0 ≡ ok tt
      → Implements
          (pinged ++ m.req_id ∷ [])
          (asked ++ [])
          (record w { session = (handle_raw_message n m w.session).1 })
  unfolding filter_map
  pings-Implements m t h =
      let a = handle_raw_message-Answered n m w.session h in
      let is_pong = ping_answer m.type a.answer.message_type t a.right in
      more pinged asked w i _ _ _ (ponged m.req_id ∷ []) (a.lines ++ a.answer ∷ [])
        (pongs m.req_id i.service) refl refl
        (All-append IsReply a.lines (a.answer ∷ []) (All-map (λ f k. (k.1, inl k.0)) a.lines a.logs)
          ((a.encodable, inr (inr is_pong)), tt))
        (a.on_wire ∙ ap (λ x. w.session.sender.sent ++ x) (sym (stream-last a.lines a.answer)))
        (shown-last a.lines a.answer (ponged m.req_id) a.logs
          (shown-pong m.req_id a.answer a.to_request is_pong))
        a.rising

  arrives-Implements :
      (turn : Turn n) (m : IncomingMessage)
      → Implements (pinged ++ []) (asked ++ m.req_id ∷ []) (arrive n turn m w)
  unfolding arrive filter_map
  arrives-Implements turn m =
      let began = begin n turn m.req_id m.type m.body w.session in
      logged pinged asked w i _ _ (requested m.req_id ∷ [])
        ((begin-Logs n turn m.req_id m.type m.body).moves w.session)
        (rw
          (map-append (λ (t : Task n). t.req_id) w.tasks
            (record { req_id = m.req_id; stage = staged n began.0 } ∷ []))
          (takes m.req_id i.service))
        refl refl refl

  module _ (before later : List (Task n)) (t : Task n) (e : w.tasks ≡ before ++ t ∷ later) where
    split_ids : req_ids w.tasks ≡ req_ids before ++ t.req_id ∷ req_ids later
    split_ids = ap req_ids e ∙ map-append (λ (t : Task n). t.req_id) before (t ∷ later)

    resumes-Implements :
        (turn : Turn n) (came : Outcome n.Thrown (Option n.Value))
        → Implements (pinged ++ []) (asked ++ []) (resume_task n turn before t later came w)
    unfolding resume_task filter_map
    resumes-Implements turn came =
        let stage = staged n (resume n turn t.stage came w.session).0 in
        logged pinged asked w i _ _ [] ((resume-Logs n turn t.stage came).moves w.session)
          (subst (λ ids. Service ids (i.events ++ []))
            (split_ids
              ∙ sym (
                  map-append (λ (t : Task n). t.req_id) before
                    (record t { stage = stage } ∷ later)))
            same_events)
          refl refl refl

    settled-Implements :
        (o : Outcome n.Thrown (Option (RunResponse n.Value)))
        → (settle n t.req_id o w.session).0 ≡ ok tt
        → Implements
            (pinged ++ [])
            (asked ++ [])
            (record { session = (settle n t.req_id o w.session).1; tasks = before ++ later })
    unfolding filter_map
    settled-Implements o h =
        let a = settle-Sent n t.req_id o w.session h in
        more pinged asked w i _ _ _ (answered t.req_id ∷ []) (a.frame ∷ [])
          (subst (λ ids. Service ids (i.events ++ answered t.req_id ∷ []))
            (sym (map-append (λ (t : Task n). t.req_id) before later))
            (answers (req_ids before) (req_ids later) t.req_id
              (subst (λ ids. Service ids i.events) split_ids i.service)))
          refl refl ((a.encodable, inr (inl a.right)), tt)
          (a.on_wire ∙ ap (λ x. w.session.sender.sent ++ x) (sym (append-nil (encode a.frame))))
          (shown-last [] a.frame (answered t.req_id) tt
            (shown-answer t.req_id a.frame a.to_request a.right))
          a.rising

pub Step-Implements :
    {n : Node} {w w' : World n} {pinged asked more_pinged more_asked : List ℕ}
    → Implements pinged asked w
    → Step n w w' more_pinged more_asked
    → Implements (pinged ++ more_pinged) (asked ++ more_asked) w'
unfolding filter_map
Step-Implements i (pings m t h) = pings-Implements _ _ _ i m t h
Step-Implements i (arrives turn m other) = arrives-Implements _ _ _ i turn m
Step-Implements i (resumes turn before later t came e) =
    resumes-Implements _ _ _ i before later t e turn came
Step-Implements {n} {w} {pinged = pinged} {asked = asked} i (logs_later req_id lines heap) =
    logged pinged asked w i _ _ []
      ((send_logs-Logs n req_id lines).moves (record w.session { heap = heap }))
      (same_events _ _ _ i) refl refl refl
Step-Implements i (settled before later t r e s h) = settled-Implements _ _ _ i before later t e r h

-- The messages and the scripts of one connection, whatever turns they take, implement the service: there
-- is a run of it that has taken the same requests and pings in the same order, in which those requests
-- are open that have a task, and whose answers and pongs are, in order and with nothing else but log
-- lines between them, the frames on the wire. The message IDs of these frames go up.
pub Reach-Implements :
    (n : Node) (session : Session n) (w : World n) (pinged asked : List ℕ)
    → session.sender.sent ≡ []
    → Reach n session w pinged asked
    → Implements pinged asked w
unfolding filter_map
Reach-Implements n session w pinged asked new connected = record {
  events = [];
  service = idle;
  requests = refl;
  ponged_to = refl;
  frames = [];
  replies = tt;
  on_wire = new;
  outputs = refl;
  rising = omega arith;
}
Reach-Implements n session w pinged asked new (turns before step) =
    Step-Implements (Reach-Implements n session _ _ _ new before) step
