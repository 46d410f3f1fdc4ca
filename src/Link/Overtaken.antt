-- ===== src/Link/Overtaken.antt =====
-- From a `run_script` of src/connection.rs whose caller does not wait for the answer, over the worker's
-- pong in src/worker/src/worker.ts, to the next caller of the same connection.
use js_sidecar.Prelude.{
  ℕ, ◌<◌, ◌^◌, ◌≡◌, refl, Bool, false, sym, ap, subst, ◌∙◌, Option, List, [], ◌∷◌, ◌++◌, append-nil,
  append_assoc, All, All-append, All-map, length, arith,
}
use js_sidecar.Prelude.Outcome.{Outcome, ok}
use js_sidecar.Frame.{Frame, IsEncodable, encode, stream}
use js_sidecar.Host.Messages.{RunScriptArgs, WorkerToHostMessage}
use js_sidecar.Host.Libs.{Libs, Profile, WritesWords, ReadsExactly, Delivers}
use js_sidecar.Host.Protocol.{host_message_type, parse_data}
use js_sidecar.Host.Protocol.Write.{frame_of}
use js_sidecar.Host.Protocol.Errors.{message_type-parse_data}
use js_sidecar.Host.Reader.{reader_task, reads_all, reader_task-stream}
use js_sidecar.Host.Connection.{Managed, ping, recycle, run_script, run_script_and_wait}
use js_sidecar.Host.Connection.Send.{HasIds, ping_message, run_script_lem, ping-encode}
use js_sidecar.Host.Connection.Wait.{verdict, contents, run_script_and_wait_final}
use js_sidecar.Host.Connection.Recycle.{recycle_lem}
use js_sidecar.Worker.ApiTypes.{pong, worker_to_host_value}
use js_sidecar.Worker.Protocol.{IncomingMessage}
use js_sidecar.Worker.Protocol.Frames.{received}
use js_sidecar.Worker.Sender.{Sender, sent_frame}
use js_sidecar.Worker.Node.{Node, RunResponse}
use js_sidecar.Worker.RunScript.{Session}
use js_sidecar.Worker.Logged.{stream-last}
use js_sidecar.Worker.Handler.{settle}
use js_sidecar.Worker.Handler.Ping.{pong_frame-IsEncodable, handle_raw_message_ping}
use js_sidecar.Worker.Handler.Answers.{Answered, IsOutcome}
use js_sidecar.Worker.Tasks.{settles, Task, World, Turn, resume, staged, Reach}
use js_sidecar.Worker.Tasks.Overtake.{request_of, pinged, resumed, answered, answered-Reach}
use js_sidecar.Link.PingPong.{pong_to}
use js_sidecar.Link.Conversation.{
  IsReadable, message_of, messages_of, length-messages_of, messages_of-Parses,
  messages_of-IsBetween, outcome_type-IsFinal, append_cancel,
}

-- What the reader task delivers of a pong and an answer behind it.
module _ (lib : Libs) (unread : lib.Reader → List ℕ) (exactly : ReadsExactly lib unread)
    (p : Profile) (m : IncomingMessage) (start before after : Sender) (req_id : ℕ)
    (a : Answered m before after) (logs : All (IsReadable lib) a.lines)
    (last : IsReadable lib a.answer) where
  abbrev frames : List Frame
  frames = sent_frame start.id req_id pong [] ∷ a.lines ++ a.answer ∷ []

  abbrev messages : List (WorkerToHostMessage lib.Value)
  messages =
      pong_to req_id start.id ∷ messages_of lib a.lines logs ++ message_of lib a.answer last ∷ []

  on_wire-frames :
      (r : lib.Reader)
      → before.sent ≡ start.sent ++ encode (sent_frame start.id req_id pong [])
      → after.sent ≡ start.sent ++ unread r
      → unread r ≡ stream frames ++ []
  on_wire-frames r first all =
      let pong_bytes = encode (sent_frame start.id req_id pong []) in
      append_cancel start.sent (unread r) (pong_bytes ++ (stream a.lines ++ encode a.answer)) (
        sym all
        ∙ a.on_wire
        ∙ ap (λ b. b ++ (stream a.lines ++ encode a.answer)) first
        ∙ append_assoc start.sent pong_bytes (stream a.lines ++ encode a.answer))
      ∙ ap (λ x. pong_bytes ++ x) (sym (stream-last a.lines a.answer))
      ∙ sym (append-nil (stream frames))

  read_both :
      (r : lib.Reader)
      → start.id < 2 ^ 32
      → req_id < 2 ^ 32
      → before.sent ≡ start.sent ++ encode (sent_frame start.id req_id pong [])
      → after.sent ≡ start.sent ++ unread r
      → (reader_task lib p (reads_all frames []) r).delivered ≡ messages
  unfolding reader_task parse_data worker_to_host_value
  read_both r h k first all =
      let (r', left, run) =
        reader_task-stream lib unread exactly p frames messages [] [] r
          (
            pong_frame-IsEncodable start.id req_id h k,
            All-append IsEncodable a.lines (a.answer ∷ []) (All-map (λ f k. k.1) a.lines a.logs)
                (a.encodable, tt),
          )
          (refl, refl, refl, messages_of-Parses lib a.lines logs a.answer last)
          (on_wire-frames r first all) in
      ap (λ read. read.delivered) run ∙ append-nil messages

-- A request that is pending when the connection is recycled.
module _ (lib : Libs) (unread : lib.Reader → List ℕ) (exactly : ReadsExactly lib unread)
    (queued : lib.Receiver → List (WorkerToHostMessage lib.Value)) (closed : lib.Receiver → Bool)
    (delivers : Delivers lib queued closed) (words : WritesWords lib) (p : Profile) (n : Node)
    (turn : Turn n) (before later : List (Task n)) (t : Task n)
    (came : Outcome n.Thrown (Option n.Value))
    (result : Outcome n.Thrown (Option (RunResponse n.Value))) (w : World n) (m : Managed lib) where
  abbrev pub ping_received : IncomingMessage
  ping_received = received (frame_of (ping_message m.conn) [])

  abbrev pub after_pong : World n
  after_pong = pinged n turn before later t came result ping_received w

  abbrev pub after_answer : World n
  after_answer = answered n turn before later t came result ping_received w

  -- A caller has started a script and does not wait for its answer, and the script awaits a promise
  -- when the connection is recycled. Then the worker answers the ping at once, the recycling succeeds,
  -- and if the promise is settled before the next caller's script is answered, so that its answer is
  -- the next that comes, the next caller's `run_script_and_wait` returns it: the response, or the
  -- error, and the log lines of the earlier script. All this is a run of the worker.
  pub run_script_and_wait-recycle :
      (a : Answered (request_of t) after_pong.session.sender after_answer.session.sender)
      (logs : All (IsReadable lib) a.lines) (last : IsReadable lib a.answer) (session : Session n)
      (pings asked : List ℕ) (r : lib.Reader) (args : RunScriptArgs lib.Value) (fuel : ℕ)
      → Reach n session w pings asked
      → w.tasks ≡ before ++ t ∷ later
      → staged n (resume n turn t.stage came after_pong.session).0 ≡ settles result
      → (settle n t.req_id result
          (resumed n turn before later t came result ping_received w).session).0
        ≡ ok tt
      → w.session.sender.id < 2 ^ 32
      → t.req_id < m.conn.next_req_id
      → HasIds m.conn
      → HasIds (recycle lib p false m).1.conn
      → (lib.write_all (encode (frame_of (ping_message m.conn) [])) m.conn.stream).0 ≡ ok tt
      → after_answer.session.sender.sent ≡ w.session.sender.sent ++ unread r
      → queued m.conn.receiver
        ≡ (reader_task lib p
            (reads_all
              (sent_frame w.session.sender.id m.conn.next_req_id pong [] ∷ a.lines ++ a.answer ∷ [])
              [])
            r).delivered
      → (run_script lib p args (recycle lib p false m).1.conn).0 ≡ ok tt
      → length a.lines < fuel
      → Reach n session after_answer (pings ++ m.conn.next_req_id ∷ []) asked
        × ((recycle lib p false m).0 ≡ ok tt)
        × ((run_script_and_wait lib fuel p args (recycle lib p false m).1.conn).0
            ≡ verdict lib (contents (messages_of lib a.lines logs)) last.0)
        × (a.answer.request_id < (recycle lib p false m).1.conn.next_req_id)
  unfolding host_message_type
  run_script_and_wait-recycle a logs last session pings asked r args fuel reached e ends done small
        earlier v v' went on_wire q started enough =
      let fits : m.conn.next_req_id < 2 ^ 32 = omega (arith, v.request_left) in
      let ponged = handle_raw_message_ping n ping_received w.session refl fits small in
      let sent : (ping lib p m.conn).0 ≡ ok m.conn.next_req_id =
        rw (ping-encode lib p words m.conn v, went) refl in
      let answer = messages_of lib a.lines logs ++ message_of lib a.answer last ∷ [] in
      let (first, rest, open_still) =
        delivers.next m.conn.receiver (pong_to m.conn.next_req_id w.session.sender.id) answer (
          q
          ∙ read_both lib unread exactly p (request_of t) w.session.sender after_pong.session.sender
              after_answer.session.sender m.conn.next_req_id a logs last r small fits
              (ap (λ o. o.1.sender.sent) ponged) on_wire) in
      let recycled =
        recycle_lem lib p false m v refl sent (pong_to m.conn.next_req_id w.session.sender.id) first
          refl refl in
      let final =
        run_script_and_wait_final lib queued closed delivers p args (recycle lib p false m).1.conn
          started (messages_of lib a.lines logs) (messages_of-IsBetween lib a.lines logs a.logs)
          fuel (rw (length-messages_of lib a.lines logs) enough) (message_of lib a.answer last) []
          (outcome_type-IsFinal lib a.answer.request_id a.answer.message_id last.0
            (subst IsOutcome (sym (message_type-parse_data lib _ _ last.0 last.1)) a.right))
          (ap (λ o. queued o.1.receiver)
              (run_script_lem lib p (recycle lib p false m).1.conn args v')
            ∙ ap (λ o. queued o.1.conn.receiver) recycled
            ∙ rest) in
      (
        answered-Reach n turn before later t came result ping_received w ends done session pings
            asked reached refl (ap (λ o. o.0) ponged) e,
        ap (λ o. o.0) recycled,
        final.0,
        omega (arith, ap (λ o. o.1.conn.next_req_id) recycled, earlier, a.to_request),
      )
