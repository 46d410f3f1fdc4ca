-- ===== src/Link/Conversation.antt =====
-- `Connection::run_script_and_wait` of src/connection.rs, the worker's handling of the script in
-- src/worker/src/worker.ts, and the host's reader task: a script and what is answered to it.
use js_sidecar.Prelude.{
  ℕ, ◌+◌, ◌<◌, ◌^◌, ◌≡◌, refl, Bool, sym, ap, subst, ◌∙◌, List, [], ◌∷◌, ◌++◌, suc, append-nil, All,
  All-append, All-map, length, arith,
}
use js_sidecar.Prelude.Outcome.{ok}
use js_sidecar.Frame.{Frame, IsEncodable, encode, stream}
use js_sidecar.Host.Messages.{
  RunScriptArgs, WorkerToHostMessage, WorkerToHostMessageData, run_response, log, error, pong,
}
use js_sidecar.Host.Libs.{Libs, Profile, WritesWords, ReadsExactly, Delivers}
use js_sidecar.Host.Protocol.{host_message_type, worker_message_type, parse_data}
use js_sidecar.Host.Protocol.Write.{frame_of}
use js_sidecar.Host.Protocol.Errors.{message_type-parse_data}
use js_sidecar.Host.Reader.{reader_task, reads_all, Parses, reader_task-stream}
use js_sidecar.Host.Connection.{Connection, run_script_and_wait}
use js_sidecar.Host.Connection.Send.{HasIds, sent_args, script_message, run_script-encode}
use js_sidecar.Host.Connection.Wait.{
  IsBetween, IsFinal, verdict, contents, run_script_and_wait_final,
}
use js_sidecar.Worker.Protocol.{IncomingMessage}
use js_sidecar.Worker.Protocol.Frames.{received}
use js_sidecar.Worker.Sender.{Sender}
use js_sidecar.Worker.Node.{Node}
use js_sidecar.Worker.RunScript.{Session}
use js_sidecar.Worker.Logged.{IsLog, stream-last}
use js_sidecar.Worker.Handler.{handle_raw_message}
use js_sidecar.Worker.Handler.Answers.{Answered, IsOutcome}

-- The host can parse the data of a frame.
abbrev pub IsReadable : Libs → Frame → Type 0
IsReadable lib f =
    (d : WorkerToHostMessageData lib.Value) × (parse_data lib f.message_type f.body ≡ ok d)

module _ (lib : Libs) where
  abbrev pub message_of : (f : Frame) → IsReadable lib f → WorkerToHostMessage lib.Value
  message_of f readable = record {
    request_id = f.request_id;
    message_id = f.message_id;
    content = readable.0;
  }

  abbrev pub messages_of :
      (fs : List Frame) → All (IsReadable lib) fs → List (WorkerToHostMessage lib.Value)
  messages_of [] h = []
  messages_of (f ∷ fs) h = message_of f h.0 ∷ messages_of fs h.1

  pub length-messages_of :
      (fs : List Frame) (h : All (IsReadable lib) fs) → length (messages_of fs h) ≡ length fs
  length-messages_of [] h = refl
  length-messages_of (f ∷ fs) h = ap suc (length-messages_of fs h.1)

  pub messages_of-Parses :
      (lines : List Frame) (h : All (IsReadable lib) lines) (f : Frame) (last : IsReadable lib f)
      → Parses lib (lines ++ f ∷ []) (messages_of lines h ++ message_of f last ∷ [])
  messages_of-Parses [] h f last = (refl, refl, last.1, tt)
  messages_of-Parses (l ∷ lines) h f last = (refl, refl, h.0.1, messages_of-Parses lines h.1 f last)

  module _ (request_id message_id : ℕ) where
    abbrev with_content : WorkerToHostMessageData lib.Value → WorkerToHostMessage lib.Value
    with_content d = record { request_id = request_id; message_id = message_id; content = d }

    log_type-IsBetween :
        (d : WorkerToHostMessageData lib.Value)
        → worker_message_type d ≡ 0x1001
        → IsBetween (with_content d)
    unfolding worker_message_type
    log_type-IsBetween (run_response x) h = absurd (omega (arith, h))
    log_type-IsBetween (log x) h = tt
    log_type-IsBetween (error x) h = absurd (omega (arith, h))
    log_type-IsBetween pong h = tt

    pub outcome_type-IsFinal :
        (d : WorkerToHostMessageData lib.Value)
        → IsOutcome (worker_message_type d)
        → IsFinal (with_content d)
    unfolding worker_message_type
    outcome_type-IsFinal (run_response x) h = tt
    outcome_type-IsFinal (log x) h = absurd (omega (arith, h))
    outcome_type-IsFinal (error x) h = tt
    outcome_type-IsFinal pong h = absurd (omega (arith, h))

  pub messages_of-IsBetween :
      (fs : List Frame) (h : All (IsReadable lib) fs)
      → All IsLog fs
      → All IsBetween (messages_of fs h)
  messages_of-IsBetween [] h logs = tt
  messages_of-IsBetween (f ∷ fs) h logs = (
    log_type-IsBetween f.request_id f.message_id h.0.0
        (message_type-parse_data lib f.message_type f.body h.0.0 h.0.1 ∙ logs.0.0),
    messages_of-IsBetween fs h.1 logs.1,
  )

pub append_cancel : (xs ys zs : List ℕ) → xs ++ ys ≡ xs ++ zs → ys ≡ zs
append_cancel [] ys zs e = e
append_cancel (x ∷ xs) ys zs e = append_cancel xs ys zs (cc e)

module _ (lib : Libs) (unread : lib.Reader → List ℕ) (exactly : ReadsExactly lib unread)
    (p : Profile) (m : IncomingMessage) (before after : Sender) (a : Answered m before after)
    (logs : All (IsReadable lib) a.lines) (last : IsReadable lib a.answer) where
  -- What the reader task delivers of an answer: the log lines, and the response or error behind them.
  read_answer :
      (r : lib.Reader)
      → after.sent ≡ before.sent ++ unread r
      → (reader_task lib p (reads_all (a.lines ++ a.answer ∷ []) []) r).delivered
        ≡ messages_of lib a.lines logs ++ message_of lib a.answer last ∷ []
  unfolding reader_task
  read_answer r e =
      let fs = a.lines ++ a.answer ∷ [] in
      let ms = messages_of lib a.lines logs ++ message_of lib a.answer last ∷ [] in
      let on_wire : unread r ≡ stream fs =
        append_cancel before.sent _ _ (sym e ∙ a.on_wire) ∙ sym (stream-last a.lines a.answer) in
      let (r', left, run) =
        reader_task-stream lib unread exactly p fs ms [] [] r
          (All-append IsEncodable a.lines (a.answer ∷ []) (All-map (λ f k. k.1) a.lines a.logs)
            (a.encodable, tt))
          (messages_of-Parses lib a.lines logs a.answer last)
          (on_wire ∙ sym (append-nil (stream fs))) in
      ap (λ read. read.delivered) run ∙ append-nil ms

-- A script and what is answered to it. If the frame of the script was written, and a worker that
-- received it has sent log lines and an answer, which the host can parse, and the host's reader task
-- read these into the channel of the connection, then `run_script_and_wait` returns the response, or the
-- error, with the log lines, in order.
pub run_script_and_wait-handle_raw_message :
    (lib : Libs) (unread : lib.Reader → List ℕ) (exactly : ReadsExactly lib unread)
    (queued : lib.Receiver → List (WorkerToHostMessage lib.Value)) (closed : lib.Receiver → Bool)
    (delivers : Delivers lib queued closed) (words : WritesWords lib) (p : Profile) (n : Node)
    (c : Connection lib) (args : RunScriptArgs lib.Value) (body : List ℕ) (s : Session n)
    (a : Answered
      (received (frame_of (script_message c args) body))
      s.sender
      (handle_raw_message n (received (frame_of (script_message c args) body)) s).1.sender)
    (logs : All (IsReadable lib) a.lines) (last : IsReadable lib a.answer) (r : lib.Reader)
    (fuel : ℕ)
    → HasIds c
    → lib.to_vec (sent_args c args) ≡ ok body
    → length body + 12 < 2 ^ 32
    → (lib.write_all (encode (frame_of (script_message c args) body)) c.stream).0 ≡ ok tt
    → (handle_raw_message n (received (frame_of (script_message c args) body)) s).1.sender.sent
      ≡ s.sender.sent ++ unread r
    → queued c.receiver ≡ (reader_task lib p (reads_all (a.lines ++ a.answer ∷ []) []) r).delivered
    → length a.lines < fuel
    → (run_script_and_wait lib fuel p args c).0
      ≡ verdict lib (contents (messages_of lib a.lines logs)) last.0
unfolding host_message_type
run_script_and_wait-handle_raw_message lib unread exactly queued closed delivers words p n c args
      body s a logs last r fuel v e fits went on_wire q enough =
    let started = run_script-encode lib p words c args body v e fits in
    let final =
      run_script_and_wait_final lib queued closed delivers p args c (rw (started, went) refl)
        (messages_of lib a.lines logs) (messages_of-IsBetween lib a.lines logs a.logs) fuel
        (rw (length-messages_of lib a.lines logs) enough) (message_of lib a.answer last) []
        (outcome_type-IsFinal lib a.answer.request_id a.answer.message_id last.0
          (subst IsOutcome (sym (message_type-parse_data lib _ _ last.0 last.1)) a.right))
        (rw started (q ∙ read_answer lib unread exactly p _ _ _ a logs last r on_wire)) in
    final.0
