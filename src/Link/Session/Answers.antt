-- ===== src/Link/Session/Answers.antt =====
-- What the callers of a connection are given over its life.
use js_sidecar.Prelude.{
  ℕ, ◌+◌, ◌%◌, All, ◌<◌, ◌^◌, ◌≡◌, refl, sym, ap, subst, ◌∙◌, Bool, true, false, some, none, List,
  [], ◌∷◌, ◌++◌, append-nil, append_assoc, length,
}
use js_sidecar.Prelude.Outcome.{ok, map_ok}
use js_sidecar.Frame.{Frame, encode, stream}
use js_sidecar.Host.Messages.{RunScriptArgs, WorkerToHostMessage}
use js_sidecar.Host.Libs.{Libs, Profile, WritesWords, WritesAll, ReadsExactly, Delivers}
use js_sidecar.Host.Protocol.{host_message_type, serialize}
use js_sidecar.Host.Protocol.Write.{write_to-encode}
use js_sidecar.Host.Protocol.Errors.{message_type-parse_data}
use js_sidecar.Host.Reader.{reader_task, reads_all}
use js_sidecar.Host.Connection.{Managed, ping, run_script, run_script_and_wait, usize_mod}
use js_sidecar.Host.Connection.Send.{
  HasIds, ping_message, ping_frame-IsEncodable, run_script-encode, ping-encode,
}
use js_sidecar.Host.Connection.Wait.{
  verdict, contents, run_script_and_wait_final, run_script_and_wait_conn,
}
use js_sidecar.Host.Connection.Recycle.{recycle_lem}
use js_sidecar.Worker.Node.{Node}
use js_sidecar.Worker.RunScript.{Session}
use js_sidecar.Worker.Protocol.Frames.{received}
use js_sidecar.Worker.Handler.{handle_raw_message}
use js_sidecar.Worker.Handler.Answers.{Answered, IsOutcome}
use js_sidecar.Link.Conversation.{
  IsReadable, message_of, messages_of, length-messages_of, messages_of-IsBetween,
  outcome_type-IsFinal,
}
use js_sidecar.Link.PingPong.{pong_to}
use js_sidecar.Link.Session.{
  Use, runs, recycles, Answer, use_once, use_all, Talk, over, ran, recycled, script_frame,
  ping_frame, told, uses, answers, requests, replies, messages, worker_after,
}
use js_sidecar.Link.Session.Wire.{reader_task-replies}

module _ (lib : Libs) (queued : lib.Receiver → List (WorkerToHostMessage lib.Value))
    (closed : lib.Receiver → Bool) (delivers : Delivers lib queued closed) (words : WritesWords lib)
    (p : Profile)
    (no_failure : (bytes : List ℕ) (w : lib.Writer) → (lib.write_all bytes w).0 ≡ ok tt) (n : Node)
    (fuel : ℕ) where
  abbrev moved : Managed lib → Frame → Bool → ℕ → ℕ → lib.Receiver → Managed lib
  moved m f recreate calls successes inbox = record {
    recycle_calls = calls;
    recycle_success = successes;
    conn = record {
      stream = (lib.write_all (encode f) m.conn.stream).1;
      receiver = inbox;
      next_id = m.conn.next_id + 1;
      next_req_id = m.conn.next_req_id + 1;
      recreate_context_on_next = recreate;
    };
  }

  -- One use: what its caller is given, the frame that it writes, and the messages that it leaves.
  record Step (m : Managed lib) (u : Use lib.Value) (o : Answer lib) (f : Frame) (recreate : Bool)
      (rest : List (WorkerToHostMessage lib.Value)) : Type 0 where
    calls : ℕ
    successes : ℕ
    inbox : lib.Receiver
    left : queued inbox ≡ rest
    result : use_once lib fuel p u m ≡ (o, moved m f recreate calls successes inbox)

  abbrev after_step :
      (m : Managed lib) (u : Use lib.Value) (o : Answer lib) (f : Frame) (recreate : Bool)
      (rest : List (WorkerToHostMessage lib.Value))
      → Step m u o f recreate rest
      → Managed lib
  after_step m u o f recreate rest step = moved m f recreate step.calls step.successes step.inbox

  module _ (m : Managed lib) (v : HasIds m.conn) (rest : List (WorkerToHostMessage lib.Value)) where
    runs-Step :
        (args : RunScriptArgs lib.Value) (body : List ℕ) (s : Session n)
        (a : Answered
          (received (script_frame m.conn.next_req_id m.conn.next_id body))
          s.sender
          (handle_raw_message n
            (received (script_frame m.conn.next_req_id m.conn.next_id body))
            s).1.sender)
        (logs : All (IsReadable lib) a.lines) (last : IsReadable lib a.answer)
        → lib.to_vec (told m.conn.recreate_context_on_next args) ≡ ok body
        → length body + 12 < 2 ^ 32
        → length a.lines < fuel
        → queued m.conn.receiver
          ≡ (messages_of lib a.lines logs ++ message_of lib a.answer last ∷ []) ++ rest
        → Step m
            (runs args)
            (map_ok some (verdict lib (contents (messages_of lib a.lines logs)) last.0))
            (script_frame m.conn.next_req_id m.conn.next_id body)
            false
            rest
    unfolding host_message_type
    runs-Step args body s a logs last e fits enough q =
        let written = run_script-encode lib p words m.conn args body v e fits in
        let started : (run_script lib p args m.conn).0 ≡ ok tt = rw (written, no_failure) refl in
        let final =
          run_script_and_wait_final lib queued closed delivers p args m.conn started
            (messages_of lib a.lines logs) (messages_of-IsBetween lib a.lines logs a.logs) fuel
            (rw (length-messages_of lib a.lines logs) enough) (message_of lib a.answer last) rest
            (outcome_type-IsFinal lib a.answer.request_id a.answer.message_id last.0
              (subst IsOutcome (sym (message_type-parse_data lib _ _ last.0 last.1)) a.right))
            (ap (λ o. queued o.1.receiver) written
              ∙ q
              ∙ append_assoc (messages_of lib a.lines logs) (message_of lib a.answer last ∷ [])
                  rest) in
        let after = run_script_and_wait lib fuel p args m.conn in
        record {
          calls = m.recycle_calls;
          successes = m.recycle_success;
          inbox = (run_script_and_wait lib fuel p args m.conn).1.receiver;
          left = final.1;
          result =
              ap (λ o. (map_ok some o, record m { conn = after.1 })) final.0
              ∙ ap
                  (λ c. (
                    map_ok some (verdict lib (contents (messages_of lib a.lines logs)) last.0),
                    record m { conn = c },
                  ))
                  (run_script_and_wait_conn lib fuel p args m.conn started
                    ∙ ap (λ o. record o.1 { receiver = after.1.receiver }) written);
        }

    recycles-Step :
        (id : ℕ)
        → queued m.conn.receiver ≡ pong_to m.conn.next_req_id id ∷ rest
        → Step m recycles (ok none) (ping_frame m.conn.next_req_id m.conn.next_id) true rest
    unfolding host_message_type serialize
    recycles-Step id q =
        let (first, still_queued, same) =
          delivers.next m.conn.receiver (pong_to m.conn.next_req_id id) rest q in
        let sent : (ping lib p m.conn).0 ≡ ok m.conn.next_req_id =
          rw (ping-encode lib p words m.conn v, no_failure) refl in
        record {
          calls = (m.recycle_calls + 1) % usize_mod;
          successes = (m.recycle_success + 1) % usize_mod;
          inbox = (lib.recv m.conn.receiver).1;
          left = still_queued;
          result =
              rw
                (
                  recycle_lem lib p false m v refl sent (pong_to m.conn.next_req_id id) first refl
                      refl,
                  write_to-encode lib words (ping_message m.conn) [] m.conn.stream refl
                      (ping_frame-IsEncodable m.conn v),
                )
                refl;
        }

  module _ (written : lib.Writer → List ℕ) (writes : WritesAll lib written) where
    abbrev Goes :
        (m : Managed lib) (us : List (Use lib.Value)) (os : List (Answer lib)) (fs : List Frame)
        → Type 0
    Goes m us os fs =
        ((use_all lib fuel p us m).0 ≡ os)
        × (written (use_all lib fuel p us m).1.conn.stream ≡ written m.conn.stream ++ stream fs)

    Step-Goes :
        (m : Managed lib) (u : Use lib.Value) (o : Answer lib) (f : Frame) (recreate : Bool)
        (rest : List (WorkerToHostMessage lib.Value)) (us : List (Use lib.Value))
        (os : List (Answer lib)) (fs : List Frame) (step : Step m u o f recreate rest)
        → Goes (after_step m u o f recreate rest step) us os fs
        → Goes m (u ∷ us) (o ∷ os) (f ∷ fs)
    unfolding use_all
    Step-Goes m u o f recreate rest us os fs step (given, wrote) = rw step.result (
      ap (λ x. o ∷ x) given,
      wrote
          ∙ ap (λ w. w ++ stream fs)
              (writes.writes (encode f) m.conn.stream (no_failure (encode f) m.conn.stream))
          ∙ append_assoc (written m.conn.stream) (encode f) (stream fs),
    )

    -- Whatever is queued.
    use_all-messages :
        (m : Managed lib) (s : Session n)
        (t : Talk lib n fuel m.conn.next_req_id m.conn.next_id m.conn.recreate_context_on_next s)
        → queued m.conn.receiver ≡ messages t
        → Goes m (uses t) (answers t) (requests t)
    unfolding use_all
    use_all-messages m s over q = (refl, sym (append-nil (written m.conn.stream)))
    use_all-messages m s (ran args body a logs last e fits enough request_left message_left rest)
          q =
        let step =
          runs-Step m (record { request_left = request_left; message_left = message_left })
            (messages rest) args body s a logs last e fits enough q in
        Step-Goes m _ _ _ false (messages rest) _ _ _ step
          (use_all-messages (after_step m _ _ _ false (messages rest) step) _ rest step.left)
    use_all-messages m s (recycled id_left request_left message_left rest) q =
        let step =
          recycles-Step m (record { request_left = request_left; message_left = message_left })
            (messages rest) s.sender.id q in
        Step-Goes m _ _ _ true (messages rest) _ _ _ step
          (use_all-messages (after_step m _ _ _ true (messages rest) step) _ rest step.left)

    -- Over the whole life of a connection in the pool, whatever scripts its callers run with
    -- `run_script_and_wait`, and however often it is recycled between them: if each use is over
    -- before the next begins, no write fails, the worker answers each script in a way that the host
    -- can parse, each pong comes in time, and the IDs do not run out, then every recycling succeeds,
    -- every caller is given the answer to its own script with the log lines before it, and what was
    -- written is one frame for each use, in order.
    pub use_all-answers :
        (unread : lib.Reader → List ℕ) (exactly : ReadsExactly lib unread) (m : Managed lib)
        (s : Session n)
        (t : Talk lib n fuel m.conn.next_req_id m.conn.next_id m.conn.recreate_context_on_next s)
        (r : lib.Reader)
        → (worker_after t).sender.sent ≡ s.sender.sent ++ unread r
        → queued m.conn.receiver ≡ (reader_task lib p (reads_all (replies t) []) r).delivered
        → ((use_all lib fuel p (uses t) m).0 ≡ answers t)
          × (written (use_all lib fuel p (uses t) m).1.conn.stream
              ≡ written m.conn.stream ++ stream (requests t))
    use_all-answers unread exactly m s t r sent q =
        use_all-messages m s t (q ∙ reader_task-replies lib n fuel unread exactly p t r sent)
