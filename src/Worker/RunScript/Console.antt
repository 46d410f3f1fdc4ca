-- ===== src/Worker/RunScript/Console.antt =====
-- Under which request ID the console of a context logs in src/worker/src/run_script.ts.
use js_sidecar.Prelude.{
  ℕ, ◌≡◌, refl, sym, ap, subst, ◌∙◌, false, some, List, [], ◌∷◌, ◌++◌, append-nil, append_assoc,
  All, All-append,
}
use js_sidecar.Prelude.Outcome.{Outcome, ok, err, panicked, pending, spent, after}
use js_sidecar.Frame.{Frame, stream}
use js_sidecar.Worker.ApiTypes.{log, worker_to_host_value}
use js_sidecar.Worker.Sender.{Sender, send_message, sent_frame}
use js_sidecar.Worker.Logged.{Sending-cases, went, threw, IsLog, stream-append}
use js_sidecar.Worker.Node.{Node, RunScriptArgs}
use js_sidecar.Worker.RunScript.{RunContext, Session, is_true, create_context, run_code, run_script}
use js_sidecar.Worker.RunScript.Sends.{create_context-Sends, run_code-Sends}
use js_sidecar.Worker.RunScript.Context.{create_context-Same}

-- From one state of the sender to the other, log lines were sent, all under the request ID.
pub record LoggedUnder (req_id : ℕ) (a b : Sender) : Type 0 where
  pub lines : List Frame
  pub logs : All (λ f. IsLog f × (f.request_id ≡ req_id)) lines
  pub on_wire : b.sent ≡ a.sent ++ stream lines

module _ (req_id : ℕ) where
  LoggedUnder-same : (a b : Sender) → b.sent ≡ a.sent → LoggedUnder req_id a b
  LoggedUnder-same a b e = record { lines = []; logs = tt; on_wire = e ∙ sym (append-nil a.sent) }

  LoggedUnder-refl : (a : Sender) → LoggedUnder req_id a a
  LoggedUnder-refl a = LoggedUnder-same a a refl

  LoggedUnder-trans :
      (a b c : Sender) → LoggedUnder req_id a b → LoggedUnder req_id b c → LoggedUnder req_id a c
  LoggedUnder-trans a b c p q = record {
    lines = p.lines ++ q.lines;
    logs = All-append (λ f. IsLog f × (f.request_id ≡ req_id)) p.lines q.lines p.logs q.logs;
    on_wire =
        rw (q.on_wire, p.on_wire, stream-append p.lines q.lines)
          (append_assoc a.sent (stream p.lines) (stream q.lines));
  }

  line-LoggedUnder :
      (line : List ℕ) (s : Sender) → LoggedUnder req_id s (send_message req_id log line s).1
  unfolding worker_to_host_value
  line-LoggedUnder line s = elim (Sending-cases req_id log line s) [
    | threw e ↦ rw e (LoggedUnder-same s _ refl)
    | went v e ↦ rw e (record {
      lines = sent_frame s.id req_id log line ∷ [];
      logs = (((refl, v), refl), tt);
      on_wire = ap (λ b. s.sent ++ b) (sym (append-nil _));
    })
  ]

module _ (n : Node) where
  create_context-sender :
      (req_id : ℕ) (args : RunScriptArgs n.Value) (s : Session n)
      → (create_context n req_id args s).1.sender ≡ s.sender
  create_context-sender req_id args =
      (create_context-Sends n (λ a b. b ≡ a) (λ a. refl) (λ a b c p q. q ∙ p) req_id args).moves

  run_code-LoggedUnder :
      (args : RunScriptArgs n.Value) (run : RunContext n) (s : Session n)
      → LoggedUnder run.console_req_id s.sender (run_code n run args args.code s).1.sender
  run_code-LoggedUnder args run =
      (run_code-Sends n (LoggedUnder run.console_req_id) (LoggedUnder-refl run.console_req_id)
        (LoggedUnder-trans run.console_req_id) run (line-LoggedUnder run.console_req_id) args
        args.code).moves

  -- The rest of a run, where what `createContext` returned has a console of that request.
  after-LoggedUnder :
      (req_id : ℕ) (args : RunScriptArgs n.Value) (created : Outcome n.Thrown (RunContext n))
      (s : Session n)
      → ((run : RunContext n) → created ≡ ok run → run.console_req_id ≡ req_id)
      → LoggedUnder req_id s.sender
          (after created (λ run. run_code n run args args.code) s).1.sender
  after-LoggedUnder req_id args (ok run) s same =
      subst (λ r. LoggedUnder r s.sender (run_code n run args args.code s).1.sender) (same run refl)
        (run_code-LoggedUnder args run s)
  after-LoggedUnder req_id args (err e) s same = LoggedUnder-refl req_id s.sender
  after-LoggedUnder req_id args panicked s same = LoggedUnder-refl req_id s.sender
  after-LoggedUnder req_id args pending s same = LoggedUnder-refl req_id s.sender
  after-LoggedUnder req_id args spent s same = LoggedUnder-refl req_id s.sender

  -- Where a connection has a context and a request does not ask for a new one, the run of its script
  -- sends log lines and nothing else, all of them under the ID of the request that created the context,
  -- whatever the ID of the request is that runs the script, and however the run ends.
  pub run_script-console :
      (req_id : ℕ) (args : RunScriptArgs n.Value) (s : Session n) (run : RunContext n)
      → is_true args.recreate_context ≡ false
      → s.run_ctx ≡ some run
      → LoggedUnder run.console_req_id s.sender (run_script n req_id args s).1.sender
  unfolding run_script
  run_script-console req_id args s run old cached =
      let (created, s') = create_context n req_id args s in
      subst
        (λ a.
          LoggedUnder run.console_req_id a
            (after created (λ r. run_code n r args args.code) s').1.sender)
        (create_context-sender req_id args s)
        (after-LoggedUnder run.console_req_id args created s'
          (λ run' e. (create_context-Same n req_id args s run run' old cached e).1))
