-- ===== src/Worker/RunScript/Logs.antt =====
-- What a run of src/worker/src/run_script.ts sends: log lines and nothing else.
use js_sidecar.Prelude.{ℕ, ◌≡◌, refl, sym, ap, List, [], ◌∷◌, ◌++◌, append-nil, arith, String}
use js_sidecar.Prelude.Outcome.{Outcome, Call, pure, ◌>>=◌}
use js_sidecar.Worker.ApiTypes.{log, worker_to_host_value}
use js_sidecar.Worker.Sender.{Sender, send_message, sent_frame}
use js_sidecar.Worker.Node.{Node, RunScriptArgs}
use js_sidecar.Worker.RunScript.{
  RunContext, Session, create_context, run_script, compile_expr, compile_module, with_console,
  send_logs, on_heap,
}
use js_sidecar.Worker.RunScript.Sends.{
  Sends, bind-Sends, quiet as quiet_sends, on_heap-Sends, pure-Sends, send_logs-Sends,
  with_console-Sends, create_context-Sends, compile_expr-Sends, compile_module-Sends,
  run_code-Sends,
}
use js_sidecar.Worker.Logged.{
  Sending-cases, went, threw, Silent-refl, Logged, Logged-same, Logged-trans,
}

abbrev Logged-refl : (s : Sender) → Logged s s
Logged-refl s = Logged-same s s (Silent-refl s)

send_line-Logged :
    (req_id : ℕ) (line : List ℕ) (s : Sender) → Logged s (send_message req_id log line s).1
unfolding worker_to_host_value
send_line-Logged req_id line s = elim (Sending-cases req_id log line s) [
  | threw e ↦ rw e (Logged-same s _ (record { on_wire = refl; id_le = omega arith }))
  | went v e ↦ rw e (record {
    lines = sent_frame s.id req_id log line ∷ [];
    logs = ((refl, v), tt);
    on_wire = ap (λ b. s.sent ++ b) (sym (append-nil _));
    rising = (omega arith, omega arith);
  })
]

module _ (n : Node) where
  -- From one state of a connection to the other, log lines were sent.
  abbrev pub Logs : {A : Type 0} → Call (Session n) n.Thrown A → Type 0
  Logs = Sends n Logged Logged-refl Logged-trans

  pub bind-Logs :
      {A B : Type 0} {c : Call (Session n) n.Thrown A} {f : A → Call (Session n) n.Thrown B}
      → Logs c
      → ((a : A) → Logs (f a))
      → Logs (c >>= f)
  bind-Logs = bind-Sends n Logged Logged-refl Logged-trans

  pub quiet :
      {A : Type 0} {c : Call (Session n) n.Thrown A}
      → ((s : Session n) → (c s).1.sender ≡ s.sender)
      → Logs c
  quiet = quiet_sends n Logged Logged-refl Logged-trans

  pub on_heap-Logs : {A : Type 0} (call : Call n.Heap n.Thrown A) → Logs (on_heap n call)
  on_heap-Logs = on_heap-Sends n Logged Logged-refl Logged-trans

  pub pure-Logs : {A : Type 0} {a : A} → Logs (pure a)
  pure-Logs = pure-Sends n Logged Logged-refl Logged-trans

  pub send_logs-Logs : (req_id : ℕ) (lines : List (List ℕ)) → Logs (send_logs n req_id lines)
  send_logs-Logs req_id =
      send_logs-Sends n Logged Logged-refl Logged-trans req_id (send_line-Logged req_id)

  pub with_console-Logs :
      {A : Type 0} (req_id : ℕ) (call : n.Heap → Outcome n.Thrown A × List (List ℕ) × n.Heap)
      → Logs (with_console n req_id call)
  with_console-Logs req_id =
      with_console-Sends n Logged Logged-refl Logged-trans req_id (send_line-Logged req_id)

  pub create_context-Logs :
      (req_id : ℕ) (args : RunScriptArgs n.Value) → Logs (create_context n req_id args)
  create_context-Logs = create_context-Sends n Logged Logged-refl Logged-trans

  pub compile_expr-Logs :
      (args : RunScriptArgs n.Value) (code : String) → Logs (compile_expr n args code)
  compile_expr-Logs = compile_expr-Sends n Logged Logged-refl Logged-trans

  pub compile_module-Logs :
      (run : RunContext n) (args : RunScriptArgs n.Value) (code : String)
      → Logs (compile_module n run args code)
  compile_module-Logs = compile_module-Sends n Logged Logged-refl Logged-trans

  -- Whatever a script does, and however it ends, `runScript` sends log lines and nothing else.
  pub run_script-Logs :
      (req_id : ℕ) (args : RunScriptArgs n.Value) → Logs (run_script n req_id args)
  unfolding run_script
  run_script-Logs req_id args = bind-Logs (create_context-Logs req_id args) (λ run.
      run_code-Sends n Logged Logged-refl Logged-trans run (send_line-Logged run.console_req_id)
        args args.code)
