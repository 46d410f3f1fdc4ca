-- ===== src/Worker/Tasks/Logs.antt =====
-- What a turn of a task of src/worker/src/worker.ts sends: log lines and nothing else.
use js_sidecar.Prelude.{
  ℕ, refl, Bool, true, false, Option, none, some, List, String, ◌==◌, if◌then◌else◌,
}
use Prim.Native.String.{[] as end_of_text, ◌∷◌ as ◌then◌}
use js_sidecar.Prelude.Outcome.{Outcome, ok, pure, lift, ◌>>=◌}
use js_sidecar.Worker.Node.{Node, RunScriptArgs}
use js_sidecar.Worker.RunScript.{RunContext, is_true, create_context}
use js_sidecar.Worker.RunScript.Logs.{
  Logs, bind-Logs, quiet, pure-Logs, create_context-Logs, with_console-Logs, on_heap-Logs,
  compile_expr-Logs, compile_module-Logs,
}
use js_sidecar.Worker.Tasks.{
  Stage, awaits_value, awaits_link, awaits_module, settles, Turn, finish, await_or_finish,
  begin_expr, begin_module, begin_code, begin, resume,
}

module _ (n : Node) (turn : Turn n) where
  finish-Logs :
      (run : RunContext n) (args : RunScriptArgs n.Value) (v : Option n.Value)
      → Logs n (finish n run args v)
  unfolding finish
  finish-Logs run args v = quiet n (λ s. refl)

  await_or_finish-Logs :
      (run : RunContext n) (args : RunScriptArgs n.Value) (v : Option n.Value)
      → Logs n (await_or_finish n run args v)
  await_or_finish-Logs run args none = pure-Logs n
  await_or_finish-Logs run args (some v) = finish-Logs run args (some v)

  begin_expr-Logs :
      (run : RunContext n) (args : RunScriptArgs n.Value) (code : String)
      → Logs n (begin_expr n turn run args code)
  unfolding begin_expr
  begin_expr-Logs run args code =
      bind-Logs n (compile_expr-Logs n args code)
        (λ compiled. bind-Logs n (with_console-Logs n _ _) (λ v. await_or_finish-Logs run args v))

  begin_module-Logs :
      (run : RunContext n) (args : RunScriptArgs n.Value) (code : String)
      → Logs n (begin_module n turn run args code)
  unfolding begin_module
  begin_module-Logs run args code =
      bind-Logs n (compile_module-Logs n run args code)
        (λ compiled. bind-Logs n (on_heap-Logs n _) (λ x. pure-Logs n))

  begin_either-Logs :
      (expr : Bool) (run : RunContext n) (args : RunScriptArgs n.Value) (code : String)
      → Logs n (if expr then begin_expr n turn run args code else begin_module n turn run args code)
  begin_either-Logs true run args code = begin_expr-Logs run args code
  begin_either-Logs false run args code = begin_module-Logs run args code

  begin_code-Logs :
      (run : RunContext n) (args : RunScriptArgs n.Value) (code : Option String)
      → Logs n (begin_code n turn run args code)
  begin_code-Logs run args none = pure-Logs n
  begin_code-Logs run args (some end_of_text) = pure-Logs n
  begin_code-Logs run args (some (c then code)) =
      begin_either-Logs (is_true args.expr) run args (c then code)

  begin_known-Logs :
      (known : Bool) (req_id : ℕ) (message : List ℕ)
      → Logs n (
          if known
          then (do
            args ← lift (n.parse message)
            run ← create_context n req_id args
            begin_code n turn run args args.code)
          else pure (settles (ok none)))
  begin_known-Logs true req_id message = bind-Logs n (quiet n (λ s. refl)) (λ args.
      bind-Logs n (create_context-Logs n req_id args) (λ run. begin_code-Logs run args args.code))
  begin_known-Logs false req_id message = pure-Logs n

  pub begin-Logs : (req_id type : ℕ) (message : List ℕ) → Logs n (begin n turn req_id type message)
  unfolding begin
  begin-Logs req_id type message = begin_known-Logs (type == 0) req_id message

  pub resume-Logs :
      (stage : Stage n) (came : Outcome n.Thrown (Option n.Value))
      → Logs n (resume n turn stage came)
  unfolding resume
  resume-Logs (awaits_value run args) came =
      bind-Logs n (quiet n (λ s. refl)) (λ v. finish-Logs run args v)
  resume-Logs (awaits_link run args compiled) came =
      bind-Logs n (quiet n (λ s. refl))
        (λ x. bind-Logs n (with_console-Logs n _ _) (λ y. pure-Logs n))
  resume-Logs (awaits_module run args) came =
      bind-Logs n (quiet n (λ s. refl)) (λ x. finish-Logs run args none)
  resume-Logs (settles r) came = pure-Logs n
