-- ===== src/Worker/RunScript/Sends.antt =====
-- What a run of src/worker/src/run_script.ts does to the sender of its connection, along any relation that
-- holds of a sender that is left alone, is transitive, and holds of the log lines that are sent.
use js_sidecar.Prelude.{
  ℕ, ◌≡◌, refl, sym, subst, Bool, true, false, Option, none, some, List, [], ◌∷◌, arith,
  if◌then◌else◌, String,
}
use Prim.Native.String.{[] as end_of_text, ◌∷◌ as ◌then◌}
use js_sidecar.Prelude.Outcome.{Outcome, Call, pure, lift, ◌>>=◌, ◌>>◌}
use js_sidecar.Prelude.Moves.{Moves, bind-Moves}
use js_sidecar.Worker.ApiTypes.{log}
use js_sidecar.Worker.Sender.{Sender, send_message}
use js_sidecar.Worker.Node.{Node, FunctionDef, CodeModule, RunScriptArgs}
use js_sidecar.Worker.RunScript.{
  RunContext, Session, is_true, or_empty, new_context, find_context, define_functions,
  define_modules, create_context, run_code, compile_expr, compile_module, run_expr, run_module,
  with_console, send_logs, save, keep_code, get_code, on_heap,
}

module _ (n : Node) (R : Sender → Sender → Type 0) (same : (s : Sender) → R s s)
    (trans : (a b c : Sender) → R a b → R b c → R a c) where
  abbrev SendsTo : Session n → Session n → Type 0
  SendsTo s s' = R s.sender s'.sender

  abbrev pub Sends : {A : Type 0} → Call (Session n) n.Thrown A → Type 0
  Sends = Moves SendsTo

  pub bind-Sends :
      {A B : Type 0} {c : Call (Session n) n.Thrown A} {f : A → Call (Session n) n.Thrown B}
      → Sends c
      → ((a : A) → Sends (f a))
      → Sends (c >>= f)
  bind-Sends = bind-Moves SendsTo (λ a b c. trans a.sender b.sender c.sender)

  -- A call that leaves the sender alone.
  pub quiet :
      {A : Type 0} {c : Call (Session n) n.Thrown A}
      → ((s : Session n) → (c s).1.sender ≡ s.sender)
      → Sends c
  quiet {c = c} e = record { moves = λ s. subst (λ x. R s.sender x) (sym (e s)) (same s.sender) }

  pub on_heap-Sends : {A : Type 0} (call : Call n.Heap n.Thrown A) → Sends (on_heap n call)
  unfolding on_heap
  on_heap-Sends call = quiet (λ s. refl)

  get_code-Sends : (key : List ℕ) → Sends (get_code n key)
  unfolding get_code
  get_code-Sends key = quiet (λ s. refl)

  keep_code-sender :
      (key : List ℕ) (c d : Option n.Data) (s : Session n)
      → (keep_code n key c d s).1.sender ≡ s.sender
  unfolding keep_code
  keep_code-sender key none (some d) s = refl
  keep_code-sender key none none s = refl
  keep_code-sender key (some c) d s = refl

  keep_code-Sends : (key : List ℕ) (c d : Option n.Data) → Sends (keep_code n key c d)
  keep_code-Sends key c d = quiet (keep_code-sender key c d)

  save-Sends : (run : RunContext n) → Sends (save n run)
  unfolding save
  save-Sends run = quiet (λ s. refl)

  pub pure-Sends : {A : Type 0} {a : A} → Sends (pure a)
  pure-Sends = quiet (λ s. refl)

  find_context-Sends :
      (req_id : ℕ) (args : RunScriptArgs n.Value) → Sends (find_context n req_id args)
  unfolding find_context new_context save
  find_context-Sends req_id args = quiet (λ s. ground arith)

  -- What is sent under a request ID.
  abbrev pub Line : ℕ → Type 0
  Line req_id = (line : List ℕ) (s : Sender) → R s (send_message req_id log line s).1

  pub send_logs-Sends :
      (req_id : ℕ) → Line req_id → (lines : List (List ℕ)) → Sends (send_logs n req_id lines)
  unfolding send_logs
  send_logs-Sends req_id one [] = pure-Sends
  send_logs-Sends req_id one (l ∷ ls) =
      bind-Sends (record { moves = λ s. one l s.sender }) (λ a. send_logs-Sends req_id one ls)

  pub with_console-Sends :
      {A : Type 0} (req_id : ℕ)
      → Line req_id
      → (call : n.Heap → Outcome n.Thrown A × List (List ℕ) × n.Heap)
      → Sends (with_console n req_id call)
  unfolding with_console
  with_console-Sends req_id one call = record {
    moves = λ s.
        let sent : Sends (do send_logs n req_id (call s.heap).1; lift (call s.heap).0) =
          bind-Sends (send_logs-Sends req_id one (call s.heap).1) (λ a. quiet (λ s'. refl)) in
        sent.moves (record s { heap = (call s.heap).2 });
  }

  define_functions-Sends :
      (run : RunContext n) (fs : List FunctionDef) → Sends (define_functions n run fs)
  unfolding define_functions
  define_functions-Sends run [] = pure-Sends
  define_functions-Sends run (f ∷ fs) = bind-Sends (get_code-Sends _) (λ cached.
      bind-Sends (on_heap-Sends _)
        (λ compiled. bind-Sends (on_heap-Sends _) (λ x. define_functions-Sends run fs)))

  define_modules-Sends :
      (ms : List CodeModule) (run : RunContext n) → Sends (define_modules n run ms)
  unfolding define_modules
  define_modules-Sends [] run = pure-Sends
  define_modules-Sends (m ∷ ms) run = bind-Sends (get_code-Sends _) (λ cached.
      bind-Sends (on_heap-Sends _) (λ compiled.
        bind-Sends (keep_code-Sends _ _ _)
          (λ x. bind-Sends (save-Sends _) (λ run'. define_modules-Sends ms run'))))

  pub create_context-Sends :
      (req_id : ℕ) (args : RunScriptArgs n.Value) → Sends (create_context n req_id args)
  unfolding create_context
  create_context-Sends req_id args = bind-Sends (find_context-Sends req_id args) (λ run.
      bind-Sends (define_functions-Sends run (or_empty args.functions))
        (λ x. define_modules-Sends (or_empty args.modules) run))

  pub compile_expr-Sends :
      (args : RunScriptArgs n.Value) (code : String) → Sends (compile_expr n args code)
  unfolding compile_expr
  compile_expr-Sends args code = bind-Sends (get_code-Sends _) (λ cached.
      bind-Sends (on_heap-Sends _)
        (λ compiled. bind-Sends (keep_code-Sends _ _ _) (λ x. pure-Sends)))

  pub compile_module-Sends :
      (run : RunContext n) (args : RunScriptArgs n.Value) (code : String)
      → Sends (compile_module n run args code)
  unfolding compile_module
  compile_module-Sends run args code = bind-Sends (get_code-Sends _) (λ cached.
      bind-Sends (on_heap-Sends _)
        (λ compiled. bind-Sends (keep_code-Sends _ _ _) (λ x. pure-Sends)))

  module _ (run : RunContext n) (one : Line run.console_req_id) (args : RunScriptArgs n.Value) where
    run_expr-Sends : (code : String) → Sends (run_expr n run args code)
    unfolding run_expr
    run_expr-Sends code =
        bind-Sends (compile_expr-Sends args code)
          (λ compiled. bind-Sends (with_console-Sends _ one _) (λ v. pure-Sends))

    run_module-Sends : (code : String) → Sends (run_module n run args code)
    unfolding run_module
    run_module-Sends code = bind-Sends (compile_module-Sends run args code) (λ compiled.
        bind-Sends (on_heap-Sends _)
          (λ y. bind-Sends (with_console-Sends _ one _) (λ v. pure-Sends)))

    run_either-Sends :
        (expr : Bool) (code : String)
        → Sends (if expr then run_expr n run args code else run_module n run args code)
    run_either-Sends true code = run_expr-Sends code
    run_either-Sends false code = run_module-Sends code

    pub run_code-Sends : (code : Option String) → Sends (run_code n run args code)
    run_code-Sends none = pure-Sends
    run_code-Sends (some end_of_text) = pure-Sends
    run_code-Sends (some (c then code)) =
        bind-Sends (run_either-Sends (is_true args.expr) (c then code)) (λ value. quiet (λ s. refl))
