-- ===== src/Worker/RunScript.antt =====
-- src/worker/src/run_script.ts. The awaits of a run are taken to their end before the next message of
-- the connection is handled.
pub mod Context
pub mod Sends
pub mod Logs
pub mod Console
pub mod Keys
use js_sidecar.Prelude.{
  ℕ, Bool, true, false, Option, none, some, List, [], ◌∷◌, ◌++◌, String, if◌then◌else◌,
}
use Prim.Native.String.{[] as end_of_text, ◌∷◌ as ◌then◌}
use js_sidecar.Prelude.Outcome.{
  Outcome, ok, err, panicked, pending, spent, Call, map_err, pure, lift, call_map_err, after, ◌>>=◌,
  ◌>>◌,
}
use js_sidecar.Text.{text}
use js_sidecar.Worker.ApiTypes.{log}
use js_sidecar.Worker.Sender.{Sender, send_message}
use js_sidecar.Worker.Node.{Node, FunctionDef, CodeModule, RunScriptArgs, RunResponse}

abbrev pub joined : List String → List ℕ
joined [] = []
joined (p ∷ ps) = 0 ∷ (text p ++ joined ps)

-- `codeCacheKey`: the parts, joined by the character 0.
unfoldable pub code_cache_key : Bool → String → List String → List ℕ
code_cache_key esm code params =
    text (if esm then "esm" else "cjs") ++ (0 ∷ (text code ++ joined params))

abbrev pub is_true : Option Bool → Bool
is_true (some true) = true
is_true _ = false

abbrev pub or_empty {ℓ} : {A : Type ℓ} → Option (List A) → List A
or_empty none = []
or_empty (some xs) = xs

-- `RunContext`. Its console was made for the request that created it.
pub record RunContext (n : Node) : Type 0 where
  pub modules : List (String × n.Module)
  pub context : n.Context
  pub console_req_id : ℕ

-- A connection of a worker: its sending side, the run context in its cache, and what all connections of
-- the worker share.
pub record Session (n : Node) : Type 0 where
  pub sender : Sender
  pub run_ctx : Option (RunContext n)
  pub heap : n.Heap
  pub code_cache : n.Cache

module _ (n : Node) where
  open n use {Value, Thrown, Module, Data}

  abbrev pub Run : Type 0 → Type 0
  Run A = Call (Session n) Thrown A

  unfoldable pub on_heap : {A : Type 0} → Call n.Heap Thrown A → Run A
  on_heap call s = let (r, h) = call s.heap in (r, record s { heap = h })

  unfoldable pub get_code : List ℕ → Run (Option Data)
  get_code key s = let (d, c) = n.get key s.code_cache in (ok d, record s { code_cache = c })

  -- What was compiled without cached data goes into the cache, where it has data.
  unfoldable pub keep_code : List ℕ → Option Data → Option Data → Run (Unit {0})
  keep_code key none (some d) s = (ok tt, record s { code_cache = n.set key d s.code_cache })
  keep_code key none none s = (ok tt, s)
  keep_code key (some c) d s = (ok tt, s)

  unfoldable pub save : RunContext n → Run (RunContext n)
  save run s = (ok run, record s { run_ctx = some run })

  abbrev pub set_keys : n.Context → List (String × Value) → n.Heap → n.Heap
  set_keys context [] h = h
  set_keys context ((key, value) ∷ rest) h = set_keys context rest (n.set_key context key value h)

  unfoldable pub new_context : ℕ → RunScriptArgs Value → Run (RunContext n)
  new_context req_id args s =
      let (context, h) = n.create_context (or_empty args.globals) s.heap in
      save (record { modules = []; context = context; console_req_id = req_id })
        (record s { heap = h })

  -- The run context of a request: the one in the cache, with the new globals, or a new one.
  unfoldable pub find_context : ℕ → RunScriptArgs Value → Run (RunContext n)
  find_context req_id args s = elim (if is_true args.recreate_context then none else s.run_ctx) [
    | none ↦ new_context req_id args s
    | some run ↦ (ok run, record s { heap = set_keys run.context (or_empty args.globals) s.heap })
  ]

  unfoldable pub define_functions : RunContext n → List FunctionDef → Run (Unit {0})
  define_functions run [] = pure tt
  define_functions run (f ∷ fs) = do
    cached ← get_code (code_cache_key false f.code f.params)
    compiled ← on_heap (n.compile_function f.code f.params run.context cached)
    on_heap (λ h. (ok tt, n.set_key run.context f.name compiled h))
    define_functions run fs

  -- `runCtx.modules` is an object that the cache shares, so each new module is saved at once.
  unfoldable pub define_modules : RunContext n → List CodeModule → Run (RunContext n)
  define_modules run [] = pure run
  define_modules run (m ∷ ms) = do
    cached ← get_code (code_cache_key true m.code [])
    compiled ← on_heap (n.source_text_module m.code m.name run.context cached)
    keep_code (code_cache_key true m.code []) cached (n.module_data compiled)
    run' ← save (record run { modules = (m.name, compiled) ∷ run.modules })
    define_modules run' ms

  unfoldable pub create_context : ℕ → RunScriptArgs Value → Run (RunContext n)
  create_context req_id args = do
    run ← find_context req_id args
    define_functions run (or_empty args.functions)
    define_modules run (or_empty args.modules)

  -- The console of a run context sends what is logged, in order.
  unfoldable pub send_logs : ℕ → List (List ℕ) → Run (Unit {0})
  send_logs req_id [] = pure tt
  send_logs req_id (l ∷ ls) = do
    λ s.
        let (r, sender) = send_message req_id log l s.sender in
        (map_err n.thrown r, record s { sender = sender })
    send_logs req_id ls

  unfoldable pub with_console :
      {A : Type 0} → ℕ → (n.Heap → Outcome Thrown A × List (List ℕ) × n.Heap) → Run A
  with_console req_id call s =
      let (r, logs, h) = call s.heap in (do send_logs req_id logs; lift r) (record s { heap = h })

  abbrev pub file_name : String → String
  file_name end_of_text = "<script>"
  file_name (c then s) = c then s

  unfoldable pub compile_expr : RunScriptArgs Value → String → Run n.Script
  compile_expr args code = do
    cached ← get_code (code_cache_key false code [])
    compiled ← on_heap (n.script code (file_name args.name) cached)
    keep_code (code_cache_key false code []) cached (some (n.script_data compiled))
    pure compiled

  unfoldable pub compile_module : RunContext n → RunScriptArgs Value → String → Run Module
  compile_module run args code = do
    cached ← get_code (code_cache_key true code [])
    compiled ← on_heap (n.source_text_module code (file_name args.name) run.context cached)
    keep_code (code_cache_key true code []) cached (n.module_data compiled)
    pure compiled

  unfoldable pub run_expr : RunContext n → RunScriptArgs Value → String → Run (Option Value)
  run_expr run args code = do
    compiled ← compile_expr args code
    value ← with_console run.console_req_id (n.run_in_context compiled run.context args.timeout_ms)
    pure (some value)

  unfoldable pub run_module : RunContext n → RunScriptArgs Value → String → Run (Option Value)
  run_module run args code = do
    compiled ← compile_module run args code
    on_heap (n.link compiled run.modules)
    with_console run.console_req_id (n.evaluate compiled)
    pure none

  abbrev pub output : RunContext n → RunScriptArgs Value → Option Value → Run (RunResponse Value)
  output run args value s = (
    ok (record {
      globals = some (n.get_keys run.context args.return_keys s.heap);
      return_value = value;
    }),
    s,
  )

  abbrev pub run_code : RunContext n → RunScriptArgs Value → Option String → Run (RunResponse Value)
  run_code run args none = pure (record { globals = none; return_value = none })
  run_code run args (some end_of_text) = pure (record { globals = none; return_value = none })
  run_code run args (some (c then code)) = do
    value ←
        if is_true args.expr
        then run_expr run args (c then code)
        else run_module run args (c then code)
    output run args value

  unfoldable pub run_script : ℕ → RunScriptArgs Value → Run (RunResponse Value)
  run_script req_id args = do run ← create_context req_id args; run_code run args args.code
