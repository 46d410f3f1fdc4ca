-- ===== src/Worker/RunScript/Context.antt =====
-- `createContext` of src/worker/src/run_script.ts: which context a script runs in.
use js_sidecar.Prelude.{ℕ, ◌≡◌, refl, true, false, Option, none, some, List, [], ◌∷◌, arith}
use js_sidecar.Prelude.Outcome.{
  Outcome, ok, err, panicked, pending, spent, Call, after, ◌>>=◌, ◌>>◌,
}
use js_sidecar.Worker.Node.{Node, CodeModule, RunScriptArgs}
use js_sidecar.Worker.RunScript.{
  RunContext, Session, is_true, or_empty, new_context, find_context, define_modules, create_context,
  keep_code, save, get_code, on_heap, code_cache_key, run_script, set_keys,
}

module _ (n : Node) where
  find_context_new :
      (req_id : ℕ) (args : RunScriptArgs n.Value) (s : Session n)
      → is_true args.recreate_context ≡ true
      → find_context n req_id args s ≡ new_context n req_id args s
  unfolding find_context
  find_context_new req_id args s h = ground (arith, h)

  find_context_old :
      (req_id : ℕ) (args : RunScriptArgs n.Value) (s : Session n) (run : RunContext n)
      → is_true args.recreate_context ≡ false
      → s.run_ctx ≡ some run
      → find_context n req_id args s
        ≡ (ok run, record s { heap = set_keys n run.context (or_empty args.globals) s.heap })
  unfolding find_context
  find_context_old req_id args s run h c = ground (arith, h, c)

  -- Where the arguments ask for a new context, the context in the cache plays no part: the call gives
  -- the same result and leaves the same state whatever it was.
  pub create_context_recreated :
      (req_id : ℕ) (args : RunScriptArgs n.Value) (s : Session n) (other : Option (RunContext n))
      → is_true args.recreate_context ≡ true
      → create_context n req_id args (record s { run_ctx = other }) ≡ create_context n req_id args s
  unfolding create_context new_context save
  create_context_recreated req_id args s other h = rw (
    find_context_new req_id args s h,
    find_context_new req_id args (record s { run_ctx = other }) h,
  )

  pub run_script_recreated :
      (req_id : ℕ) (args : RunScriptArgs n.Value) (s : Session n) (other : Option (RunContext n))
      → is_true args.recreate_context ≡ true
      → run_script n req_id args (record s { run_ctx = other }) ≡ run_script n req_id args s
  unfolding run_script
  run_script_recreated req_id args s other h = rw (create_context_recreated req_id args s other h)

  -- `run'` has the context and the console of `run`.
  abbrev pub Same : RunContext n → RunContext n → Type 0
  Same run run' = (run'.context ≡ run.context) × (run'.console_req_id ≡ run.console_req_id)

  keep_code_ok :
      (key : List ℕ) (c d : Option n.Data) (s : Session n) → (keep_code n key c d s).0 ≡ ok tt
  unfolding keep_code
  keep_code_ok key none none s = refl
  keep_code_ok key none (some d) s = refl
  keep_code_ok key (some c) d s = refl

  -- A module that was compiled is added, and the rest is defined.
  add_module :
      (m : CodeModule) (ms : List CodeModule) (run : RunContext n) (key : List ℕ)
      (cached : Option n.Data) (compiled : Outcome n.Thrown n.Module)
      → Call (Session n) n.Thrown (RunContext n)
  add_module m ms run key cached compiled s =
      after compiled
        (λ c. do
          keep_code n key cached (n.module_data c)
          run' ← save n (record run { modules = (m.name, c) ∷ run.modules })
          define_modules n run' ms)
        s

  add_module-Same :
      (m : CodeModule) (ms : List CodeModule) (run run' : RunContext n) (key : List ℕ)
      (cached : Option n.Data) (compiled : Outcome n.Thrown n.Module) (s : Session n)
      → ((r : RunContext n) (s' : Session n) → (define_modules n r ms s').0 ≡ ok run' → Same r run')
      → (add_module m ms run key cached compiled s).0 ≡ ok run'
      → Same run run'
  unfolding add_module save
  add_module-Same m ms run run' key cached (ok c) s rest h =
      rest (record run { modules = (m.name, c) ∷ run.modules }) _
        (rw (keep_code_ok key cached (n.module_data c) s) at h)
  add_module-Same m ms run run' key cached (err e) s rest h = cc h
  add_module-Same m ms run run' key cached panicked s rest h = cc h
  add_module-Same m ms run run' key cached pending s rest h = cc h
  add_module-Same m ms run run' key cached spent s rest h = cc h

  define_modules-Same :
      (ms : List CodeModule) (run run' : RunContext n) (s : Session n)
      → (define_modules n run ms s).0 ≡ ok run'
      → Same run run'
  unfolding define_modules add_module get_code on_heap save
  define_modules-Same [] run run' s h = (cc h, cc h)
  define_modules-Same (m ∷ ms) run run' s h =
      add_module-Same m ms run run' (code_cache_key true m.code []) _ _ _
        (λ r s'. define_modules-Same ms r run' s') h

  functions-Same :
      (done : Outcome n.Thrown (Unit {0})) (ms : List CodeModule) (run run' : RunContext n)
      (s : Session n)
      → (after done (λ _. define_modules n run ms) s).0 ≡ ok run'
      → Same run run'
  functions-Same (ok tt) ms run run' s h = define_modules-Same ms run run' s h
  functions-Same (err e) ms run run' s h = cc h
  functions-Same panicked ms run run' s h = cc h
  functions-Same pending ms run run' s h = cc h
  functions-Same spent ms run run' s h = cc h

  -- Otherwise, where a connection has a context, `createContext` returns one with the same context of
  -- node:vm, whose console is still that of the request that created it.
  pub create_context-Same :
      (req_id : ℕ) (args : RunScriptArgs n.Value) (s : Session n) (run run' : RunContext n)
      → is_true args.recreate_context ≡ false
      → s.run_ctx ≡ some run
      → (create_context n req_id args s).0 ≡ ok run'
      → Same run run'
  unfolding create_context
  create_context-Same req_id args s run run' h c done =
      functions-Same _ (or_empty args.modules) run run' _
        (rw (find_context_old req_id args s run h c) at done)
