-- ===== src/Worker/Tasks.antt =====
-- The messages of one connection in src/worker/src/worker.ts as tasks that take turns: while
-- `runScript` of src/worker/src/run_script.ts awaits a promise, other messages are handled.
pub mod Logs
pub mod Events
pub mod Balance
pub mod Pending
pub mod Numbered
pub mod Sequential
pub mod Served
pub mod Progress
pub mod Overtake
pub mod Intake
pub mod Service
use js_sidecar.Prelude.{
  ℕ, ◌≡◌, ◌≢◌, Option, none, some, List, [], ◌∷◌, ◌++◌, String, ◌==◌, if◌then◌else◌,
}
use Prim.Native.String.{[] as end_of_text, ◌∷◌ as ◌then◌}
use js_sidecar.Prelude.Outcome.{
  Outcome, ok, err, panicked, pending, spent, Call, pure, lift, after, ◌>>=◌, ◌>>◌,
}
use js_sidecar.Worker.Protocol.{IncomingMessage}
use js_sidecar.Worker.Node.{Node, RunScriptArgs, RunResponse}
use js_sidecar.Worker.RunScript.{
  RunContext, Session, Run, is_true, create_context, compile_expr, compile_module, with_console,
  send_logs, on_heap, output,
}
use js_sidecar.Worker.Handler.{settle, handle_raw_message}

-- Where a task stands: at one of the three awaits of `runScript`, or at its end, with the value or the
-- rejection of the promise of `handleMessage`.
pub data Stage (n : Node) : Type 0 where
  awaits_value : RunContext n → RunScriptArgs n.Value → Stage n
  awaits_link : RunContext n → RunScriptArgs n.Value → n.Module → Stage n
  awaits_module : RunContext n → RunScriptArgs n.Value → Stage n
  settles : Outcome n.Thrown (Option (RunResponse n.Value)) → Stage n

pub record Task (n : Node) : Type 0 where
  pub req_id : ℕ
  pub stage : Stage n

pub record World (n : Node) : Type 0 where
  pub session : Session n
  pub tasks : List (Task n)

-- What node:vm does in one turn of the event loop. `run_script` gives a value or, where it has a
-- `then`, nothing yet; `link` and `evaluate` give a promise.
pub record Turn (n : Node) : Type 0 where
  pub run_script :
      n.Script
      → n.Context
      → Option ℕ
      → n.Heap
      → Outcome n.Thrown (Option n.Value) × List (List ℕ) × n.Heap
  pub link : n.Module → List (String × n.Module) → n.Heap → n.Heap
  pub evaluate : n.Module → n.Heap → Outcome n.Thrown (Unit {0}) × List (List ℕ) × n.Heap

module _ (n : Node) where
  open n use {Value, Thrown}

  unfoldable pub finish : RunContext n → RunScriptArgs Value → Option Value → Run n (Stage n)
  finish run args value = do response ← output n run args value; pure (settles (ok (some response)))

  -- `if (typeof retVal?.then === 'function')`
  abbrev pub await_or_finish : RunContext n → RunScriptArgs Value → Option Value → Run n (Stage n)
  await_or_finish run args none = pure (awaits_value run args)
  await_or_finish run args (some v) = finish run args (some v)

  unfoldable pub begin_expr : Turn n → RunContext n → RunScriptArgs Value → String → Run n (Stage n)
  begin_expr turn run args code = do
    compiled ← compile_expr n args code
    value ← with_console n run.console_req_id (turn.run_script compiled run.context args.timeout_ms)
    await_or_finish run args value

  unfoldable pub begin_module :
      Turn n → RunContext n → RunScriptArgs Value → String → Run n (Stage n)
  begin_module turn run args code = do
    compiled ← compile_module n run args code
    on_heap n (λ h. (ok tt, turn.link compiled run.modules h))
    pure (awaits_link run args compiled)

  abbrev pub begin_code :
      Turn n → RunContext n → RunScriptArgs Value → Option String → Run n (Stage n)
  begin_code turn run args none =
      pure (settles (ok (some (record { globals = none; return_value = none }))))
  begin_code turn run args (some end_of_text) =
      pure (settles (ok (some (record { globals = none; return_value = none }))))
  begin_code turn run args (some (c then code)) =
      if is_true args.expr
      then begin_expr turn run args (c then code)
      else begin_module turn run args (c then code)

  -- `handleMessage` up to its first await, or to its end.
  unfoldable pub begin : Turn n → ℕ → ℕ → List ℕ → Run n (Stage n)
  begin turn req_id type message =
      if type == 0
      then (do
        args ← lift (n.parse message)
        run ← create_context n req_id args
        begin_code turn run args args.code)
      else pure (settles (ok none))

  -- From the await at which a task stands to the next one, with what came of the promise.
  unfoldable pub resume : Turn n → Stage n → Outcome Thrown (Option Value) → Run n (Stage n)
  resume turn (awaits_value run args) came = do value ← lift came; finish run args value
  resume turn (awaits_link run args compiled) came = do
    lift came
    with_console n run.console_req_id (turn.evaluate compiled)
    pure (awaits_module run args)
  resume turn (awaits_module run args) came = do lift came; finish run args none
  resume turn (settles r) came = pure (settles r)

  -- What is thrown in a task rejects its promise.
  abbrev pub staged : Outcome Thrown (Stage n) → Stage n
  staged (ok stage) = stage
  staged (err e) = settles (err e)
  staged panicked = settles panicked
  staged pending = settles pending
  staged spent = settles spent

  unfoldable pub arrive : Turn n → IncomingMessage → World n → World n
  arrive turn m w =
      let (stage, s) = begin turn m.req_id m.type m.body w.session in
      record {
        session = s;
        tasks = w.tasks ++ record { req_id = m.req_id; stage = staged stage } ∷ [];
      }

  unfoldable pub resume_task :
      Turn n
      → List (Task n)
      → Task n
      → List (Task n)
      → Outcome Thrown (Option Value)
      → World n
      → World n
  resume_task turn before t later came w =
      let (stage, s) = resume turn t.stage came w.session in
      record { session = s; tasks = before ++ record t { stage = staged stage } ∷ later }

  -- One turn of the event loop, with the requests that came in it: pings, and others. `logs_later` is
  -- script code that a timer or a promise of its own runs. A turn in which a handler throws ends the
  -- worker, and is no step.
  pub data Step : World n → World n → List ℕ → List ℕ → Type 0 where
    pings :
        {w : World n} (m : IncomingMessage)
        → m.type ≡ 1
        → (handle_raw_message n m w.session).0 ≡ ok tt
        → Step w (record w { session = (handle_raw_message n m w.session).1 }) (m.req_id ∷ []) []
    arrives :
        {w : World n} (turn : Turn n) (m : IncomingMessage)
        → m.type ≢ 1
        → Step w (arrive turn m w) [] (m.req_id ∷ [])
    resumes :
        {w : World n} (turn : Turn n) (before later : List (Task n)) (t : Task n)
        (came : Outcome Thrown (Option Value))
        → w.tasks ≡ before ++ t ∷ later
        → Step w (resume_task turn before t later came w) [] []
    logs_later :
        {w : World n} (req_id : ℕ) (lines : List (List ℕ)) (heap : n.Heap)
        → Step w
            (record w { session = (send_logs n req_id lines (record w.session { heap = heap })).1 })
            []
            []
    settled :
        {w : World n} (before later : List (Task n)) (t : Task n)
        (r : Outcome Thrown (Option (RunResponse Value)))
        → w.tasks ≡ before ++ t ∷ later
        → t.stage ≡ settles r
        → (settle n t.req_id r w.session).0 ≡ ok tt
        → Step w
            (record { session = (settle n t.req_id r w.session).1; tasks = before ++ later })
            []
            []

  -- The states of a connection, with the IDs of the pings and of the other requests that it was sent.
  pub data Reach (session : Session n) : World n → List ℕ → List ℕ → Type 0 where
    connected : Reach session (record { session = session; tasks = [] }) [] []
    turns :
        {w w' : World n} {pinged asked more_pinged more_asked : List ℕ}
        → Reach session w pinged asked
        → Step w w' more_pinged more_asked
        → Reach session w' (pinged ++ more_pinged) (asked ++ more_asked)
