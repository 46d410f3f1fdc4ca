-- ===== src/Worker/Tasks/Sequential.antt =====
-- The turns of Worker/Tasks, and the sequential model of src/worker/src/worker.ts in Worker/Handler.
use js_sidecar.Prelude.{
  ℕ, ◌≡◌, refl, sym, ap, ◌++◌, ◌∙◌, true, Option, none, some, List, [], ◌∷◌, String, if◌then◌else◌,
}
use Prim.Native.String.{[] as end_of_text, ◌∷◌ as ◌then◌}
use js_sidecar.Prelude.Outcome.{
  Outcome, ok, err, panicked, pending, spent, pure, lift, after, ◌>>=◌,
}
use js_sidecar.Worker.Protocol.{IncomingMessage}
use js_sidecar.Worker.Node.{Node, RunScriptArgs, RunResponse}
use js_sidecar.Worker.RunScript.{
  RunContext, Session, Run, is_true, create_context, compile_expr, with_console, output, run_code,
  run_expr, run_script,
}
use js_sidecar.Worker.Handler.{settle, handle_message, handle_run_script, handle_raw_message}
use js_sidecar.Worker.Tasks.{
  Stage, settles, Turn, finish, await_or_finish, begin_expr, begin_code, begin, staged, World,
  arrive,
}

abbrev map_ok {ℓ κ ι} : {E : Type ℓ} {A : Type κ} {B : Type ι} → (A → B) → Outcome E A → Outcome E B
map_ok f (ok a) = ok (f a)
map_ok f (err e) = err e
map_ok f panicked = panicked
map_ok f pending = pending
map_ok f spent = spent

module _ (n : Node) where
  open n use {Value, Thrown}

  -- The turn ends the task, with what the sequential call returns, and leaves the same session.
  record InOneTurn (turn_of : Run n (Stage n)) (call : Run n (RunResponse Value)) : Type 0 where
    ends : (s : Session n) → staged n (turn_of s).0 ≡ settles (map_ok some (call s).0)
    leaves : (s : Session n) → (turn_of s).1 ≡ (call s).1

  module _ {A : Type 0} {f : A → Run n (Stage n)} {g : A → Run n (RunResponse Value)} where
    after-ends :
        (r : Outcome Thrown A) (s : Session n)
        → ((a : A) → InOneTurn (f a) (g a))
        → (staged n (after r f s).0 ≡ settles (map_ok some (after r g s).0))
          × ((after r f s).1 ≡ (after r g s).1)
    after-ends (ok a) s h = ((h a).ends s, (h a).leaves s)
    after-ends (err e) s h = (refl, refl)
    after-ends panicked s h = (refl, refl)
    after-ends pending s h = (refl, refl)
    after-ends spent s h = (refl, refl)

    bind-InOneTurn :
        (call : Run n A) → ((a : A) → InOneTurn (f a) (g a)) → InOneTurn (call >>= f) (call >>= g)
    bind-InOneTurn call h = record {
      ends = λ s. (after-ends (call s).0 (call s).1 h).0;
      leaves = λ s. (after-ends (call s).0 (call s).1 h).1;
    }

  same-turn :
      {t t' : Run n (Stage n)} {c : Run n (RunResponse Value)}
      → ((s : Session n) → t s ≡ t' s)
      → InOneTurn t' c
      → InOneTurn t c
  same-turn same one = record {
    ends = λ s. ap (λ o. staged n o.0) (same s) ∙ one.ends s;
    leaves = λ s. ap (λ o. o.1) (same s) ∙ one.leaves s;
  }

  same-call :
      {t : Run n (Stage n)} {c c' : Run n (RunResponse Value)}
      → ((s : Session n) → c s ≡ c' s)
      → InOneTurn t c'
      → InOneTurn t c
  same-call same one = record {
    ends = λ s. one.ends s ∙ ap (λ o. settles (map_ok some o.0)) (sym (same s));
    leaves = λ s. one.leaves s ∙ ap (λ o. o.1) (sym (same s));
  }

  abbrev immediate :
      Outcome Thrown Value × List (List ℕ) × n.Heap
      → Outcome Thrown (Option Value) × List (List ℕ) × n.Heap
  immediate (r, logs, heap) = (map_ok some r, logs, heap)

  -- No value that a script gives has a `then`.
  abbrev GivesValues : Turn n → Type 0
  GivesValues turn =
      (compiled : n.Script) (context : n.Context) (timeout : Option ℕ) (heap : n.Heap)
      → turn.run_script compiled context timeout heap
        ≡ immediate (n.run_in_context compiled context timeout heap)

  logged-immediate :
      (sent : Outcome Thrown (Unit {0})) (r : Outcome Thrown Value) (s : Session n)
      → after sent (λ _. lift (map_ok some r)) s
        ≡ (map_ok some (after sent (λ _. lift r) s).0, (after sent (λ _. lift r) s).1)
  logged-immediate (ok x) r s = refl
  logged-immediate (err x) r s = refl
  logged-immediate panicked r s = refl
  logged-immediate pending r s = refl
  logged-immediate spent r s = refl

  after-map_ok :
      {A : Type 0} (r : Outcome Thrown Value) (f : Option Value → Run n A) (s : Session n)
      → after (map_ok some r) f s ≡ after r (λ v. f (some v)) s
  after-map_ok (ok v) f s = refl
  after-map_ok (err e) f s = refl
  after-map_ok panicked f s = refl
  after-map_ok pending f s = refl
  after-map_ok spent f s = refl

  after_assoc :
      {A B C : Type 0} (r : Outcome Thrown A) (f : A → Run n B) (g : B → Run n C) (s : Session n)
      → after (after r f s).0 g (after r f s).1 ≡ after r (λ a. f a >>= g) s
  after_assoc (ok a) f g s = refl
  after_assoc (err e) f g s = refl
  after_assoc panicked f g s = refl
  after_assoc pending f g s = refl
  after_assoc spent f g s = refl

  module _ (turn : Turn n) (values : GivesValues turn) where
    console-immediate :
        (req_id : ℕ) (compiled : n.Script) (context : n.Context) (timeout : Option ℕ)
        (s : Session n)
        → let call = with_console n req_id (n.run_in_context compiled context timeout) s in
          with_console n req_id (turn.run_script compiled context timeout) s
          ≡ (map_ok some call.0, call.1)
    unfolding with_console
    console-immediate req_id compiled context timeout s =
        rw (values compiled context timeout s.heap) (logged-immediate _ _ _)

    -- What an expression is run with, and what it is finished with.
    finish-InOneTurn :
        (run : RunContext n) (args : RunScriptArgs Value) (compiled : n.Script)
        → InOneTurn
            (with_console n run.console_req_id
                (turn.run_script compiled run.context args.timeout_ms)
              >>= await_or_finish n run args)
            (with_console n run.console_req_id
                (n.run_in_context compiled run.context args.timeout_ms)
              >>= λ v. output n run args (some v))
    unfolding finish
    finish-InOneTurn run args compiled =
        let call =
          with_console n run.console_req_id
            (n.run_in_context compiled run.context args.timeout_ms) in
        same-turn
          (λ s.
            ap (λ o. after o.0 (await_or_finish n run args) o.1)
              (console-immediate run.console_req_id compiled run.context args.timeout_ms s)
            ∙ after-map_ok (call s).0 (await_or_finish n run args) (call s).1)
          (bind-InOneTurn {f = λ v. await_or_finish n run args (some v)}
            {g = λ v. output n run args (some v)} call
            (λ v. record { ends = λ s. refl; leaves = λ s. refl }))

    expr-InOneTurn :
        (run : RunContext n) (args : RunScriptArgs Value) (code : String)
        → InOneTurn
            (begin_expr n turn run args code)
            (run_expr n run args code >>= output n run args)
    unfolding begin_expr run_expr
    expr-InOneTurn run args code =
        let compile = compile_expr n args code in
        same-call (λ s. after_assoc (compile s).0 _ (output n run args) (compile s).1)
          (bind-InOneTurn compile (λ c.
            let call =
              with_console n run.console_req_id (n.run_in_context c run.context args.timeout_ms) in
            same-call
              (λ s. after_assoc (call s).0 (λ v. pure (some v)) (output n run args) (call s).1)
              (finish-InOneTurn run args c)))

    code-InOneTurn :
        (run : RunContext n) (args : RunScriptArgs Value) (code : Option String)
        → is_true args.expr ≡ true
        → InOneTurn (begin_code n turn run args code) (run_code n run args code)
    code-InOneTurn run args none h = record { ends = λ s. refl; leaves = λ s. refl }
    code-InOneTurn run args (some end_of_text) h = record { ends = λ s. refl; leaves = λ s. refl }
    code-InOneTurn run args (some (c then code)) h = rw h (expr-InOneTurn run args (c then code))

    script-InOneTurn :
        (req_id : ℕ) (args : RunScriptArgs Value)
        → is_true args.expr ≡ true
        → InOneTurn
            (create_context n req_id args >>= λ run. begin_code n turn run args args.code)
            (run_script n req_id args)
    unfolding run_script
    script-InOneTurn req_id args h =
        bind-InOneTurn (create_context n req_id args) (λ run. code-InOneTurn run args args.code h)

    after-some :
        (r : Outcome Thrown (RunResponse Value)) (s : Session n)
        → after r (λ response. pure (some response)) s ≡ (map_ok some r, s)
    after-some (ok x) s = refl
    after-some (err x) s = refl
    after-some panicked s = refl
    after-some pending s = refl
    after-some spent s = refl

    -- If no value of a script ever has a `then`, a script in expression mode ends in the turn in which it arrives, and what
    -- is then settled is what the sequential model settles: it sends the same, and leaves the same session.
    arrive-handle_raw_message :
        (m : IncomingMessage) (w : World n) (args : RunScriptArgs Value)
        → m.type ≡ 0
        → n.parse m.body ≡ ok args
        → is_true args.expr ≡ true
        → (r : Outcome Thrown (Option (RunResponse Value))) × ((arrive n turn m w).tasks
            ≡ w.tasks ++ record { req_id = m.req_id; stage = settles r } ∷ [])
          × (settle n m.req_id r (arrive n turn m w).session ≡ handle_raw_message n m w.session)
    unfolding arrive begin handle_raw_message handle_message handle_run_script
    arrive-handle_raw_message m w args t p h =
        let one = script-InOneTurn m.req_id args h in
        let call = run_script n m.req_id args w.session in
        rw (t, p)
          (
            map_ok some call.0,
            ap (λ stage. w.tasks ++ record { req_id = m.req_id; stage = stage } ∷ [])
                (one.ends w.session),
            ap (settle n m.req_id (map_ok some call.0)) (one.leaves w.session)
                ∙ ap (λ o. settle n m.req_id o.0 o.1) (sym (after-some call.0 call.1)),
          )
