-- ===== src/Worker/Tasks/Served.antt =====
-- Turns of the tasks of one connection of src/worker/src/worker.ts while no more messages come, and how
-- many there can be.
use js_sidecar.Prelude.{
  ℕ, suc, ◌+◌, ◌*◌, ◌≤◌, ◌<◌, ◌≡◌, ap, subst, Option, none, some, List, [], ◌∷◌, ◌++◌, append-nil,
  length, arith,
}
use js_sidecar.Prelude.Outcome.{
  Outcome, ok, err, panicked, pending, spent, pure, lift, after, ◌>>=◌,
}
use js_sidecar.Worker.Node.{Node, RunScriptArgs, RunResponse}
use js_sidecar.Worker.RunScript.{send_logs, RunContext, Session, Run, output, with_console}
use js_sidecar.Worker.Handler.{settle}
use js_sidecar.Worker.Tasks.{
  logs_later, Stage, awaits_value, awaits_link, awaits_module, settles, Task, World, Turn, finish,
  resume, staged, resume_task, Step, resumes, settled, Reach, turns,
}

-- How many promises a task may still wait for.
abbrev pub promises_left : {n : Node} → Stage n → ℕ
promises_left (awaits_value run args) = 1
promises_left (awaits_link run args compiled) = 2
promises_left (awaits_module run args) = 1
promises_left (settles r) = 0

abbrev pub weight : {n : Node} → List (Task n) → ℕ
weight [] = 0
weight (t ∷ ts) = suc (promises_left t.stage) + weight ts

module _ (n : Node) where
  -- Turns in which an awaited promise is settled, or a task that has ended is answered, `k` of them, and
  -- turns of script code that runs by itself.
  pub data Served (w : World n) : ℕ → World n → Type 0 where
    begun : Served w 0 w
    woken :
        {k : ℕ} {w' : World n} (turn : Turn n) (before later : List (Task n)) (t : Task n)
        (came : Outcome n.Thrown (Option n.Value))
        → Served w k w'
        → w'.tasks ≡ before ++ t ∷ later
        → 0 < promises_left t.stage
        → Served w (suc k) (resume_task n turn before t later came w')
    ended :
        {k : ℕ} {w' : World n} (before later : List (Task n)) (t : Task n)
        (r : Outcome n.Thrown (Option (RunResponse n.Value)))
        → Served w k w'
        → w'.tasks ≡ before ++ t ∷ later
        → t.stage ≡ settles r
        → (settle n t.req_id r w'.session).0 ≡ ok tt
        → Served w
            (suc k)
            (record { session = (settle n t.req_id r w'.session).1; tasks = before ++ later })
    logged :
        {k : ℕ} {w' : World n} (req_id : ℕ) (lines : List (List ℕ)) (heap : n.Heap)
        → Served w k w'
        → Served w k (record w' {
          session = (send_logs n req_id lines (record w'.session { heap = heap })).1;
        })

  pub quiet :
      (session : Session n) {w w' : World n} {pinged asked : List ℕ}
      → Reach n session w pinged asked
      → Step n w w' [] []
      → Reach n session w' pinged asked
  quiet session {w' = w'} {pinged = pinged} {asked = asked} reached step =
      subst (λ x. Reach n session w' x asked) (append-nil pinged)
        (subst (λ x. Reach n session w' (pinged ++ []) x) (append-nil asked) (turns reached step))

  pub Served-Reach :
      (session : Session n) {w w' : World n} {pinged asked : List ℕ} {k : ℕ}
      → Reach n session w pinged asked
      → Served w k w'
      → Reach n session w' pinged asked
  Served-Reach session reached begun = reached
  Served-Reach session reached (woken turn before later t came served e h) =
      quiet session (Served-Reach session reached served) (resumes turn before later t came e)
  Served-Reach session reached (ended before later t r served e s h) =
      quiet session (Served-Reach session reached served) (settled before later t r e s h)
  Served-Reach session reached (logged req_id lines heap served) =
      quiet session (Served-Reach session reached served) (logs_later req_id lines heap)

weight-append : {n : Node} (xs ys : List (Task n)) → weight (xs ++ ys) ≡ weight xs + weight ys
weight-append [] ys = omega arith
weight-append (x ∷ xs) ys = omega (arith, weight-append xs ys)

promises_left_le : {n : Node} (stage : Stage n) → promises_left stage ≤ 2
promises_left_le (awaits_value run args) = omega arith
promises_left_le (awaits_link run args compiled) = omega arith
promises_left_le (awaits_module run args) = omega arith
promises_left_le (settles r) = omega arith

pub weight_le : {n : Node} (ts : List (Task n)) → weight ts ≤ 3 * length ts
weight_le [] = omega arith
weight_le (t ∷ ts) = omega (arith, promises_left_le t.stage, weight_le ts)

module _ (n : Node) where
  after-promises_left :
      {A : Type 0} (bound : ℕ) (r : Outcome n.Thrown A) (f : A → Run n (Stage n)) (s : Session n)
      → ((a : A) (s : Session n) → promises_left (staged n (f a s).0) ≤ bound)
      → promises_left (staged n (after r f s).0) ≤ bound
  after-promises_left bound (ok a) f s h = h a s
  after-promises_left bound (err e) f s h = omega arith
  after-promises_left bound panicked f s h = omega arith
  after-promises_left bound pending f s h = omega arith
  after-promises_left bound spent f s h = omega arith

  -- However the call ends, at most `bound` promises are left to wait for.
  record AtMost (bound : ℕ) (call : Run n (Stage n)) : Type 0 where
    at_most : (s : Session n) → promises_left (staged n (call s).0) ≤ bound

  bind-AtMost :
      {A : Type 0} {bound : ℕ} {f : A → Run n (Stage n)} (call : Run n A)
      → ((a : A) → AtMost bound (f a))
      → AtMost bound (call >>= f)
  bind-AtMost {bound = bound} {f = f} call h = record {
    at_most = λ s. after-promises_left bound (call s).0 f (call s).1 (λ a s'. (h a).at_most s');
  }

  pure-AtMost :
      {bound : ℕ} (stage : Stage n) → promises_left stage ≤ bound → AtMost bound (pure stage)
  pure-AtMost stage h = record { at_most = λ s. h }

  finish-AtMost :
      (run : RunContext n) (args : RunScriptArgs n.Value) (v : Option n.Value)
      → AtMost 0 (finish n run args v)
  unfolding finish
  finish-AtMost run args v =
      bind-AtMost (output n run args v)
        (λ response. pure-AtMost (settles (ok (some response))) (omega arith))

  resume-AtMost :
      (turn : Turn n) (stage : Stage n) (came : Outcome n.Thrown (Option n.Value))
      → 0 < promises_left stage
      → (bound : ℕ) × (bound < promises_left stage) × AtMost bound (resume n turn stage came)
  unfolding resume
  resume-AtMost turn (awaits_value run args) came h =
      (0, omega arith, bind-AtMost (lift came) (λ v. finish-AtMost run args v))
  resume-AtMost turn (awaits_link run args compiled) came h = (
    1,
    omega arith,
    bind-AtMost (lift came) (λ v.
        bind-AtMost (with_console n run.console_req_id (turn.evaluate compiled))
          (λ x. pure-AtMost (awaits_module run args) (omega arith))),
  )
  resume-AtMost turn (awaits_module run args) came h =
      (0, omega arith, bind-AtMost (lift came) (λ v. finish-AtMost run args none))
  resume-AtMost turn (settles r) came h = elim h [ ]

  resume-promises_left :
      (turn : Turn n) (stage : Stage n) (came : Outcome n.Thrown (Option n.Value)) (s : Session n)
      → 0 < promises_left stage
      → promises_left (staged n (resume n turn stage came s).0) < promises_left stage
  resume-promises_left turn stage came s h =
      let (bound, less, most) = resume-AtMost turn stage came h in
      omega (arith, less, most.at_most s)

  -- Each turn leaves less to wait for.
  pub Served-bound :
      {w w' : World n} {k : ℕ} → Served n w k w' → k + weight w'.tasks ≤ weight w.tasks
  unfolding resume_task
  Served-bound begun = omega arith
  Served-bound (woken {w' = w'} turn before later t came served e h) = omega (
    arith,
    Served-bound served,
    ap weight e,
    weight-append before (t ∷ later),
    weight-append before
        (record t { stage = staged n (resume n turn t.stage came w'.session).0 } ∷ later),
    resume-promises_left turn t.stage came w'.session h,
  )
  Served-bound (ended before later t r served e s h) = omega (
    arith,
    Served-bound served,
    ap weight e,
    weight-append before (t ∷ later),
    weight-append before later,
  )
  Served-bound (logged req_id lines heap served) = Served-bound served
