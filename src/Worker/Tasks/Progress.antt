-- ===== src/Worker/Tasks/Progress.antt =====
-- How the tasks of one connection of src/worker/src/worker.ts end when no more messages come.
use js_sidecar.Prelude.{
  ℕ, suc, ◌+◌, ◌*◌, ◌≤◌, ◌≡◌, ◌≢◌, ◌⊎◌, inl, inr, refl, ap, Option, List, [], ◌∷◌, length, All,
  arith,
}
use js_sidecar.Prelude.Outcome.{Outcome, ok, err, panicked, pending, spent}
use js_sidecar.Frame.{Frame, stream}
use js_sidecar.Worker.Node.{Node, RunResponse}
use js_sidecar.Worker.RunScript.{Session}
use js_sidecar.Worker.Handler.{settle}
use js_sidecar.Worker.Tasks.{
  Stage, awaits_value, awaits_link, awaits_module, settles, Task, World, Turn, resume_task, Reach,
}
use js_sidecar.Worker.Tasks.Served.{Served, woken, ended, weight_le, Served-Reach, Served-bound}
use js_sidecar.Worker.Tasks.Events.{IsReply, req_ids}
use js_sidecar.Worker.Tasks.Balance.{count, replies_of, Reach-balance}

module _ (n : Node) where
  -- The next turn of the first task, with what came of the promise if it waits for one.
  abbrev advance_at :
      Turn n
      → Outcome n.Thrown (Option n.Value)
      → Task n
      → List (Task n)
      → World n
      → Stage n
      → World n
  advance_at turn came t later w (settles r) = record {
    session = (settle n t.req_id r w.session).1;
    tasks = later;
  }
  advance_at turn came t later w (awaits_value run args) = resume_task n turn [] t later came w
  advance_at turn came t later w (awaits_link run args compiled) =
      resume_task n turn [] t later came w
  advance_at turn came t later w (awaits_module run args) = resume_task n turn [] t later came w

  abbrev advance_first :
      Turn n → Outcome n.Thrown (Option n.Value) → List (Task n) → World n → World n
  advance_first turn came [] w = w
  advance_first turn came (t ∷ later) w = advance_at turn came t later w t.stage

  unfoldable pub advance : Turn n → Outcome n.Thrown (Option n.Value) → World n → World n
  advance turn came w = advance_first turn came w.tasks w

  -- The answer of a task that has ended throws, which ends the worker.
  pub record Throws (w : World n) : Type 0 where
    pub task : Task n
    pub result : Outcome n.Thrown (Option (RunResponse n.Value))
    pub later : List (Task n)
    pub first : w.tasks ≡ task ∷ later
    pub ends : task.stage ≡ settles result
    pub throws : (settle n task.req_id result w.session).0 ≢ ok tt

  ok_or_not : (x : Outcome n.Thrown (Unit {0})) → (x ≡ ok tt) ⊎ (x ≢ ok tt)
  ok_or_not (ok tt) = inl refl
  ok_or_not (err e) = inr (λ h. cc)
  ok_or_not panicked = inr (λ h. cc)
  ok_or_not pending = inr (λ h. cc)
  ok_or_not spent = inr (λ h. cc)

  module _ (turn : Turn n) (came : Outcome n.Thrown (Option n.Value)) {w w' : World n} {k : ℕ}
      (served : Served n w k w') where
    advance_at-Served :
        (t : Task n) (later : List (Task n)) (stage : Stage n)
        → w'.tasks ≡ t ∷ later
        → t.stage ≡ stage
        → Served n w (suc k) (advance_at turn came t later w' stage) ⊎ Throws w'
    advance_at-Served t later (awaits_value run args) e s =
        inl (woken turn [] later t came served e (rw s (omega arith)))
    advance_at-Served t later (awaits_link run args compiled) e s =
        inl (woken turn [] later t came served e (rw s (omega arith)))
    advance_at-Served t later (awaits_module run args) e s =
        inl (woken turn [] later t came served e (rw s (omega arith)))
    advance_at-Served t later (settles r) e s =
        elim (ok_or_not (settle n t.req_id r w'.session).0) [
          | inl h ↦ inl (ended [] later t r served e s h)
          | inr h ↦
              inr (record { task = t; result = r; later = later; first = e; ends = s; throws = h })
        ]

    advance_first-Served :
        (ts : List (Task n))
        → w'.tasks ≡ ts
        → (w'.tasks ≡ []) ⊎ (Served n w (suc k) (advance_first turn came ts w') ⊎ Throws w')
    advance_first-Served [] e = inl e
    advance_first-Served (t ∷ later) e = inr (advance_at-Served t later t.stage e refl)

    advance-Served : (w'.tasks ≡ []) ⊎ (Served n w (suc k) (advance turn came w') ⊎ Throws w')
    unfolding advance
    advance-Served = advance_first-Served w'.tasks refl

-- Each request ID has as many responses and errors as requests came under it, and as many pongs as pings.
abbrev pub AllAnswered : {n : Node} → List ℕ → List ℕ → World n → Type 0
AllAnswered pinged asked w =
    (frames : List Frame) × (w.session.sender.sent ≡ stream frames)
    × All IsReply frames
    × ((r : ℕ)
        → (replies_of 0x1000 r frames + replies_of 0x1002 r frames ≡ count r asked)
          × (replies_of 0x1003 r frames ≡ count r pinged))

pub no_tasks-AllAnswered :
    (n : Node) (session : Session n) (w : World n) (pinged asked : List ℕ)
    → session.sender.sent ≡ []
    → Reach n session w pinged asked
    → w.tasks ≡ []
    → AllAnswered pinged asked w
no_tasks-AllAnswered n session w pinged asked new reached e =
    let (frames, on_wire, replies, balance) = Reach-balance n session w pinged asked new reached in
    (
      frames,
      on_wire,
      replies,
      λ r. (omega (arith, (balance r).0, ap (λ ts. count r (req_ids ts)) e), (balance r).1),
    )

-- From whatever a connection has reached, while no more messages come and the promises that its tasks
-- await are settled, whatever comes of them and in whatever order, the tasks take no more than three
-- turns each; and at any time, either each request ID has as many responses and errors as requests
-- came under it, and as many pongs as pings, or the first task takes its next turn, or its answer
-- throws, which ends the worker.
pub Served-ends :
    (n : Node) (session : Session n) (w w' : World n) (pinged asked : List ℕ) (k : ℕ)
    (turn : Turn n) (came : Outcome n.Thrown (Option n.Value))
    → session.sender.sent ≡ []
    → Reach n session w pinged asked
    → Served n w k w'
    → (k ≤ 3 * length w.tasks)
      × (AllAnswered pinged asked w' ⊎ (Served n w (suc k) (advance n turn came w') ⊎ Throws n w'))
Served-ends n session w w' pinged asked k turn came new reached served = (
  omega (arith, Served-bound n served, weight_le w.tasks),
  elim (advance-Served n turn came served) [
    | inl e ↦ inl (
        no_tasks-AllAnswered n session w' pinged asked new (Served-Reach n session reached served)
          e)
    | inr goes_on ↦ inr goes_on
  ],
)
