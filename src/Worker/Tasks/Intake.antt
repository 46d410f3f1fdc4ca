-- ===== src/Worker/Tasks/Intake.antt =====
-- `protocol.on('message', ...)` of src/worker/src/worker.ts: the messages that a protocol emits, one after
-- the other, each up to its first await.
use js_sidecar.Prelude.{
  ℕ, ◌≡◌, inl, inr, refl, sym, ap, subst, ◌∙◌, Bool-cases, List, [], ◌∷◌, ◌++◌, append-nil,
  append_assoc, ◌==◌, if◌then◌else◌, arith,
}
use js_sidecar.Prelude.Outcome.{Outcome, ok, err, panicked, pending, spent, Call, pure, after, ◌>>◌}
use js_sidecar.Worker.Protocol.{IncomingMessage}
use js_sidecar.Worker.Node.{Node}
use js_sidecar.Worker.RunScript.{Session}
use js_sidecar.Worker.Handler.{handle_raw_message}
use js_sidecar.Worker.Tasks.{World, Turn, arrive, Step, pings, arrives, Reach, turns}

module _ (n : Node) (turn : Turn n) where
  -- A ping is handled at once; it alone can throw here, out of `emit`.
  unfoldable pub take_one : IncomingMessage → Call (World n) n.Thrown (Unit {0})
  take_one m w =
      if m.type == 1
      then (let (o, s) = handle_raw_message n m w.session in (o, record w { session = s }))
      else (ok tt, arrive n turn m w)

  unfoldable pub take_in : List IncomingMessage → Call (World n) n.Thrown (Unit {0})
  take_in [] = pure tt
  take_in (m ∷ ms) = do take_one m; take_in ms

-- The request IDs of the pings, and of the other messages.
abbrev pub pings_in : List IncomingMessage → List ℕ
pings_in [] = []
pings_in (m ∷ ms) = if m.type == 1 then m.req_id ∷ pings_in ms else pings_in ms

abbrev pub others_in : List IncomingMessage → List ℕ
others_in [] = []
others_in (m ∷ ms) = if m.type == 1 then others_in ms else m.req_id ∷ others_in ms

pub pings_in-append :
    (xs ys : List IncomingMessage) → pings_in (xs ++ ys) ≡ pings_in xs ++ pings_in ys
pings_in-append [] ys = refl
pings_in-append (x ∷ xs) ys = ground (arith, pings_in-append xs ys)

pub others_in-append :
    (xs ys : List IncomingMessage) → others_in (xs ++ ys) ≡ others_in xs ++ others_in ys
others_in-append [] ys = refl
others_in-append (x ∷ xs) ys = ground (arith, others_in-append xs ys)

-- What the steps of a connection keep, of its state and of the requests that it was sent.
abbrev pub Kept : (n : Node) → (World n → List ℕ → List ℕ → Type 0) → Type 0
Kept n Holds =
    (w w' : World n) (pinged asked more_pinged more_asked : List ℕ)
    → Holds w pinged asked
    → Step n w w' more_pinged more_asked
    → Holds w' (pinged ++ more_pinged) (asked ++ more_asked)

module _ (n : Node) (turn : Turn n) (Holds : World n → List ℕ → List ℕ → Type 0)
    (kept : Kept n Holds) where
  -- A message moves the connection on by one step.
  take_one-Kept :
      (m : IncomingMessage) (ms : List IncomingMessage) (w : World n) (pinged asked : List ℕ)
      → Holds w pinged asked
      → (take_one n turn m w).0 ≡ ok tt
      → (p : List ℕ) × (a : List ℕ) × Holds (take_one n turn m w).1 (pinged ++ p) (asked ++ a)
        × (p ++ pings_in ms ≡ pings_in (m ∷ ms))
        × (a ++ others_in ms ≡ others_in (m ∷ ms))
  unfolding take_one
  take_one-Kept m ms w pinged asked holds = elim (Bool-cases (m.type == 1)) [
    | inl e ↦ rw e (λ done.
        (m.req_id ∷ [], [], kept _ _ _ _ _ _ holds (pings m (ground (arith, e)) done), refl, refl))
    | inr e ↦ rw e (λ done. (
      [],
      m.req_id ∷ [],
      kept _ _ _ _ _ _ holds (arrives turn m (ground (arith, e))),
      refl,
      refl,
    ))
  ]

  after_one :
      (o : Outcome n.Thrown (Unit {0})) (ms : List IncomingMessage) (w : World n)
      → (after o (λ _. take_in n turn ms) w).0 ≡ ok tt
      → (o ≡ ok tt) × (after o (λ _. take_in n turn ms) w ≡ take_in n turn ms w)
  after_one (ok tt) ms w h = (refl, refl)
  after_one (err e) ms w h = cc h
  after_one panicked ms w h = cc h
  after_one pending ms w h = cc h
  after_one spent ms w h = cc h

  pub take_in-Kept :
      (ms : List IncomingMessage) (w : World n) (pinged asked : List ℕ)
      → Holds w pinged asked
      → (take_in n turn ms w).0 ≡ ok tt
      → Holds (take_in n turn ms w).1 (pinged ++ pings_in ms) (asked ++ others_in ms)
  unfolding take_in
  take_in-Kept [] w pinged asked holds done =
      subst (λ x. Holds w x (asked ++ [])) (sym (append-nil pinged))
        (subst (λ x. Holds w pinged x) (sym (append-nil asked)) holds)
  take_in-Kept (m ∷ ms) w pinged asked holds done =
      let (went, rest) = after_one (take_one n turn m w).0 ms (take_one n turn m w).1 done in
      let (p, a, now, p_all, a_all) = take_one-Kept m ms w pinged asked holds went in
      let later =
        take_in-Kept ms (take_one n turn m w).1 (pinged ++ p) (asked ++ a) now
          (ap (λ o. o.0) (sym rest) ∙ done) in
      subst (λ o. Holds o.1 (pinged ++ pings_in (m ∷ ms)) (asked ++ others_in (m ∷ ms))) (sym rest)
        (subst
          (λ x. Holds (take_in n turn ms (take_one n turn m w).1).1 x (asked ++ others_in (m ∷ ms)))
          (append_assoc pinged p (pings_in ms) ∙ ap (λ x. pinged ++ x) p_all)
          (subst
            (λ x.
              Holds (take_in n turn ms (take_one n turn m w).1).1 ((pinged ++ p) ++ pings_in ms) x)
            (append_assoc asked a (others_in ms) ∙ ap (λ x. asked ++ x) a_all) later))

-- The messages are turns of their connection.
pub take_in-Reach :
    (n : Node) (turn : Turn n) (session : Session n) (ms : List IncomingMessage) (w : World n)
    (pinged asked : List ℕ)
    → Reach n session w pinged asked
    → (take_in n turn ms w).0 ≡ ok tt
    → Reach n session (take_in n turn ms w).1 (pinged ++ pings_in ms) (asked ++ others_in ms)
take_in-Reach n turn session =
    take_in-Kept n turn (Reach n session) (λ w w' p a p' a' reached step. turns reached step)
