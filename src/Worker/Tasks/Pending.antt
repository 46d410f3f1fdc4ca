-- ===== src/Worker/Tasks/Pending.antt =====
-- The requests of one connection of src/worker/src/worker.ts as a collection without an order, since tasks
-- end in any order.
use mathlib.Core.List.{filter_map, filter_map-append, Perm, perm_middle}
use mathlib.Core.List.Perm
use mathlib.Core.Quot
use mathlib.Core.Quot.{Quot}
use js_sidecar.Prelude.{
  ℕ, ◌≡◌, refl, sym, ap, subst, ◌∙◌, Option, none, some, List, [], ◌∷◌, ◌++◌, append-nil,
  append_assoc, All, arith, ◌==◌, if◌then◌else◌,
}
use js_sidecar.Frame.{Frame, stream}
use js_sidecar.Worker.Node.{Node}
use js_sidecar.Worker.RunScript.{Session}
use js_sidecar.Worker.Tasks.{World, Reach}
use js_sidecar.Worker.Tasks.Events.{
  Event, requested, answered, ponged, Service, idle, takes, answers, pongs, shown, IsReply, output,
  request, ping, req_ids,
}
use js_sidecar.Worker.Tasks.Service.{Reach-Implements}

-- Request IDs, with how often each is there, and no order.
abbrev pub Requests : Type 0
Requests = Quot (Perm {A = ℕ})

abbrev pub requests_of : List ℕ → Requests
requests_of ids = Quot.mk ids

-- The request IDs of the pongs, and of the responses and errors, in the order in which they were sent.
abbrev pub pong_id : Frame → Option ℕ
pong_id f = if f.message_type == 0x1003 then some f.request_id else none

abbrev pub answer_id : Frame → Option ℕ
answer_id f =
    if f.message_type == 0x1001
    then none
    else if f.message_type == 0x1003
    then none
    else some f.request_id

abbrev answer : Event → Option ℕ
answer (requested r) = none
answer (answered r) = some r
answer (ponged r) = none

-- An event that adds nothing to a list.
skips :
    (f : Event → Option ℕ) (events : List Event) (e : Event)
    → f e ≡ none
    → filter_map f (events ++ e ∷ []) ≡ filter_map f events
unfolding filter_map
skips f events e h = filter_map-append f events (e ∷ []) ∙ rw h (append-nil (filter_map f events))

-- An event that adds a number to its end.
adds :
    (f : Event → Option ℕ) (events : List Event) (e : Event) (r : ℕ)
    → f e ≡ some r
    → filter_map f (events ++ e ∷ []) ≡ filter_map f events ++ r ∷ []
unfolding filter_map
adds f events e r h = filter_map-append f events (e ∷ []) ∙ rw h refl

along : (a b c d : List ℕ) → a ≡ b → c ≡ d → Perm b d → Perm a c
along a b c d p q h = subst (λ x. Perm x c) (sym p) (subst (λ x. Perm b x) (sym q) h)

-- What was taken is answered or pending.
Service-Perm :
    {pending : List ℕ} {events : List Event}
    → Service pending events
    → Perm (filter_map answer events ++ pending) (filter_map request events)
unfolding filter_map
Service-Perm idle = Perm.refl []
Service-Perm (takes {open_requests} {events} r service) =
    along _ _ _ _
      (ap (λ x. x ++ (open_requests ++ r ∷ [])) (skips answer events (requested r) refl)
        ∙ sym (append_assoc (filter_map answer events) open_requests (r ∷ [])))
      (adds request events (requested r) r refl) (Perm.append_right (r ∷ []) (Service-Perm service))
Service-Perm (answers {events} before later r service) =
    along _ _ _ _
      (ap (λ x. x ++ (before ++ later)) (adds answer events (answered r) r refl)
        ∙ append_assoc (filter_map answer events) (r ∷ []) (before ++ later))
      (skips request events (answered r) refl)
      (Perm.trans
        (Perm.append_left (filter_map answer events) (Perm.symm (perm_middle before later)))
        (Service-Perm service))
Service-Perm (pongs {open_requests} {events} r service) =
    along _ _ _ _ (ap (λ x. x ++ open_requests) (skips answer events (ponged r) refl))
      (skips request events (ponged r) refl) (Service-Perm service)

answer_id-shown :
    (fs : List Frame) → filter_map answer_id fs ≡ filter_map answer (filter_map shown fs)
unfolding filter_map
answer_id-shown [] = refl
answer_id-shown (f ∷ fs) = grind (arith, answer_id-shown fs)

pong_id-shown : (fs : List Frame) → filter_map pong_id fs ≡ filter_map ping (filter_map shown fs)
unfolding filter_map
pong_id-shown [] = refl
pong_id-shown (f ∷ fs) = grind (arith, pong_id-shown fs)

answer-output : (es : List Event) → filter_map answer (filter_map output es) ≡ filter_map answer es
unfolding filter_map
answer-output [] = refl
answer-output (requested r ∷ es) = answer-output es
answer-output (answered r ∷ es) = ap (λ x. r ∷ x) (answer-output es)
answer-output (ponged r ∷ es) = answer-output es

ping-output : (es : List Event) → filter_map ping (filter_map output es) ≡ filter_map ping es
unfolding filter_map
ping-output [] = refl
ping-output (requested r ∷ es) = ping-output es
ping-output (answered r ∷ es) = ping-output es
ping-output (ponged r ∷ es) = ap (λ x. r ∷ x) (ping-output es)

-- In every state that the turns of one connection reach, what was sent is a sequence of whole frames
-- in which the pongs answer the pings in the order in which these came, and the requests that came
-- are, as collections without an order, those that were answered together with those whose tasks are
-- pending.
pub Reach-pending :
    (n : Node) (session : Session n) (w : World n) (pinged asked : List ℕ)
    → session.sender.sent ≡ []
    → Reach n session w pinged asked
    → (frames : List Frame) × (w.session.sender.sent ≡ stream frames)
      × All IsReply frames
      × (filter_map pong_id frames ≡ pinged)
      × (requests_of (filter_map answer_id frames ++ req_ids w.tasks) ≡ requests_of asked)
Reach-pending n session w pinged asked new reached =
    let i = Reach-Implements n session w pinged asked new reached in
    (
      i.frames,
      i.on_wire,
      i.replies,
      pong_id-shown i.frames ∙ ap (filter_map ping) i.outputs ∙ ping-output i.events ∙ i.ponged_to,
      Quot.sound (
          along _ _ _ _
            (ap (λ x. x ++ req_ids w.tasks)
              (answer_id-shown i.frames
                ∙ ap (filter_map answer) i.outputs
                ∙ answer-output i.events))
            (sym i.requests) (Service-Perm i.service)),
    )
