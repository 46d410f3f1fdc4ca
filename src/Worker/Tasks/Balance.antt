-- ===== src/Worker/Tasks/Balance.antt =====
-- How often the requests to one connection of src/worker/src/worker.ts are answered, in any order of
-- its tasks.
use mathlib.Core.List.{filter_map, filter_map-append}
use js_sidecar.Prelude.{
  ℕ, ◌+◌, ◌≡◌, inl, inr, refl, ap, ◌∙◌, Bool, true, false, ◌&&◌, List, [], ◌∷◌, ◌++◌, All, arith,
  ◌==◌, if◌then◌else◌,
}
use js_sidecar.Frame.{Frame, stream}
use js_sidecar.Worker.Node.{Node}
use js_sidecar.Worker.RunScript.{Session}
use js_sidecar.Worker.Tasks.{World, Reach}
use js_sidecar.Worker.Tasks.Service.{Reach-Implements}
use js_sidecar.Worker.Tasks.Events.{
  Event, requested, answered, ponged, Service, idle, takes, answers, pongs, shown, IsReply, output,
  request, ping, req_ids,
}

-- How often a number is in a list.
abbrev pub count : ℕ → List ℕ → ℕ
count a [] = 0
count a (x ∷ xs) = (if x == a then 1 else 0) + count a xs

-- How many frames with a message type are under a request ID.
abbrev pub replies_of : ℕ → ℕ → List Frame → ℕ
replies_of type r [] = 0
replies_of type r (f ∷ fs) =
    (if f.request_id == r && f.message_type == type then 1 else 0) + replies_of type r fs

abbrev answers_in : ℕ → List Event → ℕ
answers_in r [] = 0
answers_in r (requested s ∷ es) = answers_in r es
answers_in r (answered s ∷ es) = (if s == r then 1 else 0) + answers_in r es
answers_in r (ponged s ∷ es) = answers_in r es

abbrev pongs_in : ℕ → List Event → ℕ
pongs_in r [] = 0
pongs_in r (requested s ∷ es) = pongs_in r es
pongs_in r (answered s ∷ es) = pongs_in r es
pongs_in r (ponged s ∷ es) = (if s == r then 1 else 0) + pongs_in r es

count-append : (r : ℕ) (xs ys : List ℕ) → count r (xs ++ ys) ≡ count r xs + count r ys
count-append r [] ys = omega arith
count-append r (x ∷ xs) ys = omega (arith, count-append r xs ys)

answers_in-append :
    (r : ℕ) (xs ys : List Event) → answers_in r (xs ++ ys) ≡ answers_in r xs + answers_in r ys
answers_in-append r [] ys = omega arith
answers_in-append r (requested s ∷ xs) ys = answers_in-append r xs ys
answers_in-append r (answered s ∷ xs) ys = omega (arith, answers_in-append r xs ys)
answers_in-append r (ponged s ∷ xs) ys = answers_in-append r xs ys

answers_in-output :
    (r : ℕ) (es : List Event) → answers_in r (filter_map output es) ≡ answers_in r es
unfolding filter_map
answers_in-output r [] = refl
answers_in-output r (requested s ∷ es) = answers_in-output r es
answers_in-output r (answered s ∷ es) = omega (arith, answers_in-output r es)
answers_in-output r (ponged s ∷ es) = answers_in-output r es

pongs_in-output :
    (r : ℕ) (es : List Event) → pongs_in r (filter_map output es) ≡ count r (filter_map ping es)
unfolding filter_map
pongs_in-output r [] = refl
pongs_in-output r (requested s ∷ es) = pongs_in-output r es
pongs_in-output r (answered s ∷ es) = pongs_in-output r es
pongs_in-output r (ponged s ∷ es) = omega (arith, pongs_in-output r es)

-- In the service, each request has been answered or is open.
Service-balance :
    {open_requests : List ℕ} {events : List Event} (r : ℕ)
    → Service open_requests events
    → answers_in r events + count r open_requests ≡ count r (filter_map request events)
unfolding filter_map
Service-balance r idle = omega arith
Service-balance r (takes {open_requests} {events} s service) =
    rw (filter_map-append request events (requested s ∷ [])) (
      omega (
        arith,
        Service-balance r service,
        answers_in-append r events (requested s ∷ []),
        count-append r open_requests (s ∷ []),
        count-append r (filter_map request events) (s ∷ []),
      ))
Service-balance r (answers {events} before later s service) =
    rw (filter_map-append request events (answered s ∷ [])) (
      omega (
        arith,
        Service-balance r service,
        answers_in-append r events (answered s ∷ []),
        count-append r before (s ∷ later),
        count-append r before later,
        count-append r (filter_map request events) [],
      ))
Service-balance r (pongs {events = events} s service) =
    rw (filter_map-append request events (ponged s ∷ [])) (
      omega (
        arith,
        Service-balance r service,
        answers_in-append r events (ponged s ∷ []),
        count-append r (filter_map request events) [],
      ))

weigh :
    (same : Bool)
    → ◌≡◌ {A = ℕ} (if same && true then 1 else 0) (if same then 1 else 0)
      × (◌≡◌ {A = ℕ} (if same && false then 1 else 0) 0)
weigh true = (refl, refl)
weigh false = (refl, refl)

replies_of-shown :
    (r : ℕ) (fs : List Frame)
    → All IsReply fs
    → (replies_of 0x1000 r fs + replies_of 0x1002 r fs ≡ answers_in r (filter_map shown fs))
      × (replies_of 0x1003 r fs ≡ pongs_in r (filter_map shown fs))
unfolding filter_map
replies_of-shown r [] h = omega arith
replies_of-shown r (f ∷ fs) ((v, inl e), h) =
    rw e (omega (arith, weigh (f.request_id == r), replies_of-shown r fs h))
replies_of-shown r (f ∷ fs) ((v, inr (inl (inl e))), h) =
    rw e (omega (arith, weigh (f.request_id == r), replies_of-shown r fs h))
replies_of-shown r (f ∷ fs) ((v, inr (inl (inr e))), h) =
    rw e (omega (arith, weigh (f.request_id == r), replies_of-shown r fs h))
replies_of-shown r (f ∷ fs) ((v, inr (inr e)), h) =
    rw e (omega (arith, weigh (f.request_id == r), replies_of-shown r fs h))

-- The balance of a connection, whatever turns its messages and scripts take: what was sent is a sequence
-- of whole frames in which each request ID has exactly as many responses and errors as requests came
-- under it, less those whose tasks are pending, and exactly as many pongs as pings.
pub Reach-balance :
    (n : Node) (session : Session n) (w : World n) (pinged asked : List ℕ)
    → session.sender.sent ≡ []
    → Reach n session w pinged asked
    → (frames : List Frame) × (w.session.sender.sent ≡ stream frames)
      × All IsReply frames
      × ((r : ℕ)
          → (replies_of 0x1000 r frames + replies_of 0x1002 r frames + count r (req_ids w.tasks)
              ≡ count r asked)
            × (replies_of 0x1003 r frames ≡ count r pinged))
Reach-balance n session w pinged asked new reached =
    let i = Reach-Implements n session w pinged asked new reached in
    (
      i.frames,
      i.on_wire,
      i.replies,
      λ r.
          let (answer_count, pong_count) = replies_of-shown r i.frames i.replies in
          (
            omega (
              arith,
              answer_count,
              ap (answers_in r) i.outputs,
              answers_in-output r i.events,
              Service-balance r i.service,
              ap (count r) i.requests,
            ),
            pong_count
                ∙ ap (pongs_in r) i.outputs
                ∙ pongs_in-output r i.events
                ∙ ap (count r) i.ponged_to,
          ),
    )
