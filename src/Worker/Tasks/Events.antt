-- ===== src/Worker/Tasks/Events.antt =====
-- The service that a connection of src/worker/src/worker.ts gives, and what its frames show of it.
use mathlib.Core.List.{filter_map, filter_map-append}
use js_sidecar.Prelude.{
  ℕ, ◌≡◌, ◌⊎◌, inl, inr, refl, ◌∙◌, Option, none, some, List, [], ◌∷◌, ◌++◌, map, All, ◌==◌,
  if◌then◌else◌,
}
use js_sidecar.Frame.{Frame, IsEncodable}
use js_sidecar.Worker.Logged.{IsLog}
use js_sidecar.Worker.Node.{Node}
use js_sidecar.Worker.Handler.Answers.{IsOutcome}
use js_sidecar.Worker.Tasks.{Task}

pub data Event : Type 0 where
  requested answered ponged : ℕ → Event

-- The abstract service: the requests that are pending, by their IDs, and what has happened so far. A
-- request comes; one that is pending is answered; a ping is ponged at once.
pub data Service : List ℕ → List Event → Type 0 where
  idle : Service [] []
  takes :
      {open_requests : List ℕ} {events : List Event} (r : ℕ)
      → Service open_requests events
      → Service (open_requests ++ r ∷ []) (events ++ requested r ∷ [])
  answers :
      {events : List Event} (before later : List ℕ) (r : ℕ)
      → Service (before ++ r ∷ later) events
      → Service (before ++ later) (events ++ answered r ∷ [])
  pongs :
      {open_requests : List ℕ} {events : List Event} (r : ℕ)
      → Service open_requests events
      → Service open_requests (events ++ ponged r ∷ [])

-- What a frame shows of the service; a log line shows nothing.
abbrev pub shown : Frame → Option Event
shown f =
    if f.message_type == 0x1001
    then none
    else some (if f.message_type == 0x1003 then ponged f.request_id else answered f.request_id)

-- A frame that fits its header words, of a type that the host knows.
abbrev pub IsReply : Frame → Type 0
IsReply f =
    IsEncodable f
    × ((f.message_type ≡ 0x1001) ⊎ (IsOutcome f.message_type ⊎ (f.message_type ≡ 0x1003)))

abbrev pub output : Event → Option Event
output (requested r) = none
output (answered r) = some (answered r)
output (ponged r) = some (ponged r)

abbrev pub request : Event → Option ℕ
request (requested r) = some r
request (answered r) = none
request (ponged r) = none

abbrev pub ping : Event → Option ℕ
ping (requested r) = none
ping (answered r) = none
ping (ponged r) = some r

abbrev pub req_ids : {n : Node} → List (Task n) → List ℕ
req_ids = map (λ t. t.req_id)

pub shown-log : (fs : List Frame) → All IsLog fs → filter_map shown fs ≡ []
unfolding filter_map
shown-log [] h = refl
shown-log (f ∷ fs) h = rw h.0.0 (shown-log fs h.1)

-- What log lines and an answer, or a pong, behind them show.
pub shown-answer :
    (r : ℕ) (f : Frame) → f.request_id ≡ r → IsOutcome f.message_type → shown f ≡ some (answered r)
shown-answer r f to (inl e) = rw (e, to) refl
shown-answer r f to (inr e) = rw (e, to) refl

pub shown-pong :
    (r : ℕ) (f : Frame) → f.request_id ≡ r → f.message_type ≡ 0x1003 → shown f ≡ some (ponged r)
shown-pong r f to e = rw (e, to) refl

pub shown-last :
    (lines : List Frame) (f : Frame) (e : Event)
    → All IsLog lines
    → shown f ≡ some e
    → filter_map shown (lines ++ f ∷ []) ≡ e ∷ []
unfolding filter_map
shown-last lines f e h s = filter_map-append shown lines (f ∷ []) ∙ rw (shown-log lines h, s) refl
