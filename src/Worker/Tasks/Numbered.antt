-- ===== src/Worker/Tasks/Numbered.antt =====
-- The message IDs of what a connection of src/worker/src/worker.ts sends, which `sendMessage` of
-- src/worker/src/protocol.ts counts, whatever turns its scripts take.
use mathlib.Core.List.{filter_map, filter_map-append}
use js_sidecar.Prelude.{
  ℕ, ◌+◌, ◌≤◌, ◌^◌, ◌≡◌, ◌∙◌, refl, ap, Option, List, [], ◌∷◌, ◌++◌, length, length-append, All,
  arith,
}
use js_sidecar.Frame.{Frame, stream}
use js_sidecar.Worker.Logged.{Rising}
use js_sidecar.Worker.Node.{Node}
use js_sidecar.Worker.RunScript.{Session}
use js_sidecar.Worker.Tasks.{World, Reach}
use js_sidecar.Worker.Tasks.Events.{
  Event, requested, answered, ponged, Service, idle, takes, answers, pongs, shown, IsReply, output,
  request, ping, req_ids,
}
use js_sidecar.Worker.Tasks.Service.{Reach-Implements}

length-filter_map-last :
    {A : Type 0} (f : Event → Option A) (events : List Event) (e : Event)
    → length (filter_map f (events ++ e ∷ []))
      ≡ length (filter_map f events) + length (filter_map f (e ∷ []))
length-filter_map-last f events e =
    ap length (filter_map-append f events (e ∷ []))
    ∙ length-append (filter_map f events) (filter_map f (e ∷ []))

-- What came is what was put out and what is open.
Service-length :
    {open_requests : List ℕ} {events : List Event}
    → Service open_requests events
    → length (filter_map ping events) + length (filter_map request events)
      ≡ length (filter_map output events) + length open_requests
unfolding filter_map
Service-length idle = refl
Service-length (takes {open_requests} {events} r service) = omega (
  arith,
  Service-length service,
  length-filter_map-last ping events (requested r),
  length-filter_map-last request events (requested r),
  length-filter_map-last output events (requested r),
  length-append open_requests (r ∷ []),
)
Service-length (answers {events} before later r service) = omega (
  arith,
  Service-length service,
  length-filter_map-last ping events (answered r),
  length-filter_map-last request events (answered r),
  length-filter_map-last output events (answered r),
  length-append before (r ∷ later),
  length-append before later,
)
Service-length (pongs {events = events} r service) = omega (
  arith,
  Service-length service,
  length-filter_map-last ping events (ponged r),
  length-filter_map-last request events (ponged r),
  length-filter_map-last output events (ponged r),
)

filter_map-length_le :
    {A B : Type 0} (f : A → Option B) (xs : List A) → length (filter_map f xs) ≤ length xs
unfolding filter_map
filter_map-length_le f [] = omega arith
filter_map-length_le f (x ∷ xs) = ground (arith, filter_map-length_le f xs)

-- There are as many IDs as numbers of 32 bits.
Rising-length :
    (fs : List Frame) (lo hi : ℕ)
    → lo ≤ 2 ^ 32
    → All IsReply fs
    → Rising lo fs hi
    → lo + length fs ≤ 2 ^ 32
Rising-length [] lo hi h replies up = omega (arith, h)
Rising-length (f ∷ fs) lo hi h ((fits, type), replies) (le, up) = omega (
  arith,
  le,
  fits.message_fits,
  Rising-length fs (f.message_id + 1) hi (omega (arith, fits.message_fits)) replies up,
)

-- In every state that the turns of one connection reach, what was sent is a sequence of whole frames
-- whose message IDs go up strictly and are below the next one. There are at most 2 ^ 32 of them, so that
-- no connection ever has more than 2 ^ 32 pings and other messages answered: of those that came, all
-- but 2 ^ 32 at most are still pending.
pub Reach-numbered :
    (n : Node) (session : Session n) (w : World n) (pinged asked : List ℕ)
    → session.sender.sent ≡ []
    → Reach n session w pinged asked
    → (frames : List Frame) × (w.session.sender.sent ≡ stream frames)
      × All IsReply frames
      × Rising 0 frames w.session.sender.id
      × (length frames ≤ 2 ^ 32)
      × (length pinged + length asked ≤ 2 ^ 32 + length (req_ids w.tasks))
Reach-numbered n session w pinged asked new reached =
    let i = Reach-Implements n session w pinged asked new reached in
    let few = Rising-length i.frames 0 w.session.sender.id (omega arith) i.replies i.rising in
    (
      i.frames,
      i.on_wire,
      i.replies,
      i.rising,
      omega (arith, few),
      omega (
        arith,
        few,
        Service-length i.service,
        ap length i.requests,
        ap length i.ponged_to,
        ap length i.outputs,
        filter_map-length_le shown i.frames,
      ),
    )
