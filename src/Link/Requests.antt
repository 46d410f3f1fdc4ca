-- ===== src/Link/Requests.antt =====
-- From the requests of a `Connection` of src/connection.rs, over the bytes on the socket, to all that a
-- worker of src/worker/src sends back.
use mathlib.Core.List.{flatten}
use js_sidecar.Prelude.{
  ℕ, ◌+◌, ◌<◌, ◌≤◌, ◌^◌, ◌≡◌, refl, ap, ◌∙◌, Bool, List, [], ◌∷◌, map, length, All, arith,
}
use js_sidecar.Prelude.Outcome.{ok}
use js_sidecar.Frame.{Frame, stream}
use js_sidecar.Host.Libs.{Libs, Profile, WritesWords, WritesAll}
use js_sidecar.Host.Connection.{Connection}
use js_sidecar.Host.Connection.Requests.{Request, scripts, pings, request_all, Fits, CarriesAll}
use js_sidecar.Worker.Protocol.{fresh, handle_chunks}
use js_sidecar.Worker.Protocol.Frames.{received}
use js_sidecar.Worker.Node.{Node}
use js_sidecar.Worker.RunScript.{Session}
use js_sidecar.Worker.Tasks.{World, Reach}
use js_sidecar.Worker.Tasks.Events.{IsReply}
use js_sidecar.Worker.Tasks.Balance.{count, replies_of}
use js_sidecar.Worker.Tasks.Progress.{no_tasks-AllAnswered}
use js_sidecar.Worker.Tasks.Intake.{pings_in, others_in}
use js_sidecar.Link.ToWorker.{handle_chunks-request_all}

-- The IDs of the scripts, and of the pings, of requests that are numbered from `n` on.
abbrev script_ids : {V : Type 0} → ℕ → List (Request V) → List ℕ
script_ids n [] = []
script_ids n (scripts args ∷ rs) = n ∷ script_ids (n + 1) rs
script_ids n (pings ∷ rs) = script_ids (n + 1) rs

abbrev ping_ids : {V : Type 0} → ℕ → List (Request V) → List ℕ
ping_ids n [] = []
ping_ids n (scripts args ∷ rs) = ping_ids (n + 1) rs
ping_ids n (pings ∷ rs) = n ∷ ping_ids (n + 1) rs

-- Under the ID of each script there is one response or error and no pong, and under that of each ping
-- one pong and no response or error.
abbrev pub AnsweredOnce : {V : Type 0} → List Frame → ℕ → List (Request V) → Type 0
AnsweredOnce frames n [] = Unit
AnsweredOnce frames n (scripts args ∷ rs) =
    (replies_of 0x1000 n frames + replies_of 0x1002 n frames ≡ 1)
    × (replies_of 0x1003 n frames ≡ 0)
    × AnsweredOnce frames (n + 1) rs
AnsweredOnce frames n (pings ∷ rs) =
    (replies_of 0x1000 n frames + replies_of 0x1002 n frames ≡ 0)
    × (replies_of 0x1003 n frames ≡ 1)
    × AnsweredOnce frames (n + 1) rs

count-same : (a : ℕ) (xs : List ℕ) → count a (a ∷ xs) ≡ 1 + count a xs
count-same a xs = ground arith

count-other : (a b : ℕ) (xs : List ℕ) → b < a → count a (b ∷ xs) ≡ count a xs
count-other a b xs h = ground (arith, h)

module _ {V : Type 0} where
  -- Below the first ID there is none.
  script_ids_above : (r n : ℕ) (rs : List (Request V)) → r < n → count r (script_ids n rs) ≡ 0
  script_ids_above r n [] h = refl
  script_ids_above r n (scripts args ∷ rs) h =
      ground (arith, h, script_ids_above r (n + 1) rs (omega arith))
  script_ids_above r n (pings ∷ rs) h = script_ids_above r (n + 1) rs (omega arith)

  ping_ids_above : (r n : ℕ) (rs : List (Request V)) → r < n → count r (ping_ids n rs) ≡ 0
  ping_ids_above r n [] h = refl
  ping_ids_above r n (scripts args ∷ rs) h = ping_ids_above r (n + 1) rs (omega arith)
  ping_ids_above r n (pings ∷ rs) h = ground (arith, h, ping_ids_above r (n + 1) rs (omega arith))

  AnsweredOnce-count :
      (frames : List Frame) (n : ℕ) (rs : List (Request V))
      → ((r : ℕ)
          → n ≤ r
          → (replies_of 0x1000 r frames + replies_of 0x1002 r frames ≡ count r (script_ids n rs))
            × (replies_of 0x1003 r frames ≡ count r (ping_ids n rs)))
      → AnsweredOnce frames n rs
  AnsweredOnce-count frames n [] h = tt
  AnsweredOnce-count frames n (scripts args ∷ rs) h = (
    (h n (omega arith)).0
        ∙ count-same n (script_ids (n + 1) rs)
        ∙ ap (λ k. 1 + k) (script_ids_above n (n + 1) rs (omega arith)),
    (h n (omega arith)).1 ∙ ping_ids_above n (n + 1) rs (omega arith),
    AnsweredOnce-count frames (n + 1) rs (λ r k. (
      (h r (omega arith)).0 ∙ count-other r n (script_ids (n + 1) rs) (omega arith),
      (h r (omega arith)).1,
    )),
  )
  AnsweredOnce-count frames n (pings ∷ rs) h = (
    (h n (omega arith)).0 ∙ script_ids_above n (n + 1) rs (omega arith),
    (h n (omega arith)).1
        ∙ count-same n (ping_ids (n + 1) rs)
        ∙ ap (λ k. 1 + k) (ping_ids_above n (n + 1) rs (omega arith)),
    AnsweredOnce-count frames (n + 1) rs (λ r k. (
      (h r (omega arith)).0,
      (h r (omega arith)).1 ∙ count-other r n (ping_ids (n + 1) rs) (omega arith),
    )),
  )

-- What the worker is asked is what the host requests.
CarriesAll-ids :
    (lib : Libs) (b : Bool) (n k : ℕ) (rs : List (Request lib.Value)) (fs : List Frame)
    → CarriesAll lib b n k rs fs
    → (pings_in (map received fs) ≡ ping_ids n rs) × (others_in (map received fs) ≡ script_ids n rs)
CarriesAll-ids lib b n k [] [] c = (refl, refl)
CarriesAll-ids lib b n k [] (f ∷ fs) c = elim c [ ]
CarriesAll-ids lib b n k (r ∷ rs) [] c = elim c [ ]
CarriesAll-ids lib b n k (scripts args ∷ rs) (f ∷ fs) (id, mid, (type, body), c) =
    let (p, s) = CarriesAll-ids lib _ (n + 1) (k + 1) rs fs c in
    rw (type, id) (p, ap (λ x. n ∷ x) s)
CarriesAll-ids lib b n k (pings ∷ rs) (f ∷ fs) (id, mid, (type, body), c) =
    let (p, s) = CarriesAll-ids lib _ (n + 1) (k + 1) rs fs c in
    rw (type, id) (ap (λ x. n ∷ x) p, s)

module _ (lib : Libs) (p : Profile) (words : WritesWords lib) (written : lib.Writer → List ℕ)
    (writes : WritesAll lib written) (n : Node) (session : Session n) (w : World n) where
  -- If requests on a new socket all succeed, and a worker is handed the messages that it takes from
  -- their bytes, however these were cut on the way and whatever turns its scripts take, then once no
  -- task is left it has sent whole frames, among which there is exactly one response or error, and no
  -- pong, under the ID of each script, and exactly one pong, and no response or error, under the ID of
  -- each ping.
  pub request_all-AnsweredOnce :
      (rs : List (Request lib.Value)) (c : Connection lib) (chunks : List (List ℕ))
      → c.next_req_id + length rs < 2 ^ 32
      → c.next_id + length rs < 2 ^ 32
      → All (Fits lib) rs
      → written c.stream ≡ []
      → (request_all lib p rs c).0 ≡ ok tt
      → flatten chunks ≡ written (request_all lib p rs c).1.stream
      → session.sender.sent ≡ []
      → (let ms = (handle_chunks fresh chunks).emitted in
          Reach n session w (pings_in ms) (others_in ms))
      → w.tasks ≡ []
      → (frames : List Frame) × (w.session.sender.sent ≡ stream frames)
        × All IsReply frames
        × AnsweredOnce frames c.next_req_id rs
  request_all-AnsweredOnce rs c chunks hr hm fits new done cut silent reached idle =
      let (fs, carried, emitted) =
        handle_chunks-request_all lib p words written writes rs c chunks hr hm fits new done cut in
      let (ping_eq, script_eq) = CarriesAll-ids lib _ c.next_req_id c.next_id rs fs carried in
      let ms : (handle_chunks fresh chunks).emitted ≡ map received fs =
        ap (λ x. x.emitted) emitted in
      let (frames, on_wire, replies, balance) =
        no_tasks-AllAnswered n session w _ _ silent reached idle in
      (
        frames,
        on_wire,
        replies,
        AnsweredOnce-count frames c.next_req_id rs (λ r k. (
          (balance r).0 ∙ ap (λ x. count r (others_in x)) ms ∙ ap (count r) script_eq,
          (balance r).1 ∙ ap (λ x. count r (pings_in x)) ms ∙ ap (count r) ping_eq,
        )),
      )
