-- ===== src/Worker/Logged.antt =====
-- How `sendMessage` of src/worker/src/protocol.ts changes its sender: a frame is sent or nothing is,
-- runs of log lines, and the message IDs of what is sent.
use js_sidecar.Prelude.{
  ℕ, ◌+◌, ◌≤◌, ◌^◌, ◌≡◌, refl, sym, ap, ◌∙◌, List, [], ◌∷◌, ◌++◌, append-nil, append_assoc, All,
  All-append, length, arith, inl, inr,
}
use native.Mathlib.Decide.{dec_lt}
use js_sidecar.Prelude.Outcome.{ok, err}
use js_sidecar.Frame.{Frame, IsEncodable, encode, stream}
use js_sidecar.Worker.ApiTypes.{WorkerToHostMessage}
use js_sidecar.Worker.Sender.{
  Sender, range_error, send_message, sent_frame, send_message-encode, send_message_throws,
  value-IsU32,
}

-- A message was sent as its frame, or nothing was.
pub data Sending (req_id : ℕ) (type : WorkerToHostMessage) (message : List ℕ) (s : Sender)
    : Type 0 where
  went :
      IsEncodable (sent_frame s.id req_id type message)
      → send_message req_id type message s ≡ (
        ok s.id,
        record { id = s.id + 1; sent = s.sent ++ encode (sent_frame s.id req_id type message) },
      )
      → Sending req_id type message s
  threw :
      send_message req_id type message s ≡ (err range_error, record s { id = s.id + 1 })
      → Sending req_id type message s

pub Sending-cases :
    (req_id : ℕ) (type : WorkerToHostMessage) (message : List ℕ) (s : Sender)
    → Sending req_id type message s
Sending-cases req_id type message s = elim (dec_lt (length message + 12) (2 ^ 32)) [
  | no a ↦ threw (send_message_throws s req_id type message (inl (omega arith)))
  | yes a ↦ elim (dec_lt req_id (2 ^ 32)) [
    | no b ↦ threw (send_message_throws s req_id type message (inr (inl (omega arith))))
    | yes b ↦ elim (dec_lt s.id (2 ^ 32)) [
      | no c ↦ threw (send_message_throws s req_id type message (inr (inr (omega arith))))
      | yes c ↦
          let v : IsEncodable (sent_frame s.id req_id type message) =
            omega (arith, value-IsU32 type) in
          went v (send_message-encode s req_id type message v)
    ]
  ]
]

abbrev pub IsLog : Frame → Type 0
IsLog f = (f.message_type ≡ 0x1001) × IsEncodable f

-- The message IDs of the frames go up, from `lo` on, and the next one is to be `hi` or more.
abbrev pub Rising : ℕ → List Frame → ℕ → Type 0
Rising lo [] hi = lo ≤ hi
Rising lo (f ∷ fs) hi = (lo ≤ f.message_id) × Rising (f.message_id + 1) fs hi

pub Rising-append :
    (xs ys : List Frame) (lo mid hi : ℕ)
    → Rising lo xs mid
    → Rising mid ys hi
    → Rising lo (xs ++ ys) hi
Rising-append [] [] lo mid hi p q = omega (arith, p, q)
Rising-append [] (y ∷ ys) lo mid hi p (q, qs) = (omega (arith, p, q), qs)
Rising-append (x ∷ xs) ys lo mid hi (p, ps) q =
    (p, Rising-append xs ys (x.message_id + 1) mid hi ps q)

-- Nothing was sent, though message IDs may have been used up.
pub record Silent (a b : Sender) : Type 0 where
  pub on_wire : b.sent ≡ a.sent
  pub id_le : a.id ≤ b.id

pub Silent-refl : (s : Sender) → Silent s s
Silent-refl s = record { on_wire = refl; id_le = omega arith }

pub Silent-trans : (a b c : Sender) → Silent a b → Silent b c → Silent a c
Silent-trans a b c p q = record {
  on_wire = q.on_wire ∙ p.on_wire;
  id_le = omega (arith, p.id_le, q.id_le);
}

-- From one state of the sender to the other, log lines were sent.
pub record Logged (a b : Sender) : Type 0 where
  pub lines : List Frame
  pub logs : All IsLog lines
  pub on_wire : b.sent ≡ a.sent ++ stream lines
  pub rising : Rising a.id lines b.id

pub Logged-same : (a b : Sender) → Silent a b → Logged a b
Logged-same a b e = record {
  lines = [];
  logs = tt;
  on_wire = e.on_wire ∙ sym (append-nil a.sent);
  rising = e.id_le;
}

pub stream-append : (xs ys : List Frame) → stream (xs ++ ys) ≡ stream xs ++ stream ys
stream-append [] ys = refl
stream-append (x ∷ xs) ys =
    ap (λ r. encode x ++ r) (stream-append xs ys)
    ∙ sym (append_assoc (encode x) (stream xs) (stream ys))

pub stream-last :
    (lines : List Frame) (f : Frame) → stream (lines ++ f ∷ []) ≡ stream lines ++ encode f
stream-last lines f =
    stream-append lines (f ∷ []) ∙ ap (λ x. stream lines ++ x) (append-nil (encode f))

pub Logged-trans : (a b c : Sender) → Logged a b → Logged b c → Logged a c
Logged-trans a b c p q = record {
  lines = p.lines ++ q.lines;
  logs = All-append IsLog p.lines q.lines p.logs q.logs;
  on_wire =
      rw (q.on_wire, p.on_wire, stream-append p.lines q.lines)
        (append_assoc a.sent (stream p.lines) (stream q.lines));
  rising = Rising-append p.lines q.lines a.id b.id c.id p.rising q.rising;
}
