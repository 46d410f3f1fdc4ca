-- ===== src/Link/ToHost.antt =====
-- From `Protocol.sendMessage` of src/worker/src/protocol.ts to the reader task of src/connection.rs.
use js_sidecar.Prelude.{
  ℕ, ◌+◌, ◌<◌, ◌≤◌, ◌^◌, ◌≡◌, ap, ◌∙◌, true, List, [], ◌∷◌, ◌++◌, append-nil, append_assoc, length,
  All, arith,
}
use js_sidecar.Prelude.Outcome.{ok, Call, pure, ◌>>◌}
use js_sidecar.Frame.{Frame, IsEncodable, encode, stream}
use js_sidecar.Host.Messages.{WorkerToHostMessage as HostMessage}
use js_sidecar.Host.Libs.{Libs, Profile, ReadsExactly}
use js_sidecar.Host.Error.{read_stream}
use js_sidecar.Host.Reader.{reads, read_failed, reader_task, reads_all, Parses, reader_task_end}
use js_sidecar.Worker.ApiTypes.{WorkerToHostMessage}
use js_sidecar.Worker.Sender.{
  Sender, Exception, new_sender, send_message, sent_frame, send_message-encode, value-IsU32,
}

-- The arguments of one `sendMessage`.
pub record Reply : Type 0 where
  pub req_id : ℕ
  pub type : WorkerToHostMessage
  pub message : List ℕ

unfoldable pub send_all : List Reply → Call Sender Exception (Unit {0})
send_all [] = pure tt
send_all (r ∷ rs) = do send_message r.req_id r.type r.message; send_all rs

-- The frames of replies, with message IDs from `id` on.
abbrev pub reply_frames : ℕ → List Reply → List Frame
reply_frames id [] = []
reply_frames id (r ∷ rs) = sent_frame id r.req_id r.type r.message ∷ reply_frames (id + 1) rs

abbrev pub ReplyFits : Reply → Type 0
ReplyFits r = (r.req_id < 2 ^ 32) × (length r.message + 12 < 2 ^ 32)

sent_frame-IsEncodable :
    (id : ℕ) (r : Reply)
    → id < 2 ^ 32
    → ReplyFits r
    → IsEncodable (sent_frame id r.req_id r.type r.message)
sent_frame-IsEncodable id r h fits = omega (arith, value-IsU32 r.type)

reply_frames-IsEncodable :
    (id : ℕ) (rs : List Reply)
    → id + length rs ≤ 2 ^ 32
    → All ReplyFits rs
    → All IsEncodable (reply_frames id rs)
reply_frames-IsEncodable id [] h fits = tt
reply_frames-IsEncodable id (r ∷ rs) h fits = (
  sent_frame-IsEncodable id r (omega arith) fits.0,
  reply_frames-IsEncodable (id + 1) rs (omega arith) fits.1,
)

-- Replies that fit are all sent, each as a frame under the next message ID.
pub send_all-stream :
    (rs : List Reply) (s : Sender)
    → s.id + length rs ≤ 2 ^ 32
    → All ReplyFits rs
    → send_all rs s
      ≡ (ok tt, record { id = s.id + length rs; sent = s.sent ++ stream (reply_frames s.id rs) })
unfolding send_all
send_all-stream [] s h fits = ground (arith, append-nil s.sent)
send_all-stream (r ∷ rs) s h fits =
    let f = sent_frame s.id r.req_id r.type r.message in
    let s' : Sender = record { id = s.id + 1; sent = s.sent ++ encode f } in
    rw
      (send_message-encode s r.req_id r.type r.message
        (sent_frame-IsEncodable s.id r (omega arith) fits.0))
      (ground (
        arith,
        send_all-stream rs s' (omega arith) fits.1,
        append_assoc s.sent (encode f) (stream (reply_frames (s.id + 1) rs)),
      ))

module _ (lib : Libs) (unread : lib.Reader → List ℕ) (exactly : ReadsExactly lib unread)
    (p : Profile) where
  -- If the bytes that the host reads are those of the replies that a worker sent on a new socket, and
  -- their data parses to the contents of `ms`, then the host's reader task, with a receiver that
  -- takes them all, delivers `ms`: the replies in order, under their request IDs and with message IDs
  -- counted from 0. At the end of the socket it stops with a read error.
  reader_task-send_all :
      (rs : List Reply) (ms : List (HostMessage lib.Value)) (r : lib.Reader)
      → length rs ≤ 2 ^ 32
      → All ReplyFits rs
      → Parses lib (reply_frames 0 rs) ms
      → unread r ≡ (send_all rs new_sender).1.sent
      → let read = reader_task lib p (reads_all (reply_frames 0 rs) (reads true ∷ [])) r in
        (e : lib.IoError) × (read.delivered ≡ ms) × (read.stop ≡ read_failed (read_stream e))
  reader_task-send_all rs ms r few fits parses q =
      reader_task_end lib unread exactly p (reply_frames 0 rs) ms true [] r
        (reply_frames-IsEncodable 0 rs (omega arith) fits) parses
        (q ∙ ap (λ o. o.1.sent) (send_all-stream rs new_sender (omega arith) fits))
