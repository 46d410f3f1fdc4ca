-- ===== src/Link/Session/Wire.antt =====
-- What a worker sends over the life of a connection, and what the host's reader task makes of it.
use js_sidecar.Prelude.{
  ℕ, ◌≡◌, refl, sym, ap, ◌∙◌, Bool, List, [], ◌∷◌, ◌++◌, append-nil, append_assoc, All, All-append,
  All-map, arith,
}
use js_sidecar.Frame.{Frame, IsEncodable, encode, stream}
use js_sidecar.Host.Messages.{WorkerToHostMessage}
use js_sidecar.Host.Libs.{Libs, Profile, ReadsExactly}
use js_sidecar.Host.Protocol.{parse_data}
use js_sidecar.Host.Reader.{reader_task, reads_all, Parses, reader_task-stream}
use js_sidecar.Worker.ApiTypes.{pong, worker_to_host_value}
use js_sidecar.Worker.Protocol.Frames.{received}
use js_sidecar.Worker.Sender.{sent_frame}
use js_sidecar.Worker.Node.{Node}
use js_sidecar.Worker.RunScript.{Session}
use js_sidecar.Worker.Logged.{stream-append, stream-last}
use js_sidecar.Worker.Handler.Ping.{pong_frame-IsEncodable, handle_raw_message_ping}
use js_sidecar.Link.Conversation.{messages_of-Parses, append_cancel}
use js_sidecar.Link.Session.{Talk, over, ran, recycled, ping_frame, replies, messages, worker_after}

Parses-append :
    (lib : Libs) (fs gs : List Frame) (ms ns : List (WorkerToHostMessage lib.Value))
    → Parses lib fs ms
    → Parses lib gs ns
    → Parses lib (fs ++ gs) (ms ++ ns)
Parses-append lib [] gs [] ns h k = k
Parses-append lib [] gs (m ∷ ms) ns h k = elim h [ ]
Parses-append lib (f ∷ fs) gs [] ns h k = elim h [ ]
Parses-append lib (f ∷ fs) gs (m ∷ ms) ns h k = (h.0, h.1, h.2, Parses-append lib fs gs ms ns h.3 k)

module _ (lib : Libs) (n : Node) (fuel : ℕ) where
  replies-IsEncodable :
      {request message : ℕ} {recreate : Bool} {s : Session n}
      (t : Talk lib n fuel request message recreate s)
      → All IsEncodable (replies t)
  replies-IsEncodable over = tt
  replies-IsEncodable (ran args body a logs last written fits enough h k rest) =
      All-append IsEncodable (a.lines ++ a.answer ∷ []) (replies rest)
        (All-append IsEncodable a.lines (a.answer ∷ []) (All-map (λ f k. k.1) a.lines a.logs)
          (a.encodable, tt))
        (replies-IsEncodable rest)
  replies-IsEncodable {request} {s = s} (recycled id_left h k rest) =
      (pong_frame-IsEncodable s.sender.id request id_left (omega arith), replies-IsEncodable rest)

  replies-Parses :
      {request message : ℕ} {recreate : Bool} {s : Session n}
      (t : Talk lib n fuel request message recreate s)
      → Parses lib (replies t) (messages t)
  unfolding parse_data worker_to_host_value
  replies-Parses over = tt
  replies-Parses (ran args body a logs last written fits enough h k rest) =
      Parses-append lib (a.lines ++ a.answer ∷ []) (replies rest) _ (messages rest)
        (messages_of-Parses lib a.lines logs a.answer last) (replies-Parses rest)
  replies-Parses (recycled id_left h k rest) = (refl, refl, refl, replies-Parses rest)

  -- The worker sends the replies and nothing else.
  worker_after-replies :
      {request message : ℕ} {recreate : Bool} {s : Session n}
      (t : Talk lib n fuel request message recreate s)
      → (worker_after t).sender.sent ≡ s.sender.sent ++ stream (replies t)
  worker_after-replies {s = s} over = sym (append-nil s.sender.sent)
  worker_after-replies {s = s} (ran args body a logs last written fits enough h k rest) =
      worker_after-replies rest
      ∙ ap (λ b. b ++ stream (replies rest)) a.on_wire
      ∙ append_assoc s.sender.sent (stream a.lines ++ encode a.answer) (stream (replies rest))
      ∙ ap (λ b. s.sender.sent ++ (b ++ stream (replies rest))) (sym (stream-last a.lines a.answer))
      ∙ ap (λ b. s.sender.sent ++ b) (sym (stream-append (a.lines ++ a.answer ∷ []) (replies rest)))
  worker_after-replies {request} {message} {s = s} (recycled id_left h k rest) =
      worker_after-replies rest
      ∙ ap (λ o. o.1.sender.sent ++ stream (replies rest))
          (handle_raw_message_ping n (received (ping_frame request message)) s refl (omega arith)
            id_left)
      ∙ append_assoc s.sender.sent (encode (sent_frame s.sender.id request pong []))
          (stream (replies rest))

  -- If the host reads what the worker sends, its reader task delivers the replies, in order.
  pub reader_task-replies :
      (unread : lib.Reader → List ℕ) (exactly : ReadsExactly lib unread) (p : Profile)
      {request message : ℕ} {recreate : Bool} {s : Session n}
      (t : Talk lib n fuel request message recreate s) (r : lib.Reader)
      → (worker_after t).sender.sent ≡ s.sender.sent ++ unread r
      → (reader_task lib p (reads_all (replies t) []) r).delivered ≡ messages t
  unfolding reader_task
  reader_task-replies unread exactly p {s = s} t r e =
      let on_wire : unread r ≡ stream (replies t) =
        append_cancel s.sender.sent _ _ (sym e ∙ worker_after-replies t) in
      let (r', left, run) =
        reader_task-stream lib unread exactly p (replies t) (messages t) [] [] r
          (replies-IsEncodable t) (replies-Parses t)
          (on_wire ∙ sym (append-nil (stream (replies t)))) in
      ap (λ read. read.delivered) run ∙ append-nil (messages t)
