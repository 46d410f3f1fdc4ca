-- ===== src/Link/PingPong.antt =====
-- The ping of `Connection::ping` in src/connection.rs, the worker's pong in src/worker/src/worker.ts, and
-- its reading by src/protocol.rs: what `ConnectionManager::recycle` waits for.
use js_sidecar.Prelude.{ℕ, ◌<◌, ◌^◌, ◌≡◌, refl, ap, List, [], ◌++◌, arith}
use js_sidecar.Prelude.Outcome.{ok}
use js_sidecar.Frame.{encode}
use js_sidecar.Host.Libs.{Libs, Profile, ReadsExactly}
use js_sidecar.Host.Messages.{WorkerToHostMessage, pong as Pong}
use js_sidecar.Host.Protocol.{host_message_type, parse_data, read_from}
use js_sidecar.Host.Protocol.Read.{read_from-encode}
use js_sidecar.Host.Protocol.Write.{frame_of}
use js_sidecar.Host.Connection.{Connection}
use js_sidecar.Host.Connection.Send.{HasIds, ping_message}
use js_sidecar.Worker.ApiTypes.{pong, worker_to_host_value}
use js_sidecar.Worker.Sender.{sent_frame}
use js_sidecar.Worker.Protocol.Frames.{received}
use js_sidecar.Worker.Node.{Node}
use js_sidecar.Worker.RunScript.{Session}
use js_sidecar.Worker.Handler.{handle_raw_message}
use js_sidecar.Worker.Handler.Ping.{pong_frame-IsEncodable, handle_raw_message_ping}

-- The pong to a request.
abbrev pub pong_to : {V : Type 0} → ℕ → ℕ → WorkerToHostMessage V
pong_to req_id id = record { request_id = req_id; message_id = id; content = Pong }

module _ (lib : Libs) (unread : lib.Reader → List ℕ) (exactly : ReadsExactly lib unread)
    (p : Profile) (n : Node) where
  -- The frame of a ping makes a worker write a frame, and where the host reads that frame next, it gets
  -- a pong with the request ID of the ping, and has consumed the frame alone.
  read_from-handle_raw_message :
      (c : Connection lib) (s : Session n) (r : lib.Reader) (rest : List ℕ)
      → HasIds c
      → s.sender.id < 2 ^ 32
      → unread r ≡ encode (sent_frame s.sender.id c.next_req_id pong []) ++ rest
      → let handled = handle_raw_message n (received (frame_of (ping_message c) [])) s in
        (handled.0 ≡ ok tt)
        × (handled.1.sender.sent
            ≡ s.sender.sent ++ encode (sent_frame s.sender.id c.next_req_id pong []))
        × ((read_from lib p r).0
            ≡ ok (record { request_id = c.next_req_id; message_id = s.sender.id; content = Pong }))
        × (unread (read_from lib p r).1 ≡ rest)
  unfolding host_message_type worker_to_host_value parse_data
  read_from-handle_raw_message c s r rest v h q =
      let small : c.next_req_id < 2 ^ 32 = omega (arith, v.request_left) in
      let pinged =
        handle_raw_message_ping n (received (frame_of (ping_message c) [])) s refl small h in
      let (content, left) =
        read_from-encode lib unread exactly p (sent_frame s.sender.id c.next_req_id pong []) rest r
          (pong_frame-IsEncodable s.sender.id c.next_req_id h small) q in
      (ap (λ o. o.0) pinged, ap (λ o. o.1.sender.sent) pinged, content, left)
