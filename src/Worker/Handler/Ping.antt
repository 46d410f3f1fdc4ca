-- ===== src/Worker/Handler/Ping.antt =====
-- `handleRawMessage` of src/worker/src/worker.ts on a ping.
use js_sidecar.Prelude.{ℕ, ◌+◌, ◌<◌, ◌^◌, ◌≡◌, [], ◌++◌, arith}
use js_sidecar.Prelude.Outcome.{ok}
use js_sidecar.Frame.{IsEncodable, encode}
use js_sidecar.Worker.ApiTypes.{pong}
use js_sidecar.Worker.Sender.{sent_frame, send_message-encode, value-IsU32}
use js_sidecar.Worker.Protocol.{IncomingMessage}
use js_sidecar.Worker.Node.{Node}
use js_sidecar.Worker.RunScript.{Session}
use js_sidecar.Worker.Handler.{send, handle_raw_message}

pub pong_frame-IsEncodable :
    (id req_id : ℕ) → id < 2 ^ 32 → req_id < 2 ^ 32 → IsEncodable (sent_frame id req_id pong [])
pong_frame-IsEncodable id req_id h k = omega (arith, value-IsU32 pong)

module _ (n : Node) where
  -- A ping is answered at once by a pong under its request ID, and nothing else is done.
  pub handle_raw_message_ping :
      (m : IncomingMessage) (s : Session n)
      → m.type ≡ 1
      → m.req_id < 2 ^ 32
      → s.sender.id < 2 ^ 32
      → handle_raw_message n m s ≡ (
        ok tt,
        record s {
          sender = record {
            id = s.sender.id + 1;
            sent = s.sender.sent ++ encode (sent_frame s.sender.id m.req_id pong []);
          };
        },
      )
  unfolding handle_raw_message send
  handle_raw_message_ping m s t h k = rw (
    t,
    send_message-encode s.sender m.req_id pong [] (pong_frame-IsEncodable s.sender.id m.req_id k h),
  )
