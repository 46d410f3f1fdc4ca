-- ===== src/Tests/Channel.antt =====
-- A log line that is in the channel while the answer behind it is not read yet.
use js_sidecar.Prelude.{
  ℕ, ◌*◌, ◌<◌, ◌≤◌, ◌≡◌, ◌⊎◌, refl, true, List, [], ◌∷◌, ◌++◌, length, All, arith,
}
use js_sidecar.Bytes.{to_le_bytes, u32_at}
use js_sidecar.Frame.{IsEncodable, encode, stream}
use js_sidecar.Host.Libs.{debug}
use js_sidecar.Host.Messages.{WorkerToHostMessage}
use js_sidecar.Host.Protocol.{payload_length, parse_data, read_from}
use js_sidecar.Host.Reader.{Parses}
use js_sidecar.Host.Channel.{
  capacity, Pipe, Event, reads, puts, new_pipe, on_read, on_put, handle, Possible, Reachable,
  started, handled,
}
use js_sidecar.Host.Channel.Flow.{waiting}
use js_sidecar.Host.Channel.Progress.{gain, Reachable-progress}
use js_sidecar.Worker.ApiTypes.{worker_to_host_value}
use js_sidecar.Tests.Toy.{toy, toy_reads}
use js_sidecar.Tests.Conversation.{line, answer, delivered, sent_bytes}

abbrev read_first : Pipe toy
read_first = handle toy debug reads (new_pipe toy sent_bytes)

abbrev put_first : Pipe toy
put_first = handle toy debug puts read_first

reached : Reachable toy debug sent_bytes put_first
unfolding handle on_read on_put sent_bytes read_from payload_length u32_at parse_data encode
    to_le_bytes worker_to_host_value
reached = handled puts (handled reads started (refl, refl)) (refl, (λ h. cc), λ h. omega arith)

still_alive : put_first.alive ≡ true
unfolding handle on_read on_put sent_bytes read_from payload_length u32_at parse_data encode
    to_le_bytes worker_to_host_value
still_alive = refl

encodable : All IsEncodable (line ∷ answer ∷ [])
unfolding worker_to_host_value
encodable = (omega arith, (omega arith, tt))

parsed : Parses toy (line ∷ answer ∷ []) delivered
unfolding parse_data worker_to_host_value
parsed = (refl, refl, refl, (refl, refl, refl, tt))

on_wire : sent_bytes ≡ stream (line ∷ answer ∷ [])
unfolding sent_bytes encode to_le_bytes
on_wire = refl

Reachable-progress_example :
    (length put_first.queue ≤ capacity)
    × ((coming : List (WorkerToHostMessage ℕ)) × (put_first.taken
            ++ (put_first.queue ++ (waiting put_first.sending ++ coming))
          ≡ delivered))
    × (gain put_first ≤ 3 * 2)
    × ((put_first.taken ≡ delivered)
        ⊎ ((e : Event) × Possible toy e put_first
            × (gain put_first < gain (handle toy debug e put_first))))
Reachable-progress_example =
    Reachable-progress toy (λ r. r) toy_reads debug delivered (line ∷ answer ∷ []) sent_bytes
      put_first encodable parsed on_wire reached still_alive
