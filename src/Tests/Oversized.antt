-- ===== src/Tests/Oversized.antt =====
-- Data of 4 GiB that a crate stand-in gives for every script.
use js_sidecar.Prelude.{
  ℕ, zero, suc, ◌^◌, ◌≡◌, refl, ap, List, [], ◌∷◌, ◌++◌, length, take, drop, arith,
}
use js_sidecar.Prelude.Outcome.{ok, call_map_err}
use js_sidecar.Frame.{encode}
use js_sidecar.Host.Messages.{HostToWorkerMessage, run_script}
use js_sidecar.Host.Libs.{Libs, WritesWords}
use js_sidecar.Host.Error.{write_stream}
use js_sidecar.Host.Protocol.{serialize, write_to}
use js_sidecar.Host.Protocol.Write.{frame_of}
use js_sidecar.Worker.Protocol.{fresh, prepend, handle_data}
use js_sidecar.Worker.Protocol.Frames.{received}
use js_sidecar.Link.Oversized.{write_to-oversized}
use js_sidecar.Tests.Toy.{toy}
use js_sidecar.Tests.Conn.{plain}

unfoldable zeros : ℕ → List ℕ
zeros zero = []
zeros (suc n) = 0 ∷ zeros n

length-zeros : (n : ℕ) → length (zeros n) ≡ n
unfolding zeros
length-zeros zero = refl
length-zeros (suc n) = ap suc (length-zeros n)

abbrev huge : Libs
huge = record toy { to_vec = λ args. ok (zeros (2 ^ 32)) }

huge_words : WritesWords huge
huge_words = record { appends = λ n bytes h. refl }

abbrev huge_message : HostToWorkerMessage ℕ
huge_message = record { request_id = 1; message_id = 1; content = run_script plain }

huge_data : serialize huge huge_message.content ≡ ok (zeros (2 ^ 32))
unfolding serialize
huge_data = refl

write_to-oversized_example :
    let f = frame_of huge_message (take 0 (zeros (2 ^ 32))) in
    (write_to huge huge_message []
      ≡ call_map_err write_stream (huge.write_all (encode f ++ drop 0 (zeros (2 ^ 32)))) [])
    × (handle_data fresh (encode f ++ drop 0 (zeros (2 ^ 32)))
        ≡ prepend (received f ∷ []) (handle_data fresh (drop 0 (zeros (2 ^ 32)))))
write_to-oversized_example =
    write_to-oversized huge huge_words huge_message (zeros (2 ^ 32)) 0 [] (omega arith)
      (omega arith) huge_data (length-zeros (2 ^ 32)) (omega arith)
