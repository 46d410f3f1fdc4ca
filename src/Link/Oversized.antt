-- ===== src/Link/Oversized.antt =====
-- `to_buffer` of src/protocol.rs on data of 4 GiB and more, and what `handleData` of
-- src/worker/src/protocol.ts makes of it.
use js_sidecar.Prelude.{
  ℕ, ◌+◌, ◌%◌, ◌<◌, ◌^◌, ◌≡◌, ap, ◌∙◌, List, [], ◌∷◌, ◌++◌, length, length-take, take, drop,
  take-append-drop, arith,
}
use js_sidecar.Prelude.Outcome.{ok, call_map_err}
use js_sidecar.Bytes.{u32_mod, to_le_bytes}
use js_sidecar.Frame.{IsEncodable, encode}
use js_sidecar.Host.Messages.{HostToWorkerMessage}
use js_sidecar.Host.Libs.{Libs, WritesWords}
use js_sidecar.Host.Error.{write_stream}
use js_sidecar.Host.Protocol.{host_message_type, serialize, write_to}
use js_sidecar.Host.Protocol.Write.{frame_of, write_to_words, type-IsU32}
use js_sidecar.Worker.Protocol.{fresh, prepend, handle_data}
use js_sidecar.Worker.Protocol.Frames.{received, handle_data-encode}

module _ (lib : Libs) (words : WritesWords lib) (m : HostToWorkerMessage lib.Value) where
  cut_word :
      (n : ℕ) (body : List ℕ)
      → length body ≡ 2 ^ 32 + n
      → n + 12 < 2 ^ 32
      → (length body + 12) % u32_mod ≡ length (take n body) + 12
  cut_word n body h k = omega (arith, length-take n body)

  encode_cut :
      (n : ℕ) (body : List ℕ)
      → length body ≡ 2 ^ 32 + n
      → n + 12 < 2 ^ 32
      → to_le_bytes ((length body + 12) % u32_mod)
          ++ (to_le_bytes m.request_id
              ++ (to_le_bytes m.message_id ++ (to_le_bytes (host_message_type m.content) ++ body)))
        ≡ encode (frame_of m (take n body)) ++ drop n body
  unfolding encode
  encode_cut n body h k = rw (cut_word n body h k) (simp (take-append-drop n body))

  -- A length word holds the length of the data only modulo 2 ^ 32. Data that is longer by `n` bytes is
  -- written in full behind the length of its first `n` bytes: a worker takes these for the data of the
  -- message, and reads all the rest as further frames.
  pub write_to-oversized :
      (body : List ℕ) (n : ℕ) (w : lib.Writer)
      → m.request_id < 2 ^ 32
      → m.message_id < 2 ^ 32
      → serialize lib m.content ≡ ok body
      → length body ≡ 2 ^ 32 + n
      → n + 12 < 2 ^ 32
      → let f = frame_of m (take n body) in
        (write_to lib m w ≡ call_map_err write_stream (lib.write_all (encode f ++ drop n body)) w)
        × (handle_data fresh (encode f ++ drop n body)
            ≡ prepend (received f ∷ []) (handle_data fresh (drop n body)))
  write_to-oversized body n w hr hm s h k = (
    write_to_words lib words m body w hr hm s
        ∙ ap (λ b. call_map_err write_stream (lib.write_all b) w) (encode_cut n body h k),
    handle_data-encode (frame_of m (take n body)) (drop n body) (fits n body h k),
  )
    where
      fits :
          (n : ℕ) (body : List ℕ)
          → length body ≡ 2 ^ 32 + n
          → n + 12 < 2 ^ 32
          → IsEncodable (frame_of m (take n body))
      fits n body h k = record {
        request_fits = hr;
        message_fits = hm;
        type_fits = type-IsU32 m.content;
        length_fits = omega (arith, length-take n body);
      }
