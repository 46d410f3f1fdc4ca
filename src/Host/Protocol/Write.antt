-- ===== src/Host/Protocol/Write.antt =====
-- What `to_buffer` of src/protocol.rs writes, against the wire format.
use js_sidecar.Prelude.{
  ℕ, ◌+◌, ◌%◌, ◌≡◌, refl, ap, ◌∙◌, List, [], ◌++◌, append_assoc, length, arith,
}
use js_sidecar.Prelude.Outcome.{
  Outcome, ok, err, panicked, pending, spent, Call, map_err, call_map_err, after,
}
use js_sidecar.Bytes.{IsU32, to_le_bytes, u32_mod}
use js_sidecar.Frame.{Frame, IsEncodable, encode}
use js_sidecar.Host.Messages.{
  RunScriptArgs, HostToWorkerMessageData, run_script, ping, HostToWorkerMessage,
}
use js_sidecar.Host.Libs.{Libs, WritesWords}
use js_sidecar.Host.Error.{Error, json_serialize, write_stream}
use js_sidecar.Host.Protocol.{host_message_type, serialize, fill_buffer, to_buffer, write_to}

-- The frame of a message whose data serializes to `body`.
abbrev pub frame_of : {V : Type 0} → HostToWorkerMessage V → List ℕ → Frame
frame_of m body = record {
  request_id = m.request_id;
  message_id = m.message_id;
  message_type = host_message_type m.content;
  body = body;
}

pub type-IsU32 : {V : Type 0} (d : HostToWorkerMessageData V) → IsU32 (host_message_type d)
unfolding host_message_type
type-IsU32 (run_script args) = omega arith
type-IsU32 ping = omega arith

module _ (lib : Libs) (words : WritesWords lib) where
  -- The header words in order, then the data; the length is cut to 32 bits.
  fill_buffer_lem :
      (d : HostToWorkerMessageData lib.Value) (request_id message_id : ℕ) (body : List ℕ)
      → IsU32 request_id
      → IsU32 message_id
      → fill_buffer lib d request_id message_id body [] ≡ (
        ok tt,
        to_le_bytes ((length body + 12) % u32_mod)
            ++ (to_le_bytes request_id
                ++ (to_le_bytes message_id ++ (to_le_bytes (host_message_type d) ++ body))),
      )
  unfolding fill_buffer
  fill_buffer_lem d request_id message_id body hr hm =
      rw
        (
          words.appends ((length body + 12) % u32_mod) [] (omega arith),
          words.appends request_id L hr,
          words.appends message_id (L ++ R) hm,
          words.appends (host_message_type d) ((L ++ R) ++ M) (type-IsU32 d),
        )
        (simp append_assoc)
    where
      L : List ℕ
      L = to_le_bytes ((length body + 12) % u32_mod)

      R : List ℕ
      R = to_le_bytes request_id

      M : List ℕ
      M = to_le_bytes message_id

  fill_buffer-encode :
      (m : HostToWorkerMessage lib.Value) (body : List ℕ)
      → IsEncodable (frame_of m body)
      → fill_buffer lib m.content m.request_id m.message_id body []
        ≡ (ok tt, encode (frame_of m body))
  unfolding encode
  fill_buffer-encode m body v =
      fill_buffer_lem m.content m.request_id m.message_id body v.request_fits v.message_fits
      ∙ ap
          (λ n. (
            ok tt,
            to_le_bytes n
                ++ (to_le_bytes m.request_id
                    ++ (to_le_bytes m.message_id
                        ++ (to_le_bytes (host_message_type m.content) ++ body))),
          ))
          word
    where
      word : (length body + 12) % u32_mod ≡ length body + 12
      word = omega (arith, v.length_fits)

  -- Where the message data serializes to `body` and the header words fit 32 bits, `write_to` makes
  -- one call of `write_all`, with the frame of the message.
  pub write_to-encode :
      (m : HostToWorkerMessage lib.Value) (body : List ℕ) (w : lib.Writer)
      → serialize lib m.content ≡ ok body
      → IsEncodable (frame_of m body)
      → write_to lib m w ≡ call_map_err write_stream (lib.write_all (encode (frame_of m body))) w
  unfolding to_buffer write_to
  write_to-encode m body w s v = rw (s, fill_buffer-encode m body v)

  -- Whatever its length is, the data is written behind a length word that is cut to 32 bits.
  pub write_to_words :
      (m : HostToWorkerMessage lib.Value) (body : List ℕ) (w : lib.Writer)
      → IsU32 m.request_id
      → IsU32 m.message_id
      → serialize lib m.content ≡ ok body
      → write_to lib m w
        ≡ call_map_err write_stream
            (lib.write_all (
              to_le_bytes ((length body + 12) % u32_mod)
              ++ (to_le_bytes m.request_id
                  ++ (to_le_bytes m.message_id
                      ++ (to_le_bytes (host_message_type m.content) ++ body)))))
            w
  unfolding to_buffer write_to
  write_to_words m body w hr hm s =
      rw (s, fill_buffer_lem m.content m.request_id m.message_id body hr hm)

module _ (lib : Libs) where
  serialized_of_ok :
      (o : Outcome (Error lib) (List ℕ)) (k : List ℕ → Call lib.Writer (Error lib) (Unit {0}))
      (w : lib.Writer)
      → (after o k w).0 ≡ ok tt
      → (body : List ℕ) × (o ≡ ok body)
  serialized_of_ok (ok body) k w h = (body, refl)
  serialized_of_ok (err e) k w h = cc
  serialized_of_ok panicked k w h = cc
  serialized_of_ok pending k w h = cc
  serialized_of_ok spent k w h = cc

  -- A message that was written had been serialized.
  pub write_to_ok :
      (m : HostToWorkerMessage lib.Value) (w : lib.Writer)
      → (write_to lib m w).0 ≡ ok tt
      → (body : List ℕ) × (serialize lib m.content ≡ ok body)
  unfolding write_to to_buffer
  write_to_ok m w h = serialized_of_ok (serialize lib m.content) _ w h

  pub map_err_ok :
      {A B : Type 0} (f : A → Error lib) (o : Outcome A B) (b : B) → map_err f o ≡ ok b → o ≡ ok b
  map_err_ok f (ok a) b h = cc
  map_err_ok f (err e) b h = cc
  map_err_ok f panicked b h = cc
  map_err_ok f pending b h = cc
  map_err_ok f spent b h = cc

  pub to_vec_of_serialize :
      (args : RunScriptArgs lib.Value) (body : List ℕ)
      → serialize lib (run_script args) ≡ ok body
      → lib.to_vec args ≡ ok body
  unfolding serialize
  to_vec_of_serialize args body h = map_err_ok json_serialize (lib.to_vec args) body h
