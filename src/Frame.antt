-- ===== src/Frame.antt =====
-- The wire format, as the comment on `Protocol` in src/worker/src/protocol.ts describes it: a length
-- that counts what follows it, the request ID, the message ID, the message type, and data.
-- It is the common specification of src/protocol.rs and src/worker/src/protocol.ts.
use js_sidecar.Prelude.{ℕ, ◌+◌, ◌<◌, ◌^◌, List, [], ◌∷◌, ◌++◌, length}
use js_sidecar.Bytes.{to_le_bytes}

pub record Frame : Type 0 where
  pub request_id : ℕ
  pub message_id : ℕ
  pub message_type : ℕ
  pub body : List ℕ

-- The fields fit the words of the header.
pub record IsEncodable (f : Frame) : Type 0 where
  pub request_fits : f.request_id < 2 ^ 32
  pub message_fits : f.message_id < 2 ^ 32
  pub type_fits : f.message_type < 2 ^ 32
  pub length_fits : length f.body + 12 < 2 ^ 32

unfoldable pub encode : Frame → List ℕ
unfolding to_le_bytes
encode f =
    to_le_bytes (length f.body + 12)
    ++ (to_le_bytes f.request_id
        ++ (to_le_bytes f.message_id ++ (to_le_bytes f.message_type ++ f.body)))

abbrev pub stream : List Frame → List ℕ
stream [] = []
stream (f ∷ fs) = encode f ++ stream fs
