-- ===== src/Tests/Wire.antt =====
-- The wire format of src/protocol.rs and src/worker/src/protocol.ts at concrete bytes.
use mathlib.Core.List.{flatten}
use js_sidecar.Prelude.{ℕ, ◌<◌, ◌≡◌, ◌≢◌, refl, some, List, [], ◌∷◌, ◌++◌, take, drop, All, arith}
use js_sidecar.Prelude.Outcome.{ok, err, panicked}
use js_sidecar.Bytes.{u32_at, read_u32_le, to_le_bytes}
use js_sidecar.Frame.{Frame, IsEncodable, encode, stream}
use js_sidecar.Host.Libs.{debug, release}
use js_sidecar.Host.Messages.{WorkerToHostMessage as HostMessage, log, pong}
use js_sidecar.Host.Error.{read_stream}
use js_sidecar.Host.Protocol.{parse_data, read_from}
use js_sidecar.Host.Protocol.Read.{with_content, read_from-encode}
use js_sidecar.Host.Protocol.Errors.{read_from_underflow}
use js_sidecar.Worker.ApiTypes
use js_sidecar.Worker.Protocol.{
  fresh, returned, threw, spent, ends, prepend, message_loop, handle_data, handle_chunks,
  read_header, take_message, take_length, turn,
}
use js_sidecar.Worker.Protocol.Turns.{message_at}
use js_sidecar.Worker.Protocol.Chunks.{handle_data-append, handle_data-ne-spent}
use js_sidecar.Worker.Protocol.Frames.{received, handle_chunks-stream}
use js_sidecar.Worker.Protocol.Malformed.{short_frame_cut}
use js_sidecar.Link.ToHost.{Reply}
use js_sidecar.Tests.Toy.{toy, toy_reads}

abbrev script_frame : Frame
script_frame = record { request_id = 5; message_id = 5; message_type = 0; body = 1 ∷ 2 ∷ [] }

abbrev ping_frame : Frame
ping_frame = record { request_id = 6; message_id = 6; message_type = 1; body = [] }

abbrev pong_frame : Frame
pong_frame = record { request_id = 6; message_id = 0; message_type = 0x1003; body = [] }

frames_fit : All IsEncodable (script_frame ∷ ping_frame ∷ [])
frames_fit = omega arith

abbrev wire : List ℕ
wire = stream (script_frame ∷ ping_frame ∷ [])

abbrev pieces : List (List ℕ)
pieces = take 3 wire ∷ take 18 (drop 3 wire) ∷ drop 21 wire ∷ []

pieces_whole : flatten pieces ≡ wire
unfolding encode flatten
pieces_whole = refl

handle_pieces : handle_chunks fresh pieces ≡ record {
  incoming = fresh;
  emitted = received script_frame ∷ received ping_frame ∷ [];
  status = returned;
}
unfolding handle_chunks handle_data message_loop turn take_length take_message read_header u32_at
    read_u32_le encode
handle_pieces = refl

handle_chunks-stream_example : handle_chunks fresh pieces ≡ record {
  incoming = fresh;
  emitted = received script_frame ∷ received ping_frame ∷ [];
  status = returned;
}
handle_chunks-stream_example =
    handle_chunks-stream (script_frame ∷ ping_frame ∷ []) pieces frames_fit pieces_whole

half_returned : (handle_data fresh (take 19 wire)).status ≡ returned
unfolding handle_data message_loop turn take_length take_message read_header u32_at read_u32_le
    encode
half_returned = refl

handle_data-append_example :
    handle_data fresh (take 19 wire ++ drop 19 wire)
    ≡ prepend
        (handle_data fresh (take 19 wire)).emitted
        (handle_data (handle_data fresh (take 19 wire)).incoming (drop 19 wire))
handle_data-append_example = handle_data-append fresh (take 19 wire) (drop 19 wire) half_returned

handle_data-ne-spent_example : (handle_data fresh (1 ∷ 2 ∷ 3 ∷ [])).status ≢ spent
handle_data-ne-spent_example = handle_data-ne-spent fresh (1 ∷ 2 ∷ 3 ∷ [])

short_threw : (handle_data fresh (2 ∷ 0 ∷ 0 ∷ 0 ∷ 9 ∷ 9 ∷ [])).status ≡ threw
unfolding handle_data message_loop turn take_length take_message read_header u32_at read_u32_le
short_threw = refl

abbrev ten : List ℕ
ten = 1 ∷ 2 ∷ 3 ∷ 4 ∷ 5 ∷ 6 ∷ 7 ∷ 8 ∷ 9 ∷ 10 ∷ []

short_frame_cut_example :
    (handle_chunks fresh ((to_le_bytes 3 ++ ten) ∷ (11 ∷ 12 ∷ []) ∷ [])
      ≡ ends (record { buffer = ten; expected_length = some 3 }) threw)
    × (handle_chunks fresh ((to_le_bytes 3 ++ (ten ++ 11 ∷ 12 ∷ [])) ∷ [])
        ≡ prepend
            (message_at 3 (ten ++ 11 ∷ 12 ∷ []) ∷ [])
            (handle_chunks fresh (drop 3 (ten ++ 11 ∷ 12 ∷ []) ∷ [])))
short_frame_cut_example =
    short_frame_cut 3 ten (11 ∷ 12 ∷ []) (omega arith) (omega arith) (omega arith)

read_from-encode_example :
    ((read_from toy debug (encode pong_frame ++ 9 ∷ [])).0
      ≡ with_content {lib = toy} pong_frame (parse_data toy 0x1003 []))
    × ((read_from toy debug (encode pong_frame ++ 9 ∷ [])).1 ≡ 9 ∷ [])
read_from-encode_example =
    read_from-encode toy (λ r. r) toy_reads debug pong_frame (9 ∷ []) (encode pong_frame ++ 9 ∷ [])
      (omega arith) refl

whole_pong : take 15 (encode pong_frame) ++ (0 ∷ []) ≡ encode pong_frame
unfolding encode
whole_pong = refl

abbrev short_header : List ℕ
short_header = 3 ∷ 0 ∷ 0 ∷ 0 ∷ 0 ∷ 0 ∷ 0 ∷ 0 ∷ 0 ∷ 0 ∷ 0 ∷ 0 ∷ 3 ∷ 16 ∷ 0 ∷ 0 ∷ []

short_word : u32_at (take 16 short_header) 0 < 12
unfolding u32_at
short_word = omega arith

read_from_underflow_example :
    ((read_from toy debug short_header).0 ≡ panicked)
    × ((e : toy.IoError) × ((read_from toy release short_header).0 ≡ err (read_stream e)))
read_from_underflow_example =
    read_from_underflow toy (λ r. r) toy_reads short_header (omega arith) short_word (omega arith)

parsed_pong : parse_data toy 0x1003 (1 ∷ []) ≡ ok pong
unfolding parse_data
parsed_pong = refl

abbrev replies : List Reply
replies =
    record { req_id = 4; type = ApiTypes.log; message = 7 ∷ 7 ∷ [] }
    ∷ record { req_id = 4; type = ApiTypes.pong; message = [] }
    ∷ []

abbrev answers : List (HostMessage ℕ)
answers =
    record {
      request_id = 4;
      message_id = 0;
      content = log (record { level = "info"; message = 2 });
    }
    ∷ record { request_id = 4; message_id = 1; content = pong }
    ∷ []
