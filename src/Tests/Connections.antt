-- ===== src/Tests/Connections.antt =====
-- A worker with two connections: a ping comes on the one, in two pieces, while a script of the other waits
-- for its promise, and then the message to shut down.
use js_sidecar.Prelude.{refl, true, [], ◌∷◌, List, ℕ, ◌≡◌, map, length}
use js_sidecar.Bytes.{u32_at, read_u32_le, to_le_bytes}
use js_sidecar.Worker.Sender.{send_message, write_u32_le}
use js_sidecar.Worker.ApiTypes.{worker_to_host_value}
use js_sidecar.Worker.Protocol.{
  fresh, handle_data, message_loop, turn, take_length, take_message, read_header,
}
use js_sidecar.Worker.RunScript.{
  create_context, find_context, new_context, save, define_functions, define_modules, compile_expr,
  get_code, on_heap, keep_code, with_console, send_logs,
}
use js_sidecar.Worker.Handler.{handle_raw_message, send}
use js_sidecar.Worker.Tasks.{World, begin, begin_expr, finish, arrive}
use js_sidecar.Worker.Tasks.Intake.{take_one, take_in}
use js_sidecar.Worker.Server.{new_server, message, connects, handle, accept}
use js_sidecar.Worker.Connections.{
  Client, Process, new_client, on_clients, on_event, world, client_after, after_turn, fed, on_data,
  Running, starts, serves, receives,
}
use js_sidecar.Worker.Connections.Isolated.{Serves, Running-Serves}
use js_sidecar.Tests.Worker.{small_node}
use js_sidecar.Tests.Tasks.{promising}

abbrev script_bytes : List ℕ
script_bytes = 13 ∷ 0 ∷ 0 ∷ 0 ∷ 5 ∷ 0 ∷ 0 ∷ 0 ∷ 5 ∷ 0 ∷ 0 ∷ 0 ∷ 0 ∷ 0 ∷ 0 ∷ 0 ∷ 0 ∷ []

abbrev ping_front : List ℕ
ping_front = 12 ∷ 0 ∷ 0 ∷ 0 ∷ 6 ∷ []

abbrev ping_back : List ℕ
ping_back = 0 ∷ 0 ∷ 0 ∷ 6 ∷ 0 ∷ 0 ∷ 0 ∷ 1 ∷ 0 ∷ 0 ∷ 0 ∷ []

abbrev client_3 : Client small_node
client_3 = new_client 3

abbrev client_4 : Client small_node
client_4 = new_client 4

abbrev two : Process small_node
two = record {
  server = record new_server { connections = 4 ∷ 3 ∷ [] };
  clients = client_4 ∷ client_3 ∷ [];
  heap = 1;
  code_cache = tt;
}

two-Running : Running small_node 1 tt two
unfolding on_event on_clients handle accept
two-Running = serves (connects 4) (serves (connects 3) starts refl tt) refl tt

abbrev asked_world : World small_node
asked_world =
    (take_in small_node promising (handle_data fresh script_bytes).emitted (world 1 tt client_4)).1

abbrev asked_client : Client small_node
asked_client = client_after (fed script_bytes client_4) asked_world

abbrev asked : Process small_node
asked = on_data promising script_bytes [] client_4 (client_3 ∷ []) two

abbrev half : Process small_node
half = on_data promising ping_front (asked_client ∷ []) client_3 [] asked

abbrev half_client : Client small_node
half_client =
    client_after (fed ping_front client_3)
      (take_in small_node promising (handle_data fresh ping_front).emitted
        (world asked.heap asked.code_cache client_3)).1

abbrev whole : Process small_node
whole = on_data promising ping_back (asked_client ∷ []) half_client [] half

asked-Running : Running small_node 1 tt asked
unfolding handle_data message_loop turn take_length take_message read_header u32_at read_u32_le
    take_in take_one
asked-Running =
    receives promising script_bytes [] (client_3 ∷ []) client_4 two-Running refl refl refl refl

half-Running : Running small_node 1 tt half
unfolding on_data after_turn handle_data message_loop turn take_length take_message read_header
    u32_at read_u32_le take_in take_one
half-Running =
    receives promising ping_front (asked_client ∷ []) [] client_3 asked-Running refl refl refl refl

whole-Running : Running small_node 1 tt whole
unfolding on_data after_turn handle_data message_loop turn take_length take_message read_header
    u32_at read_u32_le take_in take_one handle_raw_message send send_message write_u32_le
    worker_to_host_value
whole-Running =
    receives promising ping_back (asked_client ∷ []) [] half_client half-Running refl refl refl refl

-- One task waits, and one pong was sent.
waiting :
    (map (λ (c : Client small_node). length c.tasks) whole.clients ≡ 1 ∷ 0 ∷ [])
    × (map (λ (c : Client small_node). length c.sender.sent) whole.clients ≡ 17 ∷ 16 ∷ [])
unfolding on_data after_turn handle_data message_loop turn take_length take_message read_header
    u32_at read_u32_le take_in take_one handle_raw_message send send_message write_u32_le
    worker_to_host_value arrive begin begin_expr finish create_context find_context new_context save
    define_functions define_modules compile_expr get_code on_heap keep_code with_console send_logs
    to_le_bytes
waiting = (refl, refl)

Running-Serves_example : Serves (on_event (message true) whole)
unfolding on_data after_turn
Running-Serves_example =
    Running-Serves small_node 1 tt (on_event (message true) whole)
      (serves (message true) whole-Running refl tt)
