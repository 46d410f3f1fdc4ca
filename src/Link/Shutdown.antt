-- ===== src/Link/Shutdown.antt =====
-- SIGTERM, as `close_child` of src/connection.rs sends it to the primary process, through
-- src/worker/src/index.ts to the workers of src/worker/src/worker.ts and back.
use js_sidecar.Prelude.{ℕ, ◌≡◌, some, List, [], ◌∷◌, map}
use js_sidecar.Worker.Primary.{Primary, shutdown, handle, is_member}
use js_sidecar.Worker.Server.{Server, message, ends, shutdown as shut_down, handle as handle_server}

-- A worker gets the messages that the primary process sent to it.
abbrev pub deliver : List ℕ → ℕ × Server → ℕ × Server
deliver told (w, s) = (w, handle_server (message (is_member w told)) s)

abbrev pub end_each : List ℕ → Server → Server
end_each [] s = s
end_each (id ∷ ids) s = end_each ids (handle_server (ends id) s)

-- The clients of a worker end their connections, one after the other.
abbrev pub end_all : ℕ × Server → ℕ × Server
end_all (w, s) = (w, end_each s.connections s)

abbrev pub worker_ids : List (ℕ × Server) → List ℕ
worker_ids = map (λ x. x.0)

abbrev pub HasExited : ℕ × Server → Type 0
HasExited x = x.1.exit_code ≡ some 0
