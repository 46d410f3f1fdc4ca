-- ===== src/Tests/Shutdown.antt =====
-- Two workers, of which one still serves two connections, when the primary process is told to stop.
use js_sidecar.Prelude.{ℕ, List, [], ◌∷◌}
use js_sidecar.Worker.Server.{Server, new_server}

abbrev serving : Server
serving = record new_server { connections = 4 ∷ 3 ∷ [] }

abbrev servers : List (ℕ × Server)
servers = (1, serving) ∷ (0, new_server) ∷ []
