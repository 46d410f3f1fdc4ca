-- ===== src/Worker/Server.antt =====
-- `runWorker` of src/worker/src/worker.ts: the process of one worker, and the server in it.
pub mod Exit
use js_sidecar.Prelude.{
  ℕ, ◌≡◌, Bool, true, false, ◌&&◌, Option, none, some, List, [], ◌∷◌, if◌then◌else◌,
}
use js_sidecar.Worker.Primary.{is_member, remove}

-- Connections are numbered. `closing` says that `server.close` was called, and `exit_code` is the argument
-- of `process.exit`.
pub record Server : Type 0 where
  pub said_ready : Bool
  pub connections : List ℕ
  pub closing : Bool
  pub exit_code : Option ℕ

-- A message of the primary process, with whether it is `shutdown`; SIGTERM or SIGINT; a client that
-- connects; a connection that ends; an error of the server.
pub data Event : Type 0 where
  message : Bool → Event
  signal : Event
  connects ends : ℕ → Event
  fails : Event

-- A server that is closing calls back when its last connection has ended.
unfoldable pub exit_if_drained : Server → Server
exit_if_drained s =
    if s.closing then elim s.connections [ [] ↦ record s { exit_code = some 0 } | _ ∷ _ ↦ s ] else s

-- `server.close(() => process.exit(0))`
unfoldable pub shutdown : Server → Server
shutdown s = exit_if_drained (record s { closing = true })

-- `accept`; a server that is closing takes no connection.
unfoldable pub accept : ℕ → Server → Server
accept id s = if s.closing then s else record s { connections = id ∷ s.connections }

unfoldable pub end_connection : ℕ → Server → Server
end_connection id s = exit_if_drained (record s { connections = remove id s.connections })

unfoldable pub handle : Event → Server → Server
handle (message is_shutdown) s = if is_shutdown then shutdown s else s
handle signal s = shutdown s
handle (connects id) s = accept id s
handle (ends id) s = end_connection id s
handle fails s = record s { exit_code = some 1 }

abbrev pub new_server : Server
new_server = record { said_ready = true; connections = []; closing = false; exit_code = none }

-- A connection that ends was there.
abbrev pub Possible : Event → Server → Type 0
Possible (ends id) s = is_member id s.connections ≡ true
Possible _ s = Unit

-- The states of a worker, up to its exit.
pub data Reachable : Server → Type 0 where
  started : Reachable new_server
  handled :
      {s : Server} (e : Event)
      → Reachable s
      → s.exit_code ≡ none
      → Possible e s
      → Reachable (handle e s)
