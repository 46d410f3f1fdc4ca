-- ===== src/Host/Sidecar.antt =====
-- `JsSidecar` of src/connection.rs: starting and stopping the Node.js process.
pub mod Paths
pub mod Start
pub mod Stop
use js_sidecar.Prelude.{
  ℕ, zero, suc, ◌+◌, ◌%◌, ◌^◌, Bool, true, false, Option, none, some, List, [], ◌∷◌, ◌++◌, ltb,
  ◌==◌, if◌then◌else◌,
}
use js_sidecar.Prelude.Outcome.{
  Outcome, ok, err, panicked, pending, spent, Call, map_err, pure, lift, call_map_err, after, ◌>>=◌,
  ◌>>◌,
}
use js_sidecar.Text.{text, decimal}
use js_sidecar.Host.Libs.{Libs}
use js_sidecar.Host.Error.{Error, start_worker, connect_worker, build_pool, pool}
use js_sidecar.Host.Os.{Os}

-- What a program keeps for all its sidecars: its ID, `std::env::temp_dir`, the `COUNTER`, the bundled
-- worker in `SCRIPT`, and what is outside it.
pub record Program {lib : Libs} (os : Os lib) : Type 0 where
  pub pid : ℕ
  pub temp_dir : List ℕ
  pub counter : ℕ
  pub bundle : List ℕ
  pub system : os.System

pub record JsSidecar {lib : Libs} (os : Os lib) : Type 0 where
  pub node_process : Option os.Child
  pub socket_path : List ℕ
  pub script_file : os.TempFile
  pub connections : os.Pool

-- `fetch_add` on an `AtomicU64` wraps.
abbrev pub u64_mod : ℕ
u64_mod = 2 ^ 64

-- `format!("js_sidecar.{}.{}.sock", pid, counter)`
unfoldable pub socket_name : ℕ → ℕ → List ℕ
socket_name pid counter =
    text "js_sidecar." ++ (decimal pid ++ (text "." ++ (decimal counter ++ text ".sock")))

-- `Path::join` with a relative name, for a directory that is written without a slash at its end.
abbrev pub join : List ℕ → List ℕ → List ℕ
join dir name = dir ++ (text "/" ++ name)

unfoldable pub arguments : List ℕ → List ℕ → Option ℕ → List (List ℕ)
arguments script_path socket_path num_workers =
    text "--no-warnings=ExperimentalWarning"
    ∷ text "--experimental-vm-modules"
    ∷ script_path
    ∷ text "--socket"
    ∷ socket_path
    ∷ elim num_workers [ none ↦ [] | some n ↦ text "--workers" ∷ decimal n ∷ [] ]

module _ {lib : Libs} (os : Os lib) where
  abbrev on_system : {A : Type 0} → Call os.System (Error lib) A → Call (Program os) (Error lib) A
  on_system call m = let (r, s) = call m.system in (r, record m { system = s })

  -- The socket path of a new sidecar.
  unfoldable pub next_socket : Call (Program os) (Error lib) (List ℕ)
  next_socket m = (
    ok (join m.temp_dir (socket_name m.pid m.counter)),
    record m { counter = (m.counter + 1) % u64_mod },
  )

  abbrev pub Launched : Type 0
  Launched = List ℕ × os.TempFile × os.Child

  -- What is returned with the script file goes on to keep it, and a `?` or an error behind it drops it.
  unfoldable pub keep_or_drop :
      {A : Type 0} → os.TempFile → Outcome (Error lib) A → Call (Program os) (Error lib) A
  keep_or_drop file (ok a) m = (ok a, m)
  keep_or_drop file (err e) m = (err e, record m { system = os.drop_file file m.system })
  keep_or_drop file panicked m = (panicked, record m { system = os.drop_file file m.system })
  keep_or_drop file pending m = (pending, m)
  keep_or_drop file spent m = (spent, m)

  abbrev pub dropping :
      {A : Type 0} → os.TempFile → Call (Program os) (Error lib) A → Call (Program os) (Error lib) A
  dropping file call m = let (r, m') = call m in keep_or_drop file r m'

  -- `new` up to the spawned process.
  unfoldable pub launch : Option ℕ → Call (Program os) (Error lib) Launched
  launch num_workers m =
      (do
        socket_path ← next_socket
        input_script ←
            on_system (call_map_err start_worker (os.tempfile (text "js_sidecar") (text ".mjs")))
        dropping input_script (do
          on_system (call_map_err start_worker (os.write (os.path input_script) m.bundle))
          node_process ← on_system (
              call_map_err start_worker
                (os.spawn (text "node") (arguments (os.path input_script) socket_path num_workers)))
          pure (socket_path, input_script, node_process)))
        m

  -- `while checks < 50`: how many checks failed before one succeeded, or 50.
  unfoldable pub check_socket : ℕ → List ℕ → ℕ → Call os.System (Error lib) ℕ
  check_socket zero socket_path checks s = (spent, s)
  check_socket (suc fuel) socket_path checks s =
      let (stream, s') = os.connect socket_path s in
      let again = check_socket fuel socket_path (checks + 1) (os.sleep 10 s') in
      if ltb checks 50
      then elim stream [
        | ok x ↦ (ok checks, s')
        | err e ↦ again
        | panicked ↦ (panicked, s')
        | pending ↦ (pending, s')
        | spent ↦ (spent, s')
      ]
      else (ok checks, s)

  unfoldable pub give_up : ℕ → Call (Program os) (Error lib) (Unit {0})
  give_up checks =
      if checks == 50
      then lift (err (start_worker (lib.other "Timed out waiting for socket to be ready")))
      else pure tt

  unfoldable pub new_sidecar : Option ℕ → Call (Program os) (Error lib) (JsSidecar os)
  new_sidecar num_workers = do
    (socket_path, input_script, node_process) ← launch num_workers
    dropping input_script (do
      checks ← on_system (check_socket 51 socket_path 0)
      give_up checks
      connections ← lift (map_err build_pool (os.build_pool socket_path 1024))
      pure (record {
        node_process = some node_process;
        socket_path = socket_path;
        script_file = input_script;
        connections = connections;
      }))

  unfoldable pub connect : JsSidecar os → Call os.System (Error lib) os.Object
  connect j = call_map_err pool (os.get j.connections)

  unfoldable pub close_child : os.Child → os.System → os.System
  close_child child s = elim (os.id child s) [
    | none ↦ s
    | some pid ↦
        let (term_result, s') = os.wait 5 child (os.sigterm pid s) in
        elim term_result [ none ↦ os.kill child s' | some r ↦ s' ]
  ]

  -- `if let Some(child) = self.node_process.take()`, and `close_child`.
  unfoldable pub close_taken : JsSidecar os → os.System → JsSidecar os × os.System
  close_taken j s = elim j.node_process [
    | none ↦ (j, s)
    | some child ↦ (record j { node_process = none }, close_child child s)
  ]

  unfoldable pub close : JsSidecar os → os.System → JsSidecar os × os.System
  close j s = close_taken j (os.close_pool j.connections s)

  -- `Drop::drop`, with the task that it spawns run to its end. The fields are dropped behind it.
  unfoldable pub drop_sidecar : JsSidecar os → os.System → JsSidecar os × os.System
  drop_sidecar j s = close_taken j s
