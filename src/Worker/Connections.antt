-- ===== src/Worker/Connections.antt =====
-- The process of one worker of src/worker/src/worker.ts with all its connections: each has its `Protocol`
-- and its tasks, and they share what node:vm keeps, and the code cache of src/worker/src/run_script.ts.
pub mod Isolated
use js_sidecar.Prelude.{ℕ, ◌≡◌, Option, none, List, [], ◌∷◌, ◌++◌, ◌==◌, if◌then◌else◌}
use js_sidecar.Worker.Sender.{Sender, new_sender}
use js_sidecar.Worker.Node.{Node}
use js_sidecar.Worker.RunScript.{RunContext}
use js_sidecar.Prelude.Outcome.{ok}
use js_sidecar.Worker.Protocol.{Incoming, fresh, returned, handle_data}
use js_sidecar.Worker.Tasks.{Task, World, Turn, Step}
use js_sidecar.Worker.Tasks.Intake.{take_in}
use js_sidecar.Worker.Server.{
  Server, Event, message, signal, connects, ends, fails, new_server, handle, Possible,
}

-- A connection: its two sides, the run context in its cache, the tasks of its messages, and, for what is
-- said of them, the data that came on it.
pub record Client (n : Node) : Type 0 where
  pub id : ℕ
  pub incoming : Incoming
  pub sender : Sender
  pub run_ctx : Option (RunContext n)
  pub tasks : List (Task n)
  pub data_in : List (List ℕ)

pub record Process (n : Node) : Type 0 where
  pub server : Server
  pub clients : List (Client n)
  pub heap : n.Heap
  pub code_cache : n.Cache

module _ {n : Node} where
  -- `new Protocol(socket)`
  abbrev pub new_client : ℕ → Client n
  new_client id = record {
    id = id;
    incoming = fresh;
    sender = new_sender;
    run_ctx = none;
    tasks = [];
    data_in = [];
  }

  unfoldable pub remove_client : ℕ → List (Client n) → List (Client n)
  remove_client id [] = []
  remove_client id (c ∷ cs) = if id == c.id then cs else c ∷ remove_client id cs

  -- The clients after an event of the server, which has been closed or not.
  unfoldable pub on_clients : Event → Server → List (Client n) → List (Client n)
  on_clients (connects id) s cs = if s.closing then cs else new_client id ∷ cs
  on_clients (ends id) s cs = remove_client id cs
  on_clients (message b) s cs = cs
  on_clients signal s cs = cs
  on_clients fails s cs = cs

  unfoldable pub on_event : Event → Process n → Process n
  on_event e p = record p { server = handle e p.server; clients = on_clients e p.server p.clients }

  -- A connection, with what it shares with the others.
  abbrev pub world : n.Heap → n.Cache → Client n → World n
  world heap code_cache c = record {
    session = record {
      sender = c.sender;
      run_ctx = c.run_ctx;
      heap = heap;
      code_cache = code_cache;
    };
    tasks = c.tasks;
  }

  abbrev pub client_after : Client n → World n → Client n
  client_after c w = record c {
    sender = w.session.sender;
    run_ctx = w.session.run_ctx;
    tasks = w.tasks;
  }

  -- The worker after one of its clients was in a world of its own.
  unfoldable pub after_turn :
      List (Client n) → Client n → List (Client n) → World n → Process n → Process n
  after_turn before c later w p = record p {
    clients = before ++ client_after c w ∷ later;
    heap = w.session.heap;
    code_cache = w.session.code_cache;
  }

  -- A client whose socket has received more.
  abbrev pub fed : List ℕ → Client n → Client n
  fed bytes c = record c {
    incoming = (handle_data c.incoming bytes).incoming;
    data_in = c.data_in ++ bytes ∷ [];
  }

  -- `socket.on('data', ...)`, with the messages that are emitted on the way.
  unfoldable pub on_data :
      Turn n → List ℕ → List (Client n) → Client n → List (Client n) → Process n → Process n
  on_data turn bytes before c later p =
      let ms = (handle_data c.incoming bytes).emitted in
      after_turn before (fed bytes c) later (take_in n turn ms (world p.heap p.code_cache c)).1 p

-- The states of a worker, up to its exit: events of its server, data on its connections, and turns of
-- their tasks, in any order. What throws in an event of a socket or in a handler ends the worker, and
-- is no step.
pub data Running (n : Node) (heap : n.Heap) (code_cache : n.Cache) : Process n → Type 0 where
  starts :
      Running n heap code_cache
        (record { server = new_server; clients = []; heap = heap; code_cache = code_cache })
  serves :
      {p : Process n} (e : Event)
      → Running n heap code_cache p
      → p.server.exit_code ≡ none
      → Possible e p.server
      → Running n heap code_cache (on_event e p)
  receives :
      {p : Process n} (turn : Turn n) (bytes : List ℕ) (before later : List (Client n))
      (c : Client n)
      → Running n heap code_cache p
      → p.server.exit_code ≡ none
      → p.clients ≡ before ++ c ∷ later
      → (handle_data c.incoming bytes).status ≡ returned
      → (take_in n turn (handle_data c.incoming bytes).emitted (world p.heap p.code_cache c)).0
        ≡ ok tt
      → Running n heap code_cache (on_data turn bytes before c later p)
  takes_turn :
      {p : Process n} (before later : List (Client n)) (c : Client n) (w : World n)
      → Running n heap code_cache p
      → p.server.exit_code ≡ none
      → p.clients ≡ before ++ c ∷ later
      → Step n (world p.heap p.code_cache c) w [] []
      → Running n heap code_cache (after_turn before c later w p)
