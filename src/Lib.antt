-- ===== src/Lib.antt =====
-- js_sidecar runs JavaScript for a Rust program: the host (src/*.rs) starts a Node.js process, keeps a
-- pool of connections to its Unix socket, and sends scripts over them; a worker (src/worker/src/*.ts)
-- reads the scripts from the socket, runs them, and sends log lines and responses back. Both sides frame
-- their messages in the same way: a length, a request ID, a message ID and a type, each a little-endian
-- u32, and then data, which is JSON or empty.
--
-- The parts, and the files that model them:
-- - Frame: the wire format, as the comment on `Protocol` in src/worker/src/protocol.ts gives it.
--   It is the common specification of both sides.
-- - Bytes: little-endian words, `subarray`.
-- - Host/Messages, Host/Error: the data types of src/messages.rs, src/protocol.rs and src/error.rs.
-- - Host/Libs: the crates that the host calls, as the record `Libs` of their types and functions, and
--   what is assumed of them where a theorem needs it (`WritesWords`, `WritesAll`, `ReadsExactly`,
--   `Delivers`).
-- - Json, Host/Serde, Worker/Json: JSON documents; those that the serde attributes of src/messages.rs
--   describe; and those that src/worker/src/api_types.ts and protocol.ts read and write. The texts of
--   documents are serde_json's and JavaScript's, which Link/Documents states as assumptions.
-- - Host/Protocol: src/protocol.rs; `to_buffer`, `write_to`, `parse_data` and `read_from` are the
--   functions of these names. Its child modules: Write, Read, Errors.
-- - Host/Connection: `Connection::{run_script, ping, receive_message, run_script_and_wait}` and
--   `ConnectionManager::recycle` of src/connection.rs. Its child modules: Send (one request), Requests
--   (a run of them), Wait (the answers), Recycle, Bounds (every operation, in any order).
-- - Host/Create: `ConnectionManager::create` and `Connection::new`.
-- - Host/Reader: the task that `Connection::new` spawns. Host/Channel: the same task and the program at the
--   two ends of its channel, as events of a state machine. Its child modules: Events, Flow, Progress.
-- - Host/Sidecar: `JsSidecar::{new, connect, close, close_child}` and `Drop` of src/connection.rs, over
--   the operating system and deadpool's pool as the record `Os` of Host/Os. Its child modules: Paths,
--   Start, Stop. Text has the decimal numbers of the socket's name.
-- - Worker/ApiTypes: the enums of src/worker/src/api_types.ts.
-- - Worker/Protocol: `Protocol.handleData` of src/worker/src/protocol.ts, its `while` loop one `turn` at
--   a time. Its child modules: Turns, Loop, Chunks (how input may be cut), Frames, Malformed.
-- - Worker/Sender: `Protocol.sendMessage`.
-- - Worker/RunScript: `createContext` and `runScript` of src/worker/src/run_script.ts, over node:vm, JSON
--   and lru-cache as the record `Node` of Worker/Node. Its child modules: Context, Sends (what
--   a run does to the sender), Logs, Console (under which ID it logs), Keys.
-- - Worker/Handler: `handleRawMessage` and `handleMessage` of src/worker/src/worker.ts. Its child modules:
--   Answers, Failures, Ping, Recreated; they use Worker/Logged, on what a sender has sent.
-- - Worker/Tasks: the messages of one connection as tasks that take turns at the awaits of `runScript`, as
--   a step relation `Step` with reachability `Reach`. Its child modules: Logs, Events (the abstract
--   service), Service (the turns implement it), Balance (how often), Pending (without an order),
--   Numbered (the message IDs), Sequential (the turns and the sequential model), Served (the turns while
--   no message comes), Progress (how they end), Overtake (a ping among them) and Intake (the messages that
--   a protocol emits).
-- - Worker/Primary: the handlers of src/worker/src/index.ts, and the states that they reach. Its child
--   modules: Shutdown, Options (`parseArgs`, as a parameter), CommandLine (the options of the process, its
--   first workers, and its removal of the socket file).
-- - Worker/Server: `runWorker`, and the states of a worker process. Its child module: Exit.
-- - Worker/Connections: the process of a worker with all its connections, which share what node:vm keeps
--   and the code cache: the events of Worker/Server, data on each socket, and the turns of Worker/Tasks, in
--   any order. Its child module: Isolated. What the tasks of a connection that has ended still do is left
--   out.
-- - Link: from the host to a worker (ToWorker) and back (ToHost), a ping and its pong (PingPong), what
--   recycling a connection means for the worker (Recycled), a script and its arguments (Script,
--   Arguments), responses and errors (Answer, Replies), a script and its answer (Conversation), the
--   life of a connection (Session, with its child modules Wire and Answers) and how it goes wrong
--   (Overtaken), requests and all that is sent back (Requests), starting the primary process
--   (CommandLine) and stopping it and its workers (Shutdown), and messages of 4 GiB and more (Oversized).
-- - Prelude: shared names and lemmas, and `Outcome`, the results of calls: `ok`, `err`, `panicked` (a Rust
--   panic), `pending` (an await that never completes), `spent` (a model that ran out of fuel). A call with
--   state is a function from the state to an outcome and a state, and `>>=` is `?`.
-- - Tests: small stand-ins for what is outside the repository, which meet the assumptions, and every
--   result below at concrete inputs.
--
-- A u32 is a number below 2 ^ 32 and its wrap-around is written out; `Profile` says whether overflow
-- panics (debug) or wraps (release). JavaScript's numbers are exact here up to the words that
-- `writeUInt32LE` accepts. A byte sequence is a list of numbers.
--
-- Fuel and rounds: `handle_data` gives its loop one round more than `measure`, which falls in every round
-- that goes on. `run_script_and_wait` takes fuel, of which it needs one more than there are messages to
-- read. The reader task is run for a given sequence of outcomes of its `select!`.
-- The loop of `new` has fuel for 51 rounds, one more than it has checks.
--
-- Not modelled: the connection pool, which is deadpool's; src/lib.rs, which only names modules, and
-- benches/bench.rs, which only calls them; the debug output of src/worker/src/debug.ts; and
-- src/worker/dist/index.js, which the build makes from src/worker/src. JavaScript rounds a number of workers
-- from 2 ^ 53 on, which the model of `parseInt` does not; the host's number has 32 bits.
pub mod Prelude
pub mod Bytes
pub mod Text
pub mod Json
pub mod Worker
pub mod Frame
pub mod Host
pub mod Link
pub mod Tests
