-- ===== src/Link/Session.antt =====
-- The life of a connection of src/connection.rs in the pool, from its scripts and its recyclings to what
-- src/worker/src/worker.ts answers.

pub mod Wire
pub mod Answers
use js_sidecar.Prelude.{
  ℕ, ◌+◌, ◌-◌, ◌<◌, ◌^◌, ◌≡◌, Bool, true, false, ◌||◌, Option, none, some, List, [], ◌∷◌, ◌++◌, All,
  length,
}
use js_sidecar.Prelude.Outcome.{Outcome, ok, map_ok, Call}
use js_sidecar.Frame.{Frame}
use js_sidecar.Host.Messages.{RunScriptArgs, WorkerToHostMessage}
use js_sidecar.Host.Libs.{Libs, Profile}
use js_sidecar.Host.Error.{Error}
use js_sidecar.Host.Connection.{
  Connection, RunScriptAndWaitResult, Managed, on_conn, run_script_and_wait, recycle,
}
use js_sidecar.Host.Connection.Wait.{verdict, contents}
use js_sidecar.Worker.ApiTypes.{pong}
use js_sidecar.Worker.Protocol.Frames.{received}
use js_sidecar.Worker.Sender.{sent_frame}
use js_sidecar.Worker.Node.{Node}
use js_sidecar.Worker.RunScript.{Session}
use js_sidecar.Worker.Handler.{handle_raw_message}
use js_sidecar.Worker.Handler.Answers.{Answered}
use js_sidecar.Link.Conversation.{IsReadable, message_of, messages_of}
use js_sidecar.Link.PingPong.{pong_to}

-- A caller's `run_script_and_wait`, or the recycling of the connection between two callers.
pub data Use (V : Type 0) : Type 0 where
  runs : RunScriptArgs V → Use V
  recycles : Use V

module _ (lib : Libs) where
  abbrev pub Answer : Type 0
  Answer = Outcome (Error lib) (Option (RunScriptAndWaitResult lib.Value))

  -- A pong comes in time here.
  abbrev pub use_once : ℕ → Profile → Use lib.Value → Managed lib → Answer × Managed lib
  use_once fuel p (runs args) m =
      let (o, m') = on_conn lib (run_script_and_wait lib fuel p args) m in (map_ok some o, m')
  use_once fuel p recycles m = let (o, m') = recycle lib p false m in (map_ok (λ _. none) o, m')

  -- An error of a script does not end the connection.
  unfoldable pub use_all :
      ℕ → Profile → List (Use lib.Value) → Managed lib → List Answer × Managed lib
  use_all fuel p [] m = ([], m)
  use_all fuel p (u ∷ us) m =
      let (o, m') = use_once fuel p u m in let (os, last) = use_all fuel p us m' in (o ∷ os, last)

abbrev pub script_frame : ℕ → ℕ → List ℕ → Frame
script_frame request message body = record {
  request_id = request;
  message_id = message;
  message_type = 0;
  body = body;
}

abbrev pub ping_frame : ℕ → ℕ → Frame
ping_frame request message = record {
  request_id = request;
  message_id = message;
  message_type = 1;
  body = [];
}

abbrev pub told : {V : Type 0} → Bool → RunScriptArgs V → RunScriptArgs V
told recreate args = record args { recreate_context = recreate || args.recreate_context }

-- The uses of a connection whose counters stand at `request` and `message`, of which each is over before
-- the next begins, and what the worker, whose state is `s`, does with them: it answers each script, in a
-- way that the host can parse, and each ping.
pub data Talk (lib : Libs) (n : Node) (fuel : ℕ) : ℕ → ℕ → Bool → Session n → Type 0 where
  over :
      {request message : ℕ} {recreate : Bool} {s : Session n}
      → Talk lib n fuel request message recreate s
  ran :
      {request message : ℕ} {recreate : Bool} {s : Session n} (args : RunScriptArgs lib.Value)
      (body : List ℕ)
      (a : Answered
        (received (script_frame request message body))
        s.sender
        (handle_raw_message n (received (script_frame request message body)) s).1.sender)
      (logs : All (IsReadable lib) a.lines) (last : IsReadable lib a.answer)
      → lib.to_vec (told recreate args) ≡ ok body
      → length body + 12 < 2 ^ 32
      → length a.lines < fuel
      → request < 2 ^ 32 - 1
      → message < 2 ^ 32 - 1
      → Talk lib n fuel
          (request + 1)
          (message + 1)
          false
          (handle_raw_message n (received (script_frame request message body)) s).1
      → Talk lib n fuel request message recreate s
  recycled :
      {request message : ℕ} {recreate : Bool} {s : Session n}
      → s.sender.id < 2 ^ 32
      → request < 2 ^ 32 - 1
      → message < 2 ^ 32 - 1
      → Talk lib n fuel
          (request + 1)
          (message + 1)
          true
          (handle_raw_message n (received (ping_frame request message)) s).1
      → Talk lib n fuel request message recreate s

module _ {lib : Libs} {n : Node} {fuel : ℕ} where
  abbrev pub uses :
      {request message : ℕ} {recreate : Bool} {s : Session n}
      → Talk lib n fuel request message recreate s
      → List (Use lib.Value)
  uses over = []
  uses (ran args body a logs last written fits enough request_left message_left rest) =
      runs args ∷ uses rest
  uses (recycled id_left request_left message_left rest) = recycles ∷ uses rest

  -- What each caller is given: the answer to its own script, with the log lines before it.
  abbrev pub answers :
      {request message : ℕ} {recreate : Bool} {s : Session n}
      → Talk lib n fuel request message recreate s
      → List (Answer lib)
  answers over = []
  answers (ran args body a logs last written fits enough request_left message_left rest) =
      map_ok some (verdict lib (contents (messages_of lib a.lines logs)) last.0) ∷ answers rest
  answers (recycled id_left request_left message_left rest) = ok none ∷ answers rest

  -- What the host writes, and what the worker sends.
  abbrev pub requests :
      {request message : ℕ} {recreate : Bool} {s : Session n}
      → Talk lib n fuel request message recreate s
      → List Frame
  requests over = []
  requests {request} {message}
        (ran args body a logs last written fits enough request_left message_left rest) =
      script_frame request message body ∷ requests rest
  requests {request} {message} (recycled id_left request_left message_left rest) =
      ping_frame request message ∷ requests rest

  abbrev pub replies :
      {request message : ℕ} {recreate : Bool} {s : Session n}
      → Talk lib n fuel request message recreate s
      → List Frame
  replies over = []
  replies (ran args body a logs last written fits enough request_left message_left rest) =
      (a.lines ++ a.answer ∷ []) ++ replies rest
  replies {request} {s = s} (recycled id_left request_left message_left rest) =
      sent_frame s.sender.id request pong [] ∷ replies rest

  abbrev pub messages :
      {request message : ℕ} {recreate : Bool} {s : Session n}
      → Talk lib n fuel request message recreate s
      → List (WorkerToHostMessage lib.Value)
  messages over = []
  messages (ran args body a logs last written fits enough request_left message_left rest) =
      (messages_of lib a.lines logs ++ message_of lib a.answer last ∷ []) ++ messages rest
  messages {request} {s = s} (recycled id_left request_left message_left rest) =
      pong_to request s.sender.id ∷ messages rest

  abbrev pub worker_after :
      {request message : ℕ} {recreate : Bool} {s : Session n}
      → Talk lib n fuel request message recreate s
      → Session n
  worker_after {s = s} over = s
  worker_after (ran args body a logs last written fits enough request_left message_left rest) =
      worker_after rest
  worker_after (recycled id_left request_left message_left rest) = worker_after rest
