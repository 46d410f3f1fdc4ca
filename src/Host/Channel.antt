-- ===== src/Host/Channel.antt =====
-- The channel between the task that `Connection::new` of src/connection.rs spawns and the receiver of
-- the connection, `mpsc::channel(16)`, and how the two sides take turns.
pub mod Events
pub mod Flow
pub mod Progress
use js_sidecar.Prelude.{
  ℕ, ◌<◌, ◌≡◌, ◌≢◌, Bool, true, false, Option, none, some, List, [], ◌∷◌, ◌++◌, length,
  if◌then◌else◌,
}
use js_sidecar.Prelude.Outcome.{ok, err, panicked, pending, spent}
use js_sidecar.Host.Messages.{WorkerToHostMessage}
use js_sidecar.Host.Libs.{Libs, Profile}
use js_sidecar.Host.Protocol.{read_from}

abbrev pub capacity : ℕ
capacity = 16

-- `sending` is the message for which the task awaits `send`, `queue` what is in the channel, and
-- `taken` what the connection has received. `running` is the task's; `alive` says that the connection,
-- with its receiver and the close channel, has not been dropped.
pub record Pipe (lib : Libs) : Type 0 where
  pub reader : lib.Reader
  pub sending : Option (WorkerToHostMessage lib.Value)
  pub queue : List (WorkerToHostMessage lib.Value)
  pub taken : List (WorkerToHostMessage lib.Value)
  pub running : Bool
  pub alive : Bool

-- In the task, `reads` and `closes` are the branches of `select!` and `puts` is the end of `send`. In
-- the program, a message is received, or the connection is dropped.
pub data Event : Type 0 where
  reads closes puts : Event
  receives drops : Event

module _ (lib : Libs) where
  abbrev pub new_pipe : lib.Reader → Pipe lib
  new_pipe r = record {
    reader = r;
    sending = none;
    queue = [];
    taken = [];
    running = true;
    alive = true;
  }

  -- A read that never ends is no event.
  unfoldable pub on_read : Profile → Pipe lib → Pipe lib
  on_read p s =
      let (message, r) = read_from lib p s.reader in
      elim message [
        | ok m ↦ record s { reader = r; sending = some m }
        | err e ↦ record s { reader = r; running = false }
        | panicked ↦ record s { reader = r; running = false }
        | pending ↦ s
        | spent ↦ s
      ]

  -- `if sender.send(message).await.is_err() { break; }`, which fails once the receiver is dropped.
  unfoldable pub on_put : Pipe lib → Pipe lib
  on_put s = elim s.sending [
    | none ↦ s
    | some m ↦
        if s.alive
        then record s { sending = none; queue = s.queue ++ m ∷ [] }
        else record s { sending = none; running = false }
  ]

  -- `recv`, where a message is in the channel.
  unfoldable pub on_receive : Pipe lib → Pipe lib
  on_receive s = elim s.queue [
    | [] ↦ s
    | m ∷ ms ↦ record s { queue = ms; taken = s.taken ++ m ∷ [] }
  ]

  unfoldable pub handle : Profile → Event → Pipe lib → Pipe lib
  handle p reads s = on_read p s
  handle p closes s = record s { running = false }
  handle p puts s = on_put s
  handle p receives s = on_receive s
  handle p drops s = record s { alive = false; queue = [] }

  -- While it awaits `send`, the task does not poll the branches of `select!`; and `send` ends only
  -- where there is room, or the receiver is gone.
  abbrev pub Possible : Event → Pipe lib → Type 0
  Possible reads s = (s.running ≡ true) × (s.sending ≡ none)
  Possible closes s = (s.running ≡ true) × (s.sending ≡ none) × (s.alive ≡ false)
  Possible puts s =
      (s.running ≡ true) × (s.sending ≢ none) × (s.alive ≡ true → length s.queue < capacity)
  Possible receives s = (s.alive ≡ true) × (s.queue ≢ [])
  Possible drops s = s.alive ≡ true

  pub data Reachable (p : Profile) (r : lib.Reader) : Pipe lib → Type 0 where
    started : Reachable p r (new_pipe r)
    handled :
        {s : Pipe lib} (e : Event) → Reachable p r s → Possible e s → Reachable p r (handle p e s)
