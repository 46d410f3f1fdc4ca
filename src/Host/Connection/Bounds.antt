-- ===== src/Host/Connection/Bounds.antt =====
-- The counters of a `Connection` of src/connection.rs, under every operation and in both builds.
use js_sidecar.Prelude.{ℕ, zero, suc, ◌<◌, ◌^◌, ◌≡◌, refl, Bool, List, [], ◌∷◌, ◌++◌, arith}
use js_sidecar.Prelude.Outcome.{Call, pure, ◌>>=◌}
use js_sidecar.Prelude.Moves.{Moves, bind-Moves}
use js_sidecar.Host.Messages.{
  RunScriptArgs, HostToWorkerMessage, WorkerToHostMessage, WorkerToHostMessageData,
}
use js_sidecar.Host.Libs.{Libs, Profile, debug, release}
use js_sidecar.Host.Error.{Error}
use js_sidecar.Host.Connection.{
  Connection, Managed, increment, take_ids, send, apply_recreate, run_script, ping, receive_message,
  wait_loop, run_script_and_wait, on_conn, receive_in_time, count_call, mark_recycled, check_reply,
  recycle,
}

-- What a user of a connection, or the pool, can do with it.
pub data Operation (lib : Libs) : Type 0 where
  runs : RunScriptArgs lib.Value → Operation lib
  runs_and_waits : ℕ → RunScriptArgs lib.Value → Operation lib
  pings receives : Operation lib
  recycles : Bool → Operation lib

module _ (lib : Libs) (p : Profile) where
  -- What an operation leaves, whatever its outcome is.
  unfoldable pub operate : Operation lib → Managed lib → Managed lib
  operate (runs args) m = (on_conn lib (run_script lib p args) m).1
  operate (runs_and_waits fuel args) m = (on_conn lib (run_script_and_wait lib fuel p args) m).1
  operate pings m = (on_conn lib (ping lib p) m).1
  operate receives m = record m { conn = (receive_message lib m.conn).1 }
  operate (recycles elapsed) m = (recycle lib p elapsed m).1

  unfoldable pub operate_all : List (Operation lib) → Managed lib → Managed lib
  operate_all [] m = m
  operate_all (o ∷ os) m = operate_all os (operate o m)

module _ (lib : Libs) where
  -- The two counters are the same u32.
  abbrev pub InRange : Connection lib → Type 0
  InRange c = (c.next_id ≡ c.next_req_id) × (c.next_id < 2 ^ 32)

  abbrev KeepsTo : Connection lib → Connection lib → Type 0
  KeepsTo c c' = InRange c → InRange c'

  abbrev Keeps : {A : Type 0} → Call (Connection lib) (Error lib) A → Type 0
  Keeps = Moves KeepsTo

  bind-Keeps :
      {A B : Type 0} {c : Call (Connection lib) (Error lib) A}
      {f : A → Call (Connection lib) (Error lib) B}
      → Keeps c
      → ((a : A) → Keeps (f a))
      → Keeps (c >>= f)
  bind-Keeps = bind-Moves KeepsTo (λ a b c f g h. g (f h))

  -- A call that leaves the counters alone.
  SameIds : {A : Type 0} → Call (Connection lib) (Error lib) A → Type 0
  SameIds call =
      (c : Connection lib)
      → ((call c).1.next_id ≡ c.next_id) × ((call c).1.next_req_id ≡ c.next_req_id)

  same_ids : {A : Type 0} (call : Call (Connection lib) (Error lib) A) → SameIds call → Keeps call
  unfolding SameIds
  same_ids call e = record { moves = λ c v. omega (arith, e c, v) }

  take_ids-Keeps : (p : Profile) → Keeps (take_ids lib p)
  unfolding take_ids increment
  take_ids-Keeps debug = record { moves = λ c v. ground arith }
  take_ids-Keeps release = record { moves = λ c v. ground arith }

  apply_recreate-Keeps : (args : RunScriptArgs lib.Value) → Keeps (apply_recreate lib args)
  unfolding apply_recreate SameIds
  apply_recreate-Keeps args = same_ids (apply_recreate lib args) (λ c. ground arith)

  send-Keeps : (m : HostToWorkerMessage lib.Value) → Keeps (send lib m)
  unfolding send SameIds
  send-Keeps m = same_ids (send lib m) (λ c. (refl, refl))

  pure-Keeps : {A : Type 0} (a : A) → Keeps (pure a)
  pure-Keeps a = record { moves = λ c v. v }

  run_script-Keeps : (p : Profile) (args : RunScriptArgs lib.Value) → Keeps (run_script lib p args)
  unfolding run_script
  run_script-Keeps p args =
      bind-Keeps (apply_recreate-Keeps args)
        (λ args'. bind-Keeps (take_ids-Keeps p) (λ ids. send-Keeps _))

  ping-Keeps : (p : Profile) → Keeps (ping lib p)
  unfolding ping
  ping-Keeps p =
      bind-Keeps (take_ids-Keeps p) (λ ids. bind-Keeps (send-Keeps _) (λ x. pure-Keeps ids.0))

  wait_loop-SameIds :
      (fuel : ℕ) (seen : List (WorkerToHostMessageData lib.Value))
      → SameIds (wait_loop lib fuel seen)
  unfolding wait_loop receive_message SameIds
  wait_loop-SameIds zero seen c = (refl, refl)
  wait_loop-SameIds (suc fuel) seen c =
      let received : Connection lib = record c { receiver = (lib.recv c.receiver).1 } in
      grind (
        arith,
        λ (x : WorkerToHostMessageData lib.Value). wait_loop-SameIds fuel (seen ++ x ∷ []) received,
      )

  run_script_and_wait-Keeps :
      (fuel : ℕ) (p : Profile) (args : RunScriptArgs lib.Value)
      → Keeps (run_script_and_wait lib fuel p args)
  unfolding run_script_and_wait
  run_script_and_wait-Keeps fuel p args =
      bind-Keeps (run_script-Keeps p args) (λ x. same_ids _ (wait_loop-SameIds fuel []))

  receive_in_time-Keeps : (elapsed : Bool) → Keeps (receive_in_time lib elapsed)
  unfolding receive_in_time receive_message SameIds
  receive_in_time-Keeps elapsed = same_ids (receive_in_time lib elapsed) (λ c. ground arith)

  -- The same for a connection with the counters of its manager.
  abbrev ManagedTo : Managed lib → Managed lib → Type 0
  ManagedTo m m' = InRange m.conn → InRange m'.conn

  abbrev KeepsManaged : {A : Type 0} → Call (Managed lib) (Error lib) A → Type 0
  KeepsManaged = Moves ManagedTo

  bind-KeepsManaged :
      {A B : Type 0} {c : Call (Managed lib) (Error lib) A}
      {f : A → Call (Managed lib) (Error lib) B}
      → KeepsManaged c
      → ((a : A) → KeepsManaged (f a))
      → KeepsManaged (c >>= f)
  bind-KeepsManaged = bind-Moves ManagedTo (λ a b c f g h. g (f h))

  on_conn-Keeps :
      {A : Type 0} (call : Call (Connection lib) (Error lib) A)
      → Keeps call
      → KeepsManaged (on_conn lib call)
  on_conn-Keeps call k = record { moves = λ m v. k.moves m.conn v }

  check_reply-Keeps :
      (req_id : ℕ) (msg : WorkerToHostMessage lib.Value) → KeepsManaged (check_reply lib req_id msg)
  unfolding check_reply
  check_reply-Keeps req_id msg = record { moves = λ m v. ground arith }

  count_call-Keeps : KeepsManaged (count_call lib)
  unfolding count_call
  count_call-Keeps = record { moves = λ m v. v }

  mark_recycled-Keeps : KeepsManaged (mark_recycled lib)
  unfolding mark_recycled
  mark_recycled-Keeps = record { moves = λ m v. v }

  recycle-Keeps : (p : Profile) (elapsed : Bool) → KeepsManaged (recycle lib p elapsed)
  unfolding recycle
  recycle-Keeps p elapsed = bind-KeepsManaged count_call-Keeps (λ x.
      bind-KeepsManaged (on_conn-Keeps _ (ping-Keeps p)) (λ req_id.
        bind-KeepsManaged (on_conn-Keeps _ (receive_in_time-Keeps elapsed))
          (λ msg. bind-KeepsManaged (check_reply-Keeps req_id msg) (λ y. mark_recycled-Keeps))))

  operate-Keeps :
      (p : Profile) (o : Operation lib) (m : Managed lib)
      → InRange m.conn
      → InRange (operate lib p o m).conn
  unfolding operate
  operate-Keeps p (runs args) m v = (run_script-Keeps p args).moves m.conn v
  operate-Keeps p (runs_and_waits fuel args) m v =
      (run_script_and_wait-Keeps fuel p args).moves m.conn v
  operate-Keeps p pings m v = (ping-Keeps p).moves m.conn v
  operate-Keeps p receives m v = unfold receive_message in v
  operate-Keeps p (recycles elapsed) m v = (recycle-Keeps p elapsed).moves m v

  pub operate_all-InRange :
      (p : Profile) (os : List (Operation lib)) (m : Managed lib)
      → InRange m.conn
      → InRange (operate_all lib p os m).conn
  unfolding operate_all
  operate_all-InRange p [] m v = v
  operate_all-InRange p (o ∷ os) m v =
      operate_all-InRange p os (operate lib p o m) (operate-Keeps p o m v)
