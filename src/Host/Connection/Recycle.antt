-- ===== src/Host/Connection/Recycle.antt =====
-- `ConnectionManager::recycle` of src/connection.rs: when a connection may be handed out again.
use js_sidecar.Prelude.{
  ℕ, ◌+◌, ◌<◌, ◌^◌, ◌%◌, ◌≡◌, refl, Bool, true, false, ◌||◌, Option, none, some, List, length,
  arith, if◌then◌else◌,
}
use js_sidecar.Prelude.Outcome.{Outcome, ok, map_err}
use js_sidecar.Frame.{encode}
use js_sidecar.Host.Messages.{
  RunScriptArgs, WorkerToHostMessageData, run_response, log, error, pong, WorkerToHostMessage,
}
use js_sidecar.Host.Libs.{Libs, Profile, Polled, ready, waiting, WritesWords}
use js_sidecar.Host.Error.{Error, write_stream}
use js_sidecar.Host.Protocol.{write_to}
use js_sidecar.Host.Protocol.Write.{frame_of}
use js_sidecar.Host.Connection.{
  Managed, ping, run_script, receive_message, receive_in_time, is_pong, count_call, mark_recycled,
  check_reply, recycle, usize_mod,
}
use js_sidecar.Host.Connection.Send.{
  HasIds, ids_taken, ping_message, script_message, ping_conn, ping_id, run_script-encode,
}

-- The message that `recv` gave is the pong to request `n`.
abbrev pub IsPongTo : {V : Type 0} → ℕ → Polled (Option (WorkerToHostMessage V)) → Type 0
IsPongTo n waiting = ⊥
IsPongTo n (ready none) = ⊥
IsPongTo n (ready (some m)) = (m.request_id ≡ n) × (m.content ≡ pong)

abbrev pub succeeded : {lib : Libs} → Outcome (Error lib) (Unit {0}) → Bool
succeeded (ok x) = true
succeeded _ = false

module _ (lib : Libs) (p : Profile) (elapsed : Bool) (m : Managed lib) (v : HasIds m.conn) where
  is_pong_lem : (d : WorkerToHostMessageData lib.Value) → is_pong lib d ≡ true → d ≡ pong
  unfolding is_pong
  is_pong_lem (run_response r) h = cc
  is_pong_lem (log d) h = cc
  is_pong_lem (error e) h = cc
  is_pong_lem pong h = refl

  -- A connection is handed out again only if the next message on it was the pong to the ping that
  -- `recycle` has just sent, and it came in time. Then a new context is forced on the next script.
  pub recycle_ok :
      (recycle lib p elapsed m).0 ≡ ok tt
      → (elapsed ≡ false)
        × IsPongTo m.conn.next_req_id (lib.recv m.conn.receiver).0
        × ((recycle lib p elapsed m).1.conn.recreate_context_on_next ≡ true)
  unfolding recycle count_call mark_recycled check_reply receive_in_time receive_message
  recycle_ok h = grind (arith, ping_conn lib p m.conn v, ping_id, is_pong_lem)

  -- Every call is counted. The success is counted, and the connection marked, exactly when the call
  -- succeeds; after a failure the count and the mark are what they were.
  recycle_effects :
      ((recycle lib p elapsed m).1.recycle_calls ≡ (m.recycle_calls + 1) % usize_mod)
      × ((recycle lib p elapsed m).1.recycle_success ≡ (
          if succeeded {lib = lib} (recycle lib p elapsed m).0
          then (m.recycle_success + 1) % usize_mod
          else m.recycle_success))
      × ((recycle lib p elapsed m).1.conn.recreate_context_on_next
          ≡ (succeeded {lib = lib} (recycle lib p elapsed m).0 || m.conn.recreate_context_on_next))
  unfolding recycle count_call mark_recycled check_reply receive_in_time receive_message
  recycle_effects = ground (arith, ping_conn lib p m.conn v)

  -- If the ping was written and the pong comes in time, the connection is handed out again.
  recycle_accepts :
      (n : ℕ)
      → (ping lib p m.conn).0 ≡ ok n
      → elapsed ≡ false
      → IsPongTo m.conn.next_req_id (lib.recv m.conn.receiver).0
      → (recycle lib p elapsed m).0 ≡ ok tt
  unfolding recycle count_call mark_recycled check_reply receive_in_time receive_message is_pong
  recycle_accepts n sent in_time reply = grind (arith, ping_conn lib p m.conn v, ping_id)

  -- A successful recycling takes a pair of IDs and a message, writes the ping and marks the connection.
  pub recycle_lem :
      (elapsed ≡ false)
      → (ping lib p m.conn).0 ≡ ok m.conn.next_req_id
      → (answer : WorkerToHostMessage lib.Value)
      → (lib.recv m.conn.receiver).0 ≡ ready (some answer)
      → answer.request_id ≡ m.conn.next_req_id
      → answer.content ≡ pong
      → recycle lib p elapsed m ≡ (
        ok tt,
        record {
          recycle_calls = (m.recycle_calls + 1) % usize_mod;
          recycle_success = (m.recycle_success + 1) % usize_mod;
          conn = record {
            stream = (write_to lib (ping_message m.conn) m.conn.stream).1;
            receiver = (lib.recv m.conn.receiver).1;
            next_id = m.conn.next_id + 1;
            next_req_id = m.conn.next_req_id + 1;
            recreate_context_on_next = true;
          };
        },
      )
  unfolding recycle count_call mark_recycled check_reply receive_in_time receive_message is_pong
  recycle_lem in_time sent answer came to is = grind (arith, ping_conn lib p m.conn v)

  -- So no script runs in the context of the connection's previous user: the first script after a
  -- successful recycling is sent with `recreate_context` set, whatever its arguments say.
  pub run_script-recycle :
      (words : WritesWords lib) (args : RunScriptArgs lib.Value) (body : List ℕ)
      → (recycle lib p elapsed m).0 ≡ ok tt
      → HasIds (recycle lib p elapsed m).1.conn
      → lib.to_vec (record args { recreate_context = true }) ≡ ok body
      → length body + 12 < 2 ^ 32
      → let c = (recycle lib p elapsed m).1.conn in
        run_script lib p args c ≡ (
          let (r, w) = lib.write_all (encode (frame_of (script_message c args) body)) c.stream in
          (
            map_err write_stream r,
            record (ids_taken c) { stream = w; recreate_context_on_next = false },
          ))
  run_script-recycle words args body done left e fits =
      run_script-encode lib p words _ args body left (rw (recycle_ok done).2 e) fits
