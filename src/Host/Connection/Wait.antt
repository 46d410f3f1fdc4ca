-- ===== src/Host/Connection/Wait.antt =====
-- `run_script_and_wait` of src/connection.rs: what it makes of the messages that arrive.
use js_sidecar.Prelude.{
  ℕ, zero, suc, ◌-◌, ◌<◌, ◌≡◌, refl, sym, ap, ◌∙◌, Bool, List, [], ◌∷◌, ◌++◌, append-nil,
  append_assoc, map, length, All, arith, Bool-cases, if◌then◌else◌, inl, inr,
}
use js_sidecar.Prelude.Outcome.{Outcome, ok, err, pending}
use js_sidecar.Host.Messages.{
  RunScriptArgs, WorkerToHostMessageData, run_response, log, error, pong, WorkerToHostMessage,
}
use js_sidecar.Host.Libs.{Libs, Profile, Delivers}
use js_sidecar.Host.Error.{Error, script, script_ended_early}
use js_sidecar.Host.Connection.{
  Connection, RunScriptAndWaitResult, run_script, wait_loop, run_script_and_wait,
}

-- A message that ends no run.
abbrev pub IsBetween : {V : Type 0} → WorkerToHostMessage V → Type 0
IsBetween m = elim m.content [
  | run_response r ↦ ⊥
  | error e ↦ ⊥
  | log d ↦ Unit {0}
  | pong ↦ Unit {0}
]

-- A message that ends a run: the other two kinds.
abbrev pub IsFinal : {V : Type 0} → WorkerToHostMessage V → Type 0
IsFinal m = elim m.content [ run_response r ↦ Unit {0} | error e ↦ Unit {0} | log d ↦ ⊥ | pong ↦ ⊥ ]

-- What the caller is given for a final message, behind the messages `seen`.
abbrev pub verdict :
    (lib : Libs)
    → List (WorkerToHostMessageData lib.Value)
    → WorkerToHostMessageData lib.Value
    → Outcome (Error lib) (RunScriptAndWaitResult lib.Value)
verdict lib seen (run_response r) = ok (record { response = r; messages = seen })
verdict lib seen (error e) = err (script (record { error = e; messages = seen }))
verdict lib seen _ = pending

abbrev pub contents : {V : Type 0} → List (WorkerToHostMessage V) → List (WorkerToHostMessageData V)
contents = map (λ m. m.content)

-- Only the receiver moves.
wait_loop_conn :
    (lib : Libs) (fuel : ℕ) (seen : List (WorkerToHostMessageData lib.Value)) (c : Connection lib)
    → (wait_loop lib fuel seen c).1 ≡ record c { receiver = (wait_loop lib fuel seen c).1.receiver }
unfolding wait_loop
wait_loop_conn lib zero seen c = refl
wait_loop_conn lib (suc fuel) seen c = grind (arith, wait_loop_conn lib fuel)

-- A run whose script was written moves the connection as `run_script` does, and the receiver.
pub run_script_and_wait_conn :
    (lib : Libs) (fuel : ℕ) (p : Profile) (args : RunScriptArgs lib.Value) (c : Connection lib)
    → (run_script lib p args c).0 ≡ ok tt
    → (run_script_and_wait lib fuel p args c).1 ≡ record (run_script lib p args c).1 {
      receiver = (run_script_and_wait lib fuel p args c).1.receiver;
    }
unfolding run_script_and_wait
run_script_and_wait_conn lib fuel p args c started =
    rw started (wait_loop_conn lib fuel [] (run_script lib p args c).1)

module _ (lib : Libs) (queued : lib.Receiver → List (WorkerToHostMessage lib.Value))
    (closed : lib.Receiver → Bool) (delivers : Delivers lib queued closed) where
  -- The connection after one more message was received.
  abbrev received : Connection lib → Connection lib
  received c = record c { receiver = (lib.recv c.receiver).1 }

  module _ (fuel : ℕ) (seen : List (WorkerToHostMessageData lib.Value)) (c : Connection lib) where
    loop_final :
        (m : WorkerToHostMessage lib.Value) (ms : List (WorkerToHostMessage lib.Value))
        → queued c.receiver ≡ m ∷ ms
        → IsFinal m
        → wait_loop lib (suc fuel) seen c ≡ (verdict lib seen m.content, received c)
    unfolding wait_loop
    loop_final m ms q f = ground (arith, (delivers.next c.receiver m ms q).0)

    loop_between :
        (m : WorkerToHostMessage lib.Value) (ms : List (WorkerToHostMessage lib.Value))
        → queued c.receiver ≡ m ∷ ms
        → IsBetween m
        → wait_loop lib (suc fuel) seen c ≡ wait_loop lib fuel (seen ++ m.content ∷ []) (received c)
    unfolding wait_loop
    loop_between m ms q b = ground (arith, (delivers.next c.receiver m ms q).0)

    loop_empty :
        queued c.receiver ≡ []
        → (wait_loop lib (suc fuel) seen c).0
          ≡ (if closed c.receiver then err script_ended_early else pending)
    unfolding wait_loop
    loop_empty q = elim (Bool-cases (closed c.receiver)) [
      | inl e ↦ rw (e, delivers.end c.receiver q e, wait_loop)
      | inr e ↦ rw (e, delivers.open_end c.receiver q e, wait_loop)
    ]

  -- `fuel` and a round for each message.
  abbrev rounds : List (WorkerToHostMessage lib.Value) → ℕ → ℕ
  rounds [] fuel = fuel
  rounds (m ∷ ms) fuel = suc (rounds ms fuel)

  rounds_lem :
      (ms : List (WorkerToHostMessage lib.Value)) (fuel : ℕ)
      → length ms < fuel
      → fuel ≡ rounds ms (suc (fuel - suc (length ms)))
  rounds_lem [] fuel h = omega arith
  rounds_lem (m ∷ ms) zero h = absurd (omega arith)
  rounds_lem (m ∷ ms) (suc fuel) h =
      ap suc (rounds_lem ms fuel (omega arith))
      ∙ ap (λ k. suc (rounds ms (suc k))) {x = fuel - suc (length ms)}
          {y = suc fuel - suc (suc (length ms))} (omega arith)

  -- Logs and pongs are collected, and only the receiver moves.
  record Skipped (rest : List (WorkerToHostMessage lib.Value))
      (seen : List (WorkerToHostMessageData lib.Value)) (fuel all_fuel : ℕ)
      (before : List (WorkerToHostMessageData lib.Value)) (c : Connection lib) : Type 0 where
    after_them : Connection lib
    goes_on : wait_loop lib all_fuel before c ≡ wait_loop lib fuel seen after_them
    still_queued : queued after_them.receiver ≡ rest
    same_end : closed after_them.receiver ≡ closed c.receiver

  skip :
      (ms rest : List (WorkerToHostMessage lib.Value)) (fuel : ℕ)
      (seen : List (WorkerToHostMessageData lib.Value)) (c : Connection lib)
      → queued c.receiver ≡ ms ++ rest
      → All IsBetween ms
      → Skipped rest (seen ++ contents ms) fuel (rounds ms fuel) seen c
  skip [] rest fuel seen c q b = record {
    after_them = c;
    goes_on = ap (λ s. wait_loop lib fuel s c) (sym (append-nil seen));
    still_queued = q;
    same_end = refl;
  }
  skip (m ∷ ms) rest fuel seen c q b =
      let rec : Skipped rest ((seen ++ m.content ∷ []) ++ contents ms) fuel (rounds ms fuel)
          (seen ++ m.content ∷ []) (received c) =
        skip ms rest fuel (seen ++ m.content ∷ []) (received c) (delivers.next c.receiver m _ q).1
          b.1 in
      record {
        after_them = rec.after_them;
        goes_on =
            loop_between (rounds ms fuel) seen c m (ms ++ rest) q b.0
            ∙ rec.goes_on
            ∙ ap (λ s. wait_loop lib fuel s rec.after_them)
                (append_assoc seen (m.content ∷ []) (contents ms));
        still_queued = rec.still_queued;
        same_end = rec.same_end ∙ (delivers.next c.receiver m _ q).2;
      }

  module _ (p : Profile) (args : RunScriptArgs lib.Value) (c : Connection lib)
      (started : (run_script lib p args c).0 ≡ ok tt)
      (before : List (WorkerToHostMessage lib.Value)) (between : All IsBetween before) (fuel : ℕ)
      (enough : length before < fuel) where
    run_is_loop :
        run_script_and_wait lib fuel p args c
        ≡ wait_loop lib
            (rounds before (suc (fuel - suc (length before))))
            []
            (run_script lib p args c).1
    unfolding run_script_and_wait
    run_is_loop =
        rw started
          (ap (λ n. wait_loop lib n [] (run_script lib p args c).1) (rounds_lem before fuel enough))

    -- The first run response or error that arrives ends the run, whichever request it answers. The
    -- logs and pongs before it are returned with it, in order, and what is behind it stays queued.
    pub run_script_and_wait_final :
        (m : WorkerToHostMessage lib.Value) (later : List (WorkerToHostMessage lib.Value))
        → IsFinal m
        → queued (run_script lib p args c).1.receiver ≡ before ++ m ∷ later
        → ((run_script_and_wait lib fuel p args c).0 ≡ verdict lib (contents before) m.content)
          × (queued (run_script_and_wait lib fuel p args c).1.receiver ≡ later)
    run_script_and_wait_final m later f q =
        let rest = fuel - suc (length before) in
        let s = skip before (m ∷ later) (suc rest) [] (run_script lib p args c).1 q between in
        rw (run_is_loop, s.goes_on, loop_final rest _ s.after_them m later s.still_queued f)
          (refl, (delivers.next s.after_them.receiver m later s.still_queued).1)

    -- If neither arrives, the run ends early where the channel is closed, and waits for ever where it
    -- stays open.
    pub run_script_and_wait_unanswered :
        queued (run_script lib p args c).1.receiver ≡ before
        → (run_script_and_wait lib fuel p args c).0 ≡ (
            if closed (run_script lib p args c).1.receiver then err script_ended_early else pending)
    run_script_and_wait_unanswered q =
        let rest = fuel - suc (length before) in
        let s =
          skip before [] (suc rest) [] (run_script lib p args c).1 (q ∙ sym (append-nil before))
            between in
        rw (run_is_loop, s.goes_on, loop_empty rest _ s.after_them s.still_queued, s.same_end) refl
