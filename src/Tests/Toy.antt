-- ===== src/Tests/Toy.antt =====
-- A small stand-in for the crates that the host calls, which meets all that is assumed of them.
use js_sidecar.Prelude.{
  ℕ, ◌≤◌, ◌≡◌, refl, ap, Bool, true, false, Option, none, some, List, [], ◌∷◌, ◌++◌, String, length,
  take, drop, ltb, if◌then◌else◌, lt→ltb, le→ltb_false,
}
use js_sidecar.Prelude.Outcome.{ok, err, Call}
use js_sidecar.Bytes.{to_le_bytes}
use js_sidecar.Host.Messages.{WorkerToHostMessage}
use js_sidecar.Host.Libs.{
  Libs, Polled, ready, waiting, WritesWords, WritesAll, ReadsExactly, Delivers,
}

abbrev Inbox : Type 0
Inbox = List (WorkerToHostMessage ℕ) × Bool

abbrev toy_read : ℕ → Call (List ℕ) String (List ℕ)
toy_read n bytes =
    if ltb (length bytes) n then (err "eof", bytes) else (ok (take n bytes), drop n bytes)

abbrev toy_recv : Inbox → Polled (Option (WorkerToHostMessage ℕ)) × Inbox
toy_recv ([], true) = (ready none, ([], true))
toy_recv ([], false) = (waiting, ([], false))
toy_recv (m ∷ ms, b) = (ready (some m), (ms, b))

abbrev pub toy : Libs
toy = record {
  Value = ℕ;
  JsonError = String;
  to_vec = λ args.
      if args.expr
      then err "not serializable"
      else ok ((if args.recreate_context then 1 else 0) ∷ []);
  run_response_from_slice = λ bytes. ok (record { globals = []; return_value = none });
  log_from_slice = λ bytes. ok (record { level = "info"; message = length bytes });
  error_from_slice = λ bytes. ok (record { message = "failed"; stack = none });
  IoError = String;
  other = λ text. text;
  write_u32_le = λ n bytes. (ok tt, bytes ++ to_le_bytes n);
  Writer = List ℕ;
  write_all = λ bytes w. (ok tt, w ++ bytes);
  Reader = List ℕ;
  read_exact = toy_read;
  Receiver = Inbox;
  recv = toy_recv;
  PoolError = String;
  BuildError = String;
}

pub toy_words : WritesWords toy
toy_words = record { appends = λ n bytes h. refl }

pub toy_writes : WritesAll toy (λ w. w)
toy_writes = record { writes = λ bytes w h. refl }

toy_filled : (n : ℕ) (r : List ℕ) → n ≤ length r → toy_read n r ≡ (ok (take n r), drop n r)
toy_filled n r h = rw (le→ltb_false (length r) n h)

pub toy_reads : ReadsExactly toy (λ r. r)
toy_reads = record {
  filled = λ n r h. ap (λ o. o.0) (toy_filled n r h);
  moved = λ n r h. ap (λ o. o.1) (toy_filled n r h);
  at_end = λ n r h. ("eof", rw (lt→ltb (length r) n h));
}

abbrev pub toy_queued : Inbox → List (WorkerToHostMessage ℕ)
toy_queued r = r.0

abbrev pub toy_closed : Inbox → Bool
toy_closed r = r.1

toy_next :
    (r : Inbox) (m : WorkerToHostMessage ℕ) (ms : List (WorkerToHostMessage ℕ))
    → toy_queued r ≡ m ∷ ms
    → ((toy_recv r).0 ≡ ready (some m)) × ((toy_recv r).1.0 ≡ ms) × ((toy_recv r).1.1 ≡ r.1)
toy_next ([], b) m ms q = cc
toy_next (x ∷ xs, b) m ms q = (cc, cc, refl)

toy_end : (r : Inbox) → r.0 ≡ [] → r.1 ≡ true → (toy_recv r).0 ≡ ready none
toy_end ([], true) q e = refl
toy_end ([], false) q e = cc
toy_end (x ∷ xs, b) q e = cc

toy_open : (r : Inbox) → r.0 ≡ [] → r.1 ≡ false → (toy_recv r).0 ≡ waiting
toy_open ([], true) q e = cc
toy_open ([], false) q e = refl
toy_open (x ∷ xs, b) q e = cc

pub toy-Delivers : Delivers toy toy_queued toy_closed
toy-Delivers = record { next = toy_next; end = toy_end; open_end = toy_open }
