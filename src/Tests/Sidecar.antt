-- ===== src/Tests/Sidecar.antt =====
-- Starting and stopping a `JsSidecar` of src/connection.rs, on a small system.
use js_sidecar.Prelude.{
  ℕ, zero, suc, ◌<◌, ◌^◌, ◌≡◌, refl, Bool, true, false, Option, none, some, List, [], ◌∷◌, arith,
  String, ltb, ◌&&◌, if◌then◌else◌,
}
use js_sidecar.Prelude.Outcome.{Outcome, ok, err}
use js_sidecar.Text.{text, decimal, decimal_on}
use js_sidecar.Host.Os.{Os, Processes}
use js_sidecar.Host.Error.{start_worker}
use js_sidecar.Host.Libs.{debug}
use js_sidecar.Host.Connection.{Managed}
use js_sidecar.Host.Connection.Bounds.{
  runs as runs_script, pings, recycles, runs_and_waits, receives, operate_all,
}
use js_sidecar.Host.Create.{Created, new, create, create_in_range}
use js_sidecar.Tests.Conn.{plain, unserializable}
use js_sidecar.Host.Sidecar.{
  Program, JsSidecar, socket_name, arguments, next_socket, launch, keep_or_drop, new_sidecar, close,
}
use js_sidecar.Host.Sidecar.Paths.{next_socket-injective}
use js_sidecar.Host.Sidecar.Start.{missed_all, Refused, new_sidecar_up, new_sidecar_timeout}
use js_sidecar.Host.Sidecar.Stop.{Ended, close_stops}
use js_sidecar.Tests.Toy.{toy}

-- The sleeps until the socket is there; whether the process runs, was killed, and has got SIGTERM; and
-- whether the script file is there.
record System : Type 0 where
  naps : ℕ
  alive : Bool
  forced : Bool
  signalled : Bool
  script : Bool

abbrev running : ℕ → System
running naps = record {
  naps = naps;
  alive = true;
  forced = false;
  signalled = false;
  script = true;
}

abbrev try_connect_at : ℕ → Outcome String (Unit {0})
try_connect_at zero = ok tt
try_connect_at (suc n) = err "refused"

abbrev fewer : ℕ → ℕ
fewer zero = zero
fewer (suc n) = n

-- The process exits in nine seconds.
abbrev machine : Os toy
machine = record {
  System = System;
  TempFile = Unit {0};
  tempfile = λ prefix suffix s. (ok tt, record s { script = true });
  path = λ file. text "/tmp/js_sidecar1.mjs";
  write = λ path bytes s. (ok tt, s);
  drop_file = λ file s. record s { script = false };
  Child = Unit {0};
  spawn = λ program args s. (ok tt, record s { alive = true });
  Stream = Unit {0};
  connect = λ path s. (try_connect_at s.naps, s);
  into_split = λ stream. ([], []);
  channel = λ size. ([], false);
  sleep = λ ms s. record s { naps = fewer s.naps };
  Pool = ℕ;
  Object = Unit {0};
  build_pool = λ path size. ok size;
  get = λ pool s. (ok tt, s);
  close_pool = λ pool s. s;
  id = λ child s. if s.alive then some 7 else none;
  sigterm = λ pid s. record s { signalled = true };
  wait = λ seconds child s.
      if s.signalled && ltb 9 seconds then (some (ok 0), record s { alive = false }) else (none, s);
  kill = λ child s. record s { alive = false; forced = true };
}

abbrev due_in : System → Option ℕ
due_in s = if s.signalled then some 9 else none

abbrev machine-Processes : Processes machine
machine-Processes = record {
  alive = λ child s. s.alive;
  forced = λ child s. s.forced;
  lost = λ child s. false;
  exits_in = λ child s. some 9;
  due = λ child s. due_in s;
  no_id = λ child s h. ground (arith, h);
  signalled = λ pid child s h. (refl, refl, refl);
  in_time = λ seconds k child s here due in_time.
      (0, ground (arith, due, in_time), ground (arith, due, in_time), ground (arith, due, in_time));
  too_late = λ seconds k child s here due late. ground (arith, due, late);
  goes_on = λ seconds child s here due. ground (arith, due);
  killed = λ child s. (refl, refl);
}

abbrev program : ℕ → Program machine
program naps = record {
  pid = 310;
  temp_dir = text "/tmp";
  counter = 0;
  bundle = text "export {}";
  system = record (running naps) { alive = false };
}

abbrev socket : List ℕ
socket = text "/tmp/js_sidecar.310.0.sock"

named_socket : (next_socket machine (program 0)).0 ≡ ok socket
unfolding next_socket socket_name decimal decimal_on
named_socket = refl

abbrev launched_program : ℕ → Program machine
launched_program naps = record (program naps) { counter = 1; system = running naps }

launched :
    (naps : ℕ)
    → launch machine (some 2) (program naps) ≡ (ok (socket, tt, tt), launched_program naps)
unfolding launch next_socket socket_name decimal decimal_on arguments keep_or_drop
launched naps = refl

next_socket-injective_example :
    ((program 3).pid ≡ (program 5).pid) × ((program 3).counter ≡ (program 5).counter)
unfolding next_socket
next_socket-injective_example =
    next_socket-injective machine (program 3) (program 5) 0 0 refl refl refl (omega arith)
      (omega arith) refl

abbrev sidecar : JsSidecar machine
sidecar = record {
  node_process = some tt;
  socket_path = socket;
  script_file = tt;
  connections = 1024;
}

new_sidecar_up_example : new_sidecar machine (some 2) (program 2) ≡ (
  ok sidecar,
  record (launched_program 2) {
    system = (machine.connect socket (missed_all machine socket 2 (running 2))).1;
  },
)
new_sidecar_up_example =
    new_sidecar_up machine socket (some 2) (program 2) (launched_program 2) tt tt (launched 2) 2 tt
      1024 (omega arith) (("refused", refl), (("refused", refl), tt)) refl refl

refused : (n k : ℕ) → n < k → Refused machine socket n (running k)
refused zero k h = tt
refused (suc n) zero h = elim h [ ]
refused (suc n) (suc k) h = (("refused", refl), refused n k (omega arith))

new_sidecar_timeout_example : new_sidecar machine (some 2) (program 60) ≡ (
  err (start_worker "Timed out waiting for socket to be ready"),
  record (launched_program 60) {
    system = machine.drop_file tt (missed_all machine socket 50 (running 60));
  },
)
new_sidecar_timeout_example =
    new_sidecar_timeout machine socket (some 2) (program 60) (launched_program 60) tt tt
      (launched 60) (refused 50 60 (omega arith))

close_stops_example :
    Ended machine machine-Processes tt (running 0) (close machine sidecar (running 0)).1
    × ((close machine sidecar (running 0)).0.node_process ≡ none)
close_stops_example = close_stops machine machine-Processes sidecar tt (running 0) refl refl

abbrev fresh_connection : Created toy
fresh_connection = record {
  conn = record {
    stream = [];
    receiver = ([], false);
    next_id = 0;
    next_req_id = 0;
    recreate_context_on_next = false;
  };
  read_stream = [];
}

created : (create machine socket (running 0)).0 ≡ ok fresh_connection
unfolding create new
created = refl

create_in_range_example :
    let m : Managed toy = record {
      recycle_calls = 0;
      recycle_success = 0;
      conn = fresh_connection.conn;
    } in
    let after_all =
      (operate_all toy debug
        (runs_script plain
          ∷ pings
          ∷ recycles true
          ∷ runs_and_waits 4 unserializable
          ∷ receives
          ∷ [])
        m).conn in
    (after_all.next_id ≡ after_all.next_req_id) × (after_all.next_id < 2 ^ 32)
create_in_range_example =
    create_in_range machine socket (running 0) fresh_connection debug
      (runs_script plain ∷ pings ∷ recycles true ∷ runs_and_waits 4 unserializable ∷ receives ∷ [])
      0 0 created
