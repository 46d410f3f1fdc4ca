-- ===== src/Host/Sidecar/Start.antt =====
-- `JsSidecar::new` of src/connection.rs: waiting for the socket of the process that was started.
use js_sidecar.Prelude.{
  ℕ, zero, suc, ◌+◌, ◌<◌, ◌≡◌, ap, Option, some, List, arith, lt→ltb, le→ltb_false,
}
use js_sidecar.Prelude.Outcome.{ok, err}
use js_sidecar.Host.Libs.{Libs}
use js_sidecar.Host.Os.{Os}
use js_sidecar.Host.Error.{start_worker}
use js_sidecar.Host.Sidecar.{Program, launch, check_socket, give_up, keep_or_drop, new_sidecar}

module _ {lib : Libs} (os : Os lib) (socket_path : List ℕ) where
  -- A check that fails, and the sleep behind it.
  abbrev pub missed : os.System → os.System
  missed s = os.sleep 10 (os.connect socket_path s).1

  -- The system after `n` of them.
  abbrev pub missed_all : ℕ → os.System → os.System
  missed_all zero s = s
  missed_all (suc n) s = missed_all n (missed s)

  -- The first `n` checks fail.
  abbrev pub Refused : ℕ → os.System → Type 0
  Refused zero s = Unit
  Refused (suc n) s =
      ((e : lib.IoError) × ((os.connect socket_path s).0 ≡ err e)) × Refused n (missed s)

  check_up :
      (n fuel checks all : ℕ) (s : os.System) (x : os.Stream)
      → all ≡ n + checks
      → all < 50
      → n < fuel
      → Refused n s
      → (os.connect socket_path (missed_all n s)).0 ≡ ok x
      → check_socket os fuel socket_path checks s
        ≡ (ok all, (os.connect socket_path (missed_all n s)).1)
  unfolding check_socket
  check_up zero zero checks all s x k h f r e = elim f [ ]
  check_up zero (suc fuel) checks all s x k h f r e =
      rw (lt→ltb checks 50 (omega arith), e)
        (ap (λ c. (ok c, (os.connect socket_path s).1)) (omega arith))
  check_up (suc n) zero checks all s x k h f r e = elim f [ ]
  check_up (suc n) (suc fuel) checks all s x k h f r e =
      rw (lt→ltb checks 50 (omega arith), r.0.1)
        (check_up n fuel (checks + 1) all (missed s) x (omega arith) h (omega arith) r.1 e)

  check_down :
      (n fuel checks : ℕ) (s : os.System)
      → n + checks ≡ 50
      → n < fuel
      → Refused n s
      → check_socket os fuel socket_path checks s ≡ (ok 50, missed_all n s)
  unfolding check_socket
  check_down zero zero checks s k f r = elim f [ ]
  check_down zero (suc fuel) checks s k f r =
      rw (le→ltb_false checks 50 (omega arith)) (ap (λ c. (ok c, s)) (omega arith))
  check_down (suc n) zero checks s k f r = elim f [ ]
  check_down (suc n) (suc fuel) checks s k f r =
      rw (lt→ltb checks 50 (omega arith), r.0.1)
        (check_down n fuel (checks + 1) (missed s) (omega arith) (omega arith) r.1)

  module _ (workers : Option ℕ) (m m' : Program os) (script_file : os.TempFile) (child : os.Child)
      (launched : launch os workers m ≡ (ok (socket_path, script_file, child), m')) where
    -- If one of the first 50 checks of the socket succeeds, `new` returns the sidecar, which holds the
    -- process, as soon as that check is done.
    pub new_sidecar_up :
        (n : ℕ) (x : os.Stream) (connections : os.Pool)
        → n < 50
        → Refused n m'.system
        → (os.connect socket_path (missed_all n m'.system)).0 ≡ ok x
        → os.build_pool socket_path 1024 ≡ ok connections
        → new_sidecar os workers m ≡ (
          ok (record {
            node_process = some child;
            socket_path = socket_path;
            script_file = script_file;
            connections = connections;
          }),
          record m' { system = (os.connect socket_path (missed_all n m'.system)).1 },
        )
    unfolding new_sidecar give_up keep_or_drop
    new_sidecar_up n x connections h r e built =
        rw (launched, check_up n 51 0 n m'.system x (omega arith) h (omega arith) r e, built)
          (ground (arith, built))

    -- If they all fail, `new` returns an error, and the process that it started is left as it is: after
    -- the launch there were the checks and the sleeps, then the script file was deleted, and nothing else.
    pub new_sidecar_timeout :
        Refused 50 m'.system
        → new_sidecar os workers m ≡ (
          err (start_worker (lib.other "Timed out waiting for socket to be ready")),
          record m' { system = os.drop_file script_file (missed_all 50 m'.system) },
        )
    unfolding new_sidecar give_up keep_or_drop
    new_sidecar_timeout r =
        rw (launched, check_down 50 51 0 m'.system (omega arith) (omega arith) r)
