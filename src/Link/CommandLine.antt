-- ===== src/Link/CommandLine.antt =====
-- From the command that `JsSidecar::new` of src/connection.rs spawns to the start of the primary process in
-- src/worker/src/index.ts.
use js_sidecar.Prelude.{
  ℕ, ◌<◌, ◌≡◌, ap, refl, ◌∷◌, Option, none, some, List, [], ◌∷◌, All, length, drop, arith,
}
use js_sidecar.Prelude.Outcome.{ok}
use js_sidecar.Text.{text, decimal, IsDigit, decimal-IsDigit, decimal_nonempty}
use js_sidecar.Host.Sidecar.{arguments}
use js_sidecar.Worker.Primary.{fork_all, new_primary}
use js_sidecar.Worker.Primary.Options.{
  Options, Named, find, as_arguments, given_or_default, AreKnown, ParsesOptions, IsOptionValue,
}
use js_sidecar.Worker.Primary.CommandLine.{
  options_config, rounds, fork_on, start, parse_int-decimal,
}

-- As many workers as the host asks for, or as there are CPUs.
abbrev pub worker_count : Options → Option ℕ → ℕ
worker_count options none = options.cpus
worker_count options (some n) = n

digits-IsOptionValue : (cs : List ℕ) → All IsDigit cs → 0 < length cs → IsOptionValue cs
digits-IsOptionValue [] h k = elim k [ ]
digits-IsOptionValue (c ∷ cs) h k = λ e. omega (arith, h.0, e)

fork_on-decimal :
    (path : List ℕ) (n : ℕ)
    → IsOptionValue path
    → fork_on (record { workers = some (decimal n); socket = some path })
      ≡ ok (path, fork_all n new_primary)
fork_on-decimal [] n h = absurd h
fork_on-decimal (c ∷ cs) n h =
    ap (λ k. ok (c ∷ cs, fork_all (rounds k) new_primary)) (parse_int-decimal n)

start-given :
    (options : Options) (parses : ParsesOptions options) (given : Named) (path : List ℕ) (n : ℕ)
    → AreKnown (options_config options.cpus) given
    → IsOptionValue path
    → given_or_default (find (text "workers") given) (some (decimal options.cpus))
      ≡ some (decimal n)
    → find (text "socket") given ≡ some path
    → start options (as_arguments given) ≡ ok (path, fork_all n new_primary)
unfolding start
start-given options parses given path n known h workers socket =
    let (values, parsed, finds) = parses.parses (options_config options.cpus) given known in
    rw (start, parsed, finds (text "workers"), finds (text "socket"), workers, socket)
      (fork_on-decimal path n h)

-- The primary process that the host starts, which gets the arguments behind the path of its script, takes
-- the host's socket path for its workers, and forks as many of them as the host asks for, or as there
-- are CPUs. The path must not begin with a dash.
pub start-arguments :
    (options : Options) (parses : ParsesOptions options) (script_path socket_path : List ℕ)
    (num_workers : Option ℕ)
    → IsOptionValue socket_path
    → start options (drop 3 (arguments script_path socket_path num_workers))
      ≡ ok (socket_path, fork_all (worker_count options num_workers) new_primary)
unfolding arguments
start-arguments options parses script_path socket_path none h =
    start-given options parses ((text "socket", socket_path) ∷ []) socket_path options.cpus
      (refl, refl, h, tt) h refl refl
start-arguments options parses script_path socket_path (some n) h =
    start-given options parses ((text "socket", socket_path) ∷ (text "workers", decimal n) ∷ [])
      socket_path n
      (
        refl,
        refl,
        h,
        (refl, refl, digits-IsOptionValue (decimal n) (decimal-IsDigit n) (decimal_nonempty n), tt),
      )
      h refl refl
