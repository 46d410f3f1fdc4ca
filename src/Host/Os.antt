-- ===== src/Host/Os.antt =====
-- What `JsSidecar` calls outside the repository (tokio's processes, sockets and clock, tempfile, nix,
-- deadpool), as a parameter, and what its documentation says of stopping a process, as a hypothesis.
-- Paths and arguments are texts.
use js_sidecar.Prelude.{ℕ, ◌<◌, ◌≤◌, ◌≡◌, Bool, true, false, Option, none, some, List}
use js_sidecar.Prelude.Outcome.{Outcome, ok, Call}
use js_sidecar.Host.Libs.{Libs}

pub record Os (lib : Libs) : Type 1 where
  -- Everything outside the program that these calls read and change.
  pub System : Type 0
  -- tempfile's `Builder`, with a prefix and a suffix
  pub TempFile : Type 0
  pub tempfile : List ℕ → List ℕ → Call System lib.IoError TempFile
  pub path : TempFile → List ℕ
  pub write : List ℕ → List ℕ → Call System lib.IoError (Unit {0})
  -- a `NamedTempFile` that is dropped, which deletes its file
  pub drop_file : TempFile → System → System
  -- `Command::new(program)` with arguments; `UnixStream::connect`; `sleep` in milliseconds
  pub Child : Type 0
  pub spawn : List ℕ → List (List ℕ) → Call System lib.IoError Child
  pub Stream : Type 0
  pub connect : List ℕ → Call System lib.IoError Stream
  -- `UnixStream::into_split`, and the receiver of an `mpsc::channel` with its capacity
  pub into_split : Stream → lib.Reader × lib.Writer
  pub channel : ℕ → lib.Receiver
  pub sleep : ℕ → System → System
  -- deadpool: a pool for a socket path, with its `max_size`
  pub Pool : Type 0
  pub Object : Type 0
  pub build_pool : List ℕ → ℕ → Outcome lib.BuildError Pool
  pub get : Pool → Call System lib.PoolError Object
  pub close_pool : Pool → System → System
  -- `Child::id`, nix's `kill` with SIGTERM, `timeout(seconds, child.wait())`, which is `none` when the
  -- time is over first and else the result of `wait` with its exit status, and `Child::kill`. The results
  -- of the two `kill`s are dropped by the code.
  pub id : Child → System → Option ℕ
  pub sigterm : ℕ → System → System
  pub wait : ℕ → Child → System → Option (Outcome lib.IoError ℕ) × System
  pub kill : Child → System → System

-- What is documented of stopping a process. `alive` says whether it runs, `forced` whether it was killed, and
-- `lost` that it cannot be waited for; `exits_in` are the seconds in which it exits once it gets SIGTERM, if
-- it does, and `due` those in which it exits as things stand, if it does.
pub record Processes {lib : Libs} (os : Os lib) : Type 0 where
  pub alive : os.Child → os.System → Bool
  pub forced : os.Child → os.System → Bool
  pub lost : os.Child → os.System → Bool
  pub exits_in : os.Child → os.System → Option ℕ
  pub due : os.Child → os.System → Option ℕ
  -- a child without an ID has been waited for
  pub no_id : (child : os.Child) (s : os.System) → os.id child s ≡ none → alive child s ≡ false
  pub signalled :
      (pid : ℕ) (child : os.Child) (s : os.System)
      → os.id child s ≡ some pid
      → (due child (os.sigterm pid s) ≡ exits_in child s)
        × (forced child (os.sigterm pid s) ≡ forced child s)
        × (lost child (os.sigterm pid s) ≡ lost child s)
  -- a `wait` ends with the exit of the process, unless the time is over first
  pub in_time :
      (seconds k : ℕ) (child : os.Child) (s : os.System)
      → lost child s ≡ false
      → due child s ≡ some k
      → k < seconds
      → (status : ℕ) × ((os.wait seconds child s).0 ≡ some (ok status))
        × (alive child (os.wait seconds child s).1 ≡ false)
        × (forced child (os.wait seconds child s).1 ≡ forced child s)
  pub too_late :
      (seconds k : ℕ) (child : os.Child) (s : os.System)
      → lost child s ≡ false
      → due child s ≡ some k
      → seconds ≤ k
      → (os.wait seconds child s).0 ≡ none
  pub goes_on :
      (seconds : ℕ) (child : os.Child) (s : os.System)
      → lost child s ≡ false
      → due child s ≡ none
      → (os.wait seconds child s).0 ≡ none
  -- `kill` waits for the exit that it forces
  pub killed :
      (child : os.Child) (s : os.System)
      → (alive child (os.kill child s) ≡ false) × (forced child (os.kill child s) ≡ true)
