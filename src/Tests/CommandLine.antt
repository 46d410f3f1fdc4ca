-- ===== src/Tests/CommandLine.antt =====
-- The primary process that the host starts with two workers.
use js_sidecar.Prelude.{
  Bool, false, if◌then◌else◌, ℕ, ◌≡◌, refl, ap, ◌∙◌, inl, inr, Bool-cases, Option, none, ◌++◌, some,
  List, [], ◌∷◌, drop, arith,
}
use js_sidecar.Prelude.Outcome.{ok, err}
use js_sidecar.Text.{text}
use js_sidecar.Host.Sidecar.{arguments}
use js_sidecar.Worker.Primary.{fork_all, new_primary}
use js_sidecar.Worker.Primary.Options.{
  OptionConfig, Options, Named, same, find, as_arguments, given_or_default, default_of,
  ParsesOptions,
}
use js_sidecar.Worker.Primary.CommandLine.{Files, on_process_exit, start}
use js_sidecar.Link.CommandLine.{start-arguments}

-- A parser of options with values.
abbrev pairs : List (List ℕ) → Named
pairs [] = []
pairs (option ∷ []) = []
pairs (option ∷ v ∷ rest) = (drop 2 option, v) ∷ pairs rest

abbrev with_default : List ℕ → Option (List ℕ) → Named → Named
with_default name none rest = rest
with_default name (some v) rest = (name, v) ∷ rest

abbrev defaults : List OptionConfig → Named
defaults [] = []
defaults (c ∷ cs) = with_default c.name c.default (defaults cs)

abbrev options : Options
options = record { cpus = 4; parse_args = λ config args. ok (pairs args ++ defaults config) }

pairs-as_arguments : (given : Named) → pairs (as_arguments given) ≡ given
pairs-as_arguments [] = refl
pairs-as_arguments ((name, v) ∷ rest) = ap (λ x. (name, v) ∷ x) (pairs-as_arguments rest)

find-with_default :
    (other : List ℕ) (default : Option (List ℕ)) (rest : Named) (name : List ℕ)
    → find name (with_default other default rest)
      ≡ (if same other name then given_or_default default (find name rest) else find name rest)
find-with_default other none rest name = elim (Bool-cases (same other name)) [
  | inl e ↦ rw e refl
  | inr e ↦ rw e refl
]
find-with_default other (some v) rest name = refl

find-defaults :
    (config : List OptionConfig) (name : List ℕ)
    → find name (defaults config) ≡ default_of config name
find-defaults [] name = refl
find-defaults (c ∷ cs) name =
    find-with_default c.name c.default (defaults cs) name
    ∙ ap (λ x. if same c.name name then given_or_default c.default x else x) (find-defaults cs name)

find-append :
    (given rest : Named) (name : List ℕ)
    → find name (given ++ rest) ≡ given_or_default (find name given) (find name rest)
find-append [] rest name = refl
find-append ((other, v) ∷ given) rest name = elim (Bool-cases (same other name)) [
  | inl e ↦ rw e refl
  | inr e ↦ rw e (find-append given rest name)
]

options-ParsesOptions : ParsesOptions options
options-ParsesOptions = record {
  parses = λ config given known. (
    given ++ defaults config,
    ap (λ x. ok (x ++ defaults config)) (pairs-as_arguments given),
    λ name.
        find-append given (defaults config) name
        ∙ ap (given_or_default (find name given)) (find-defaults config name),
  );
}

abbrev socket : List ℕ
socket = text "/tmp/sidecar.sock"

start-arguments_example :
    start options (drop 3 (arguments (text "/tmp/sidecar.js") socket (some 2)))
    ≡ ok (socket, fork_all 2 new_primary)
start-arguments_example =
    start-arguments options options-ParsesOptions (text "/tmp/sidecar.js") socket (some 2)
      (λ e. omega (arith, e))

-- A file system with at most the socket file.
abbrev files : Files
files = record {
  System = Bool;
  unlink = λ path there. (if there then ok tt else err "ENOENT", false);
}

-- The socket file is removed, and that it may be gone already does no harm.
on_process_exit_removes : (there : Bool) → on_process_exit files socket there ≡ (ok tt, false)
unfolding on_process_exit
on_process_exit_removes there = refl
