-- ===== src/Worker/Primary/CommandLine.antt =====
-- The command line of the primary process in src/worker/src/index.ts, its first workers, and what it removes.
use js_sidecar.Prelude.{
  ℕ, ◌<◌, ◌≡◌, refl, ap, ◌∙◌, Bool, ◌&&◌, ◌||◌, ◌==◌, Option, none, some, List, [], ◌∷◌, All,
  length, ltb, arith, if◌then◌else◌, String,
}
use js_sidecar.Prelude.Outcome.{Call, Outcome, ok, err, panicked, pending, spent}
use js_sidecar.Text.{
  text, decimal, IsDigit, value, decimal-IsDigit, value-decimal, decimal_nonempty,
}
use js_sidecar.Worker.Primary.{Primary, fork_all, new_primary}
use js_sidecar.Worker.Primary.Options.{OptionConfig, Options, find}

-- The digits at the front of a text.
abbrev digits : List ℕ → List ℕ
digits [] = []
digits (c ∷ cs) = if ltb 47 c && ltb c 58 then c ∷ digits cs else []

-- JavaScript's white space and line ends.
abbrev is_space : ℕ → Bool
is_space c =
    (ltb 8 c && ltb c 14)
    || c == 32
    || c == 160
    || c == 5760
    || (ltb 8191 c && ltb c 8203)
    || c == 8232
    || c == 8233
    || c == 8239
    || c == 8287
    || c == 12288
    || c == 65279

abbrev skip_spaces : List ℕ → List ℕ
skip_spaces [] = []
skip_spaces (c ∷ cs) = if is_space c then skip_spaces cs else c ∷ cs

abbrev skip_plus : List ℕ → List ℕ
skip_plus [] = []
skip_plus (c ∷ cs) = if c == 43 then cs else c ∷ cs

abbrev number_of : List ℕ → Option ℕ
number_of [] = none
number_of (d ∷ ds) = some (value 0 (d ∷ ds))

-- `parseInt(text, 10)`. NaN, and what is below 0, are `none`: no loop runs for them. From 2 ^ 53 on,
-- where JavaScript rounds the number, this does not.
unfoldable pub parse_int : List ℕ → Option ℕ
parse_int cs = number_of (digits (skip_plus (skip_spaces cs)))

abbrev pub rounds : Option ℕ → ℕ
rounds none = 0
rounds (some n) = n

-- `values.workers` and `values.socket`
pub record Values : Type 0 where
  pub workers : Option (List ℕ)
  pub socket : Option (List ℕ)

abbrev pub options_config : ℕ → List OptionConfig
options_config cpus =
    record { name = text "workers"; default = some (decimal cpus) }
    ∷ record { name = text "socket"; default = none }
    ∷ []

-- `values.workers ?? '1'`
abbrev or_one : Option (List ℕ) → List ℕ
or_one none = text "1"
or_one (some workers) = workers

-- Without a socket path it throws; else it forks its workers, for which the path is in their environment.
abbrev pub fork_on : Values → Outcome String (List ℕ × Primary)
fork_on values = elim values.socket [
  | none ↦ err "No socket path provided"
  | some path ↦ elim path [
    | [] ↦ err "No socket path provided"
    | c ∷ cs ↦ ok (c ∷ cs, fork_all (rounds (parse_int (or_one values.workers))) new_primary)
  ]
]

unfoldable pub start : Options → List (List ℕ) → Outcome String (List ℕ × Primary)
start options args = elim (options.parse_args (options_config options.cpus) args) [
  | ok values ↦
      fork_on
        (record { workers = find (text "workers") values; socket = find (text "socket") values })
  | err e ↦ err e
  | panicked ↦ panicked
  | pending ↦ pending
  | spent ↦ spent
]

-- `fs.unlinkSync`, which throws where there is no such file.
pub record Files : Type 1 where
  pub System : Type 0
  pub unlink : List ℕ → Call System String (Unit {0})

-- What the process does as it exits, from when it has its socket path: it removes the socket file, and
-- catches whatever that throws.
unfoldable pub on_process_exit : (files : Files) → List ℕ → Call files.System String (Unit {0})
on_process_exit files socket_path s = (ok tt, (files.unlink socket_path s).1)

digits-IsDigit : (cs : List ℕ) → All IsDigit cs → digits cs ≡ cs
digits-IsDigit [] h = refl
digits-IsDigit (c ∷ cs) h = ground (arith, digits-IsDigit cs h.1)

skip_spaces-IsDigit : (c : ℕ) (cs : List ℕ) → IsDigit c → skip_spaces (c ∷ cs) ≡ c ∷ cs
skip_spaces-IsDigit c cs h = ground (arith, h)

skip_plus-IsDigit : (c : ℕ) (cs : List ℕ) → IsDigit c → skip_plus (c ∷ cs) ≡ c ∷ cs
skip_plus-IsDigit c cs h = ground (arith, h)

parse_int-IsDigit :
    (cs : List ℕ) → All IsDigit cs → 0 < length cs → parse_int cs ≡ some (value 0 cs)
unfolding parse_int
parse_int-IsDigit [] h k = elim k [ ]
parse_int-IsDigit (c ∷ cs) h k =
    ap (λ x. number_of (digits (skip_plus x))) (skip_spaces-IsDigit c cs h.0)
    ∙ ap (λ x. number_of (digits x)) (skip_plus-IsDigit c cs h.0)
    ∙ ap number_of (digits-IsDigit (c ∷ cs) h)

pub parse_int-decimal : (n : ℕ) → parse_int (decimal n) ≡ some n
parse_int-decimal n =
    parse_int-IsDigit (decimal n) (decimal-IsDigit n) (decimal_nonempty n)
    ∙ ap some (value-decimal n)
