-- ===== src/Worker/Primary/Options.antt =====
-- `parseArgs` of node:util and `os.cpus`, which src/worker/src/index.ts calls, as a parameter, and what is
-- documented of them.
use js_sidecar.Prelude.{
  ℕ, ◌≡◌, Bool, ◌&&◌, ◌==◌, ◌||◌, true, false, Option, none, some, List, [], ◌∷◌, if◌then◌else◌,
  String,
}
use js_sidecar.Prelude.Outcome.{Outcome, ok}

-- An entry of the `options` of `parseArgs` of node:util, whose type is 'string', with its default.
pub record OptionConfig : Type 0 where
  pub name : List ℕ
  pub default : Option (List ℕ)

-- Whether two texts are the same.
abbrev pub same : List ℕ → List ℕ → Bool
same [] [] = true
same [] (y ∷ ys) = false
same (x ∷ xs) [] = false
same (x ∷ xs) (y ∷ ys) = x == y && same xs ys

-- Texts by their names.
abbrev pub Named : Type 0
Named = List (List ℕ × List ℕ)

abbrev pub find : List ℕ → Named → Option (List ℕ)
find name [] = none
find name ((other, v) ∷ rest) = if same other name then some v else find name rest

-- `os.cpus().length`, and `parseArgs`, which throws on what it does not know.
pub record Options : Type 0 where
  pub cpus : ℕ
  pub parse_args : List OptionConfig → List (List ℕ) → Outcome String Named

-- Options with their values, as arguments.
abbrev pub as_arguments : Named → List (List ℕ)
as_arguments [] = []
as_arguments ((name, v) ∷ rest) = (45 ∷ 45 ∷ name) ∷ v ∷ as_arguments rest

abbrev pub given_or_default : Option (List ℕ) → Option (List ℕ) → Option (List ℕ)
given_or_default (some v) default = some v
given_or_default none default = default

abbrev pub default_of : List OptionConfig → List ℕ → Option (List ℕ)
default_of [] name = none
default_of (c ∷ cs) name =
    if same c.name name then given_or_default c.default (default_of cs name) else default_of cs name

abbrev pub is_known : List OptionConfig → List ℕ → Bool
is_known [] name = false
is_known (c ∷ cs) name = same c.name name || is_known cs name

abbrev pub IsOptionValue : List ℕ → Type 0
IsOptionValue [] = ⊥
IsOptionValue (c ∷ cs) = c ≡ 45 → ⊥

-- Each option is known and given once, with a value that does not begin with a dash.
abbrev pub AreKnown : List OptionConfig → Named → Type 0
AreKnown config [] = Unit
AreKnown config ((name, v) ∷ rest) =
    (is_known config name ≡ true) × (find name rest ≡ none) × IsOptionValue v × AreKnown config rest

-- What is given counts, and else the default.
pub record ParsesOptions (options : Options) : Type 0 where
  pub parses :
      (config : List OptionConfig) (given : Named)
      → AreKnown config given
      → (values : Named) × (options.parse_args config (as_arguments given) ≡ ok values)
        × ((name : List ℕ)
            → find name values ≡ given_or_default (find name given) (default_of config name))
