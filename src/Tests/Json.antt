-- ===== src/Tests/Json.antt =====
-- Scripts that cross the socket as JSON, on stand-ins that have a text for one script only.
use text.Mathlib.Text.{◌==◌ as ◌is◌}
use text.Mathlib.TextEquality.{eq_iff}
use js_sidecar.Prelude.{
  ℕ, ◌≡◌, refl, ap, ap₂, subst, ◌∙◌, Bool, true, false, ◌&&◌, Option, none, some, List, [], ◌∷◌,
  String, if◌then◌else◌,
}
use js_sidecar.Prelude.Outcome.{Outcome, ok, err}
use js_sidecar.Json.{Json}
use js_sidecar.Host.Messages.{FunctionDef, CodeModule, RunScriptArgs, default_args}
use js_sidecar.Host.Serde.{args_json}
use js_sidecar.Host.Libs.{Libs, WritesWords}
use js_sidecar.Worker.Node.{RunScriptArgs as WorkerArgs}
use js_sidecar.Worker.Json.{read_args}
use js_sidecar.Link.Arguments.{read_args-args_json}
use js_sidecar.Tests.Toy.{toy}
use js_sidecar.Tests.Worker.{small_node}

abbrev pub the_args : Bool → RunScriptArgs ℕ
the_args recreate = record default_args { code = "1 + 1"; expr = true; recreate_context = recreate }

-- A script that has a bit of everything.
abbrev pub many : RunScriptArgs ℕ
many = record (the_args true) {
  globals = ("x", 5) ∷ ("y", 6) ∷ [];
  timeout_ms = some 250;
  functions = record { name = "f"; params = "a" ∷ "b" ∷ []; code = "return a" } ∷ [];
  return_keys = "x" ∷ [];
}

abbrev is_nil : {A : Type 0} → List A → Bool
is_nil [] = true
is_nil (x ∷ xs) = false

abbrev is_none : {A : Type 0} → Option A → Bool
is_none none = true
is_none (some a) = false

-- The fields, with those that may be missing first.
abbrev is_script :
    String
    → String
    → Bool
    → List (String × ℕ)
    → Option ℕ
    → List FunctionDef
    → List CodeModule
    → List String
    → Bool
is_script name code expr g t f m k =
    is_nil g
    && (is_none t
        && (is_nil f && (is_nil m && (is_nil k && (expr && ((name is "") && (code is "1 + 1")))))))

abbrev script_of :
    Bool
    → String
    → String
    → Bool
    → List (String × ℕ)
    → Option ℕ
    → List FunctionDef
    → List CodeModule
    → List String
    → RunScriptArgs ℕ
script_of recreate name code expr g t f m k = record {
  name = name;
  code = code;
  recreate_context = recreate;
  expr = expr;
  globals = g;
  timeout_ms = t;
  functions = f;
  modules = m;
  return_keys = k;
}

both : (a b : Bool) → (a && b) ≡ true → (a ≡ true) × (b ≡ true)
both true true h = (refl, refl)
both true false h = cc h
both false b h = cc h

is_script_lem :
    (recreate : Bool) (name code : String) (expr : Bool) (g : List (String × ℕ)) (t : Option ℕ)
    (f : List FunctionDef) (m : List CodeModule) (k : List String)
    → is_script name code expr g t f m k ≡ true
    → script_of recreate name code expr g t f m k ≡ the_args recreate
is_script_lem r name code expr (x ∷ g) t f m k h = cc h
is_script_lem r name code expr [] (some t) f m k h = cc h
is_script_lem r name code expr [] none (x ∷ f) m k h = cc h
is_script_lem r name code expr [] none [] (x ∷ m) k h = cc h
is_script_lem r name code expr [] none [] [] (x ∷ k) h = cc h
is_script_lem r name code false [] none [] [] [] h = cc h
is_script_lem r name code true [] none [] [] [] h =
    let (p, q) = both (name is "") (code is "1 + 1") h in
    ap₂ (λ x y. script_of r x y true [] none [] [] []) ((eq_iff name "").0 p)
      ((eq_iff code "1 + 1").0 q)

abbrev flag : Bool → ℕ
flag b = if b then 1 else 0

abbrev narrow_to_vec : RunScriptArgs ℕ → Outcome String (List ℕ)
narrow_to_vec a =
    if is_script a.name a.code a.expr a.globals a.timeout_ms a.functions a.modules a.return_keys
    then ok (flag a.recreate_context ∷ [])
    else err "not this script"

abbrev pub narrow : Libs
narrow = record toy { to_vec = narrow_to_vec }

pub narrow_words : WritesWords narrow
narrow_words = record { appends = λ n bytes h. refl }

abbrev pub Denotes : List ℕ → Json ℕ → Type 0
Denotes body j = (r : Bool) × (body ≡ flag r ∷ []) × (j ≡ args_json (the_args r))

flag_written :
    (test r : Bool) (body : List ℕ)
    → ◌≡◌ {A = Outcome String (List ℕ)}
        (if test then ok (flag r ∷ []) else err "not this script")
        (ok body)
    → (test ≡ true) × (body ≡ flag r ∷ [])
flag_written true r body h = (refl, cc h)
flag_written false r body h = cc h

pub narrow-writes :
    (args : RunScriptArgs ℕ) (body : List ℕ)
    → narrow_to_vec args ≡ ok body
    → Denotes body (args_json args)
narrow-writes a body h =
    let (fits, b) = flag_written _ a.recreate_context body h in
    (
      a.recreate_context,
      b,
      ap args_json (
          is_script_lem a.recreate_context a.name a.code a.expr a.globals a.timeout_ms a.functions
            a.modules a.return_keys fits),
    )

flag_parsed :
    (r : Bool) (args : WorkerArgs ℕ)
    → read_args (λ v. v) (λ entries. entries) (args_json (the_args r)) ≡ some args
    → small_node.parse (flag r ∷ []) ≡ ok args
flag_parsed true args h =
    let read = read_args-args_json (λ (v : ℕ). v) (λ entries. entries) (the_args true) tt in
    cc (read, h)
flag_parsed false args h =
    let read = read_args-args_json (λ (v : ℕ). v) (λ entries. entries) (the_args false) tt in
    cc (read, h)

pub narrow-parses :
    (body : List ℕ) (j : Json ℕ) (args : WorkerArgs ℕ)
    → Denotes body j
    → read_args (λ v. v) (λ entries. entries) j ≡ some args
    → small_node.parse body ≡ ok args
narrow-parses body j args (r, b, d) h =
    ap small_node.parse b
    ∙ flag_parsed r args
        (subst (λ x. read_args (λ (v : ℕ). v) (λ entries. entries) x ≡ some args) d h)
