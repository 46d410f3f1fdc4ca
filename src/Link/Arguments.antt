-- ===== src/Link/Arguments.antt =====
-- A script of the host, as src/messages.rs serializes it, and as src/worker/src/api_types.ts sees it.
use js_sidecar.Prelude.{
  ℕ, ◌<◌, ◌^◌, ◌≡◌, refl, ◌∙◌, Option, none, some, List, [], ◌∷◌, map, String, lt→ltb,
}
use js_sidecar.Json.{
  Json, string, elements, members, find, find-members, number, first, first-none, pick,
}
use js_sidecar.Json.Read.{
  read_string, read_number, read_array, optional, read_elements, read_elements-map,
  read_members-value,
}
use js_sidecar.Host.Messages.{
  FunctionDef as HostFunction, CodeModule as HostModule, RunScriptArgs as HostArgs,
}
use js_sidecar.Host.Serde.{
  args_fields, args_json, function_json, module_json, unless_empty, unless_none,
}
use js_sidecar.Worker.Node.{FunctionDef, CodeModule, RunScriptArgs}
use js_sidecar.Worker.Json.{read_function, read_module, read_args}

abbrev pub as_function : HostFunction → FunctionDef
as_function f = record { name = f.name; params = f.params; code = f.code }

abbrev pub as_module : HostModule → CodeModule
as_module m = record { name = m.name; code = m.code }

-- What is empty is missing.
abbrev pub non_empty {ℓ} : {A : Type ℓ} → List A → Option (List A)
non_empty [] = none
non_empty (a ∷ xs) = some (a ∷ xs)

abbrev pub IsExact : Option ℕ → Type 0
IsExact none = Unit
IsExact (some ms) = ms < 2 ^ 53

module _ {V W : Type 0} (from_json : V → W) (order : List (String × W) → List (String × W)) where
  -- The arguments of a script of the host, for a worker.
  abbrev pub as_args : HostArgs V → RunScriptArgs W
  as_args a = record {
    name = a.name;
    code = some a.code;
    recreate_context = some a.recreate_context;
    expr = some a.expr;
    globals = some (order (map (λ x. (x.0, from_json x.1)) a.globals));
    timeout_ms = a.timeout_ms;
    functions = non_empty (map as_function a.functions);
    modules = non_empty (map as_module a.modules);
    return_keys = non_empty a.return_keys;
  }

module _ (V : Type 0) where
  read_array-unless_empty :
      {A B : Type 0} (read : Json V → Option B) (write : A → Json V) (view : A → B)
      → ((a : A) → read (write a) ≡ some (view a))
      → (xs : List A)
      → optional (read_array read) (unless_empty write xs) ≡ some (non_empty (map view xs))
  read_array-unless_empty read write view inverse [] = refl
  read_array-unless_empty read write view inverse (x ∷ xs) =
      rw (inverse x, read_elements-map read write view inverse xs) refl

  read_strings :
      (xs : List String) → read_elements (read_string {V = V}) (elements (map string xs)) ≡ some xs
  read_strings [] = refl
  read_strings (x ∷ xs) = rw (read_strings xs) refl

  read_keys :
      (xs : List String)
      → optional (read_array (read_string {V = V})) (unless_empty string xs) ≡ some (non_empty xs)
  read_keys [] = refl
  read_keys (x ∷ xs) = rw (read_strings xs) refl

  read_timeout :
      (t : Option ℕ) → IsExact t → optional (read_number {V = V}) (unless_none number t) ≡ some t
  read_timeout none h = refl
  read_timeout (some t) h = rw (lt→ltb t (2 ^ 53) h) refl

  read_function-function_json :
      (f : HostFunction) → read_function {V = V} (function_json f) ≡ some (as_function f)
  read_function-function_json f = rw (read_strings f.params) refl

module _ {V W : Type 0} (from_json : V → W) (order : List (String × W) → List (String × W)) where
  -- From the document of a script, a worker reads the arguments that the host gave it: a field that was
  -- left out because it was empty is missing there too. A timeout has to be a number that JavaScript
  -- has exactly.
  pub read_args-args_json :
      (a : HostArgs V)
      → IsExact a.timeout_ms
      → read_args from_json order (args_json a) ≡ some (as_args from_json order a)
  unfolding read_args args_json
  read_args-args_json a h =
      rw
        (
          found "timeoutMs" (unless_none number a.timeout_ms) refl,
          found "functions" (unless_empty function_json a.functions) refl,
          found "modules" (unless_empty module_json a.modules) refl,
          found "returnKeys" (unless_empty string a.return_keys) refl,
          read_members-value a.globals,
          read_timeout V a.timeout_ms h,
          read_array-unless_empty V read_function function_json as_function
              (read_function-function_json V) a.functions,
          read_array-unless_empty V read_module module_json as_module (λ m. refl) a.modules,
          read_keys V a.return_keys,
        )
        refl
    where
      found :
          (name : String) (field : Option (Json V))
          → pick name (args_fields a) ≡ first field none
          → find name (members (args_fields a)) ≡ field
      found name field e = find-members name (args_fields a) ∙ e ∙ first-none field
