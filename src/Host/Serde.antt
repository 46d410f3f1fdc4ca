-- ===== src/Host/Serde.antt =====
-- What the serde attributes in src/messages.rs say of the JSON of its types: `Serialize` writes these
-- documents, and `Deserialize` reads these.
use js_sidecar.Prelude.{Bool, Option, none, some, List, [], ◌∷◌, map, String, if◌then◌else◌}
use js_sidecar.Json.{Json, value, number, boolean, string, array, object, elements, members, find}
use js_sidecar.Json.Read.{◌>>=◌, read_string, read_value, read_entries, required, optional}
use js_sidecar.Host.Messages.{
  FunctionDef, CodeModule, RunScriptArgs, RunResponseData, ErrorResponseData, LogResponseData,
}

-- A field that is missing, with `#[serde(default)]`.
abbrev pub or_default {ℓ} : {A : Type ℓ} → A → Option A → A
or_default d none = d
or_default d (some a) = a

module _ {V : Type 0} where
  abbrev pub strings_json : List String → Json V
  strings_json xs = array (elements (map string xs))

  abbrev pub function_json : FunctionDef → Json V
  function_json f = object (
      members (
        ("name", some (string f.name))
        ∷ ("params", some (strings_json f.params))
        ∷ ("code", some (string f.code))
        ∷ []))

  abbrev pub module_json : CodeModule → Json V
  module_json m =
      object (members (("name", some (string m.name)) ∷ ("code", some (string m.code)) ∷ []))

  -- `skip_serializing_if = "Vec::is_empty"`
  abbrev pub unless_empty : {A : Type 0} → (A → Json V) → List A → Option (Json V)
  unless_empty write [] = none
  unless_empty write (a ∷ xs) = some (array (elements (map write (a ∷ xs))))

  -- `skip_serializing_if = "Option::is_none"`
  abbrev pub unless_none : {A : Type 0} → (A → Json V) → Option A → Option (Json V)
  unless_none write none = none
  unless_none write (some a) = some (write a)

  abbrev pub args_fields : RunScriptArgs V → List (String × Option (Json V))
  args_fields a =
      ("name", some (string a.name))
      ∷ ("code", some (string a.code))
      ∷ ("recreateContext", some (boolean a.recreate_context))
      ∷ ("expr", some (boolean a.expr))
      ∷ ("globals", some (object (members (map (λ x. (x.0, some (value x.1))) a.globals))))
      ∷ ("timeoutMs", unless_none number a.timeout_ms)
      ∷ ("functions", unless_empty function_json a.functions)
      ∷ ("modules", unless_empty module_json a.modules)
      ∷ ("returnKeys", unless_empty string a.return_keys)
      ∷ []

  unfoldable pub args_json : RunScriptArgs V → Json V
  args_json a = object (members (args_fields a))

  module _ (is_null : V → Bool) where
    -- A field of type `Option<Value>`: `null` is `None`.
    abbrev pub read_nullable : Json V → Option (Option V)
    read_nullable j = do v ← read_value j; some (if is_null v then none else some v)

    -- A field of type `Option<String>`.
    abbrev pub read_nullable_string : Json V → Option (Option String)
    read_nullable_string (string s) = some (some s)
    read_nullable_string (value v) = if is_null v then some none else none
    read_nullable_string _ = none

    -- Fields that are missing have their default, and others are ignored.
    unfoldable pub read_response : Json V → Option (RunResponseData V)
    read_response (object ms) = do
      globals ← optional (read_entries read_value) (find "globals" ms)
      return_value ← optional read_nullable (find "returnValue" ms)
      some (record { globals = or_default [] globals; return_value = or_default none return_value })
    read_response _ = none

    unfoldable pub read_error : Json V → Option ErrorResponseData
    read_error (object ms) = do
      message ← required read_string (find "message" ms)
      stack ← optional read_nullable_string (find "stack" ms)
      some (record { message = message; stack = or_default none stack })
    read_error _ = none

  unfoldable pub read_log : Json V → Option (LogResponseData V)
  read_log (object ms) = do
    level ← required read_string (find "level" ms)
    message ← required read_value (find "message" ms)
    some (record { level = level; message = message })
  read_log _ = none
