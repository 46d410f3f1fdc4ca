-- ===== src/Worker/Json.antt =====
-- What src/worker/src/api_types.ts says of a parsed request, and the objects that `respond`, `error` and
-- `log` of src/worker/src/protocol.ts write. `W` is JavaScript values, `V` what JSON makes of them.
use js_sidecar.Prelude.{Option, none, some, List, [], ◌∷◌, map, String}
use js_sidecar.Json.{Json, value, string, object, members, find}
use js_sidecar.Json.Read.{
  ◌>>=◌, read_string, read_boolean, read_number, read_value, read_array, read_entries, required,
  optional,
}
use js_sidecar.Worker.Node.{FunctionDef, CodeModule, RunScriptArgs, RunResponse}

module _ {V : Type 0} where
  abbrev pub read_function : Json V → Option FunctionDef
  read_function (object ms) = do
    name ← required read_string (find "name" ms)
    params ← required (read_array read_string) (find "params" ms)
    code ← required read_string (find "code" ms)
    some (record { name = name; params = params; code = code })
  read_function _ = none

  abbrev pub read_module : Json V → Option CodeModule
  read_module (object ms) = do
    name ← required read_string (find "name" ms)
    code ← required read_string (find "code" ms)
    some (record { name = name; code = code })
  read_module _ = none

  module _ {W : Type 0} (from_json : V → W) (order : List (String × W) → List (String × W)) where
    -- The properties of an object, in the order in which JavaScript lists them.
    abbrev pub read_properties : Json V → Option (List (String × W))
    read_properties j = do
      entries ← read_entries read_value j
      some (order (map (λ x. (x.0, from_json x.1)) entries))

    unfoldable pub read_args : Json V → Option (RunScriptArgs W)
    read_args (object ms) = do
      name ← required read_string (find "name" ms)
      code ← optional read_string (find "code" ms)
      recreate_context ← optional read_boolean (find "recreateContext" ms)
      expr ← optional read_boolean (find "expr" ms)
      globals ← optional read_properties (find "globals" ms)
      timeout_ms ← optional read_number (find "timeoutMs" ms)
      functions ← optional (read_array read_function) (find "functions" ms)
      modules ← optional (read_array read_module) (find "modules" ms)
      return_keys ← optional (read_array read_string) (find "returnKeys" ms)
      some (record {
        name = name;
        code = code;
        recreate_context = recreate_context;
        expr = expr;
        globals = globals;
        timeout_ms = timeout_ms;
        functions = functions;
        modules = modules;
        return_keys = return_keys;
      })
    read_args _ = none

  abbrev pub written_value : Option V → Option (Json V)
  written_value none = none
  written_value (some v) = some (value v)

  module _ {W : Type 0} (to_json : W → Option V) where
    -- What `JSON.stringify` has for a value: `undefined` and functions are left out.
    abbrev pub written : Option W → Option (Json V)
    written none = none
    written (some w) = written_value (to_json w)

    abbrev pub written_globals : Option (List (String × W)) → Option (Json V)
    written_globals none = none
    written_globals (some entries) =
        some (object (members (map (λ x. (x.0, written (some x.1))) entries)))

    abbrev pub response_fields : RunResponse W → List (String × Option (Json V))
    response_fields response =
        ("globals", written_globals response.globals)
        ∷ ("returnValue", written response.return_value)
        ∷ []

    unfoldable pub response_document : RunResponse W → Json V
    response_document response = object (members (response_fields response))

  -- `message` and `stack` are properties of what was thrown, which it may not have.
  abbrev pub error_fields : Option (Json V) → Option (Json V) → List (String × Option (Json V))
  error_fields message stack = ("message", message) ∷ ("stack", stack) ∷ []

  unfoldable pub error_document : Option (Json V) → Option (Json V) → Json V
  error_document message stack = object (members (error_fields message stack))

  unfoldable pub log_document : String → V → Json V
  log_document level message =
      object (members (("level", some (string level)) ∷ ("message", some (value message)) ∷ []))
