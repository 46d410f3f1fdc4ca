-- ===== src/Worker/Node.antt =====
-- What the worker calls outside the repository: node:vm, JSON, and the package lru-cache, as a parameter,
-- with the data of src/worker/src/api_types.ts that they pass on.
use js_sidecar.Prelude.{ℕ, String, Bool, Option, List}
use js_sidecar.Prelude.Outcome.{Outcome, Call}
use js_sidecar.Worker.Sender.{Exception}

pub record FunctionDef : Type 0 where
  pub name : String
  pub params : List String
  pub code : String

pub record CodeModule : Type 0 where
  pub name : String
  pub code : String

-- A field that may be missing is an `Option`.
pub record RunScriptArgs (V : Type 0) : Type 0 where
  pub name : String
  pub code : Option String
  pub recreate_context : Option Bool
  pub expr : Option Bool
  pub globals : Option (List (String × V))
  pub timeout_ms : Option ℕ
  pub functions : Option (List FunctionDef)
  pub modules : Option (List CodeModule)
  pub return_keys : Option (List String)

pub record RunResponse (V : Type 0) : Type 0 where
  pub globals : Option (List (String × V))
  pub return_value : Option V

pub record Node : Type 1 where
  pub Value : Type 0
  -- What can be thrown, with the RangeErrors of `Buffer` among it.
  pub Thrown : Type 0
  pub thrown : Exception → Thrown
  -- `JSON.parse`, and `JSON.stringify` of a response, which is `null` where there is none, and of the
  -- `message` and `stack` of what was thrown, which it may not have
  pub parse : List ℕ → Outcome Thrown (RunScriptArgs Value)
  pub response_json : Option (RunResponse Value) → Outcome Thrown (List ℕ)
  pub error_json : Thrown → Outcome Thrown (List ℕ)
  -- node:vm: all that scripts can reach and change is in `Heap`
  pub Heap : Type 0
  pub Context : Type 0
  pub Module : Type 0
  pub Script : Type 0
  pub Data : Type 0
  pub create_context : List (String × Value) → Heap → Context × Heap
  pub set_key : Context → String → Value → Heap → Heap
  pub get_keys : Context → Option (List String) → Heap → List (String × Value)
  pub compile_function : String → List String → Context → Option Data → Call Heap Thrown Value
  pub source_text_module : String → String → Context → Option Data → Call Heap Thrown Module
  pub module_data : Module → Option Data
  pub script : String → String → Option Data → Call Heap Thrown Script
  pub script_data : Script → Data
  -- A run to its end, the awaits of its promise included, with the texts that its console calls logged
  -- on the way. `link` resolves a specifier in the modules that it is given.
  pub run_in_context :
      Script → Context → Option ℕ → Heap → Outcome Thrown Value × List (List ℕ) × Heap
  pub link : Module → List (String × Module) → Call Heap Thrown (Unit {0})
  pub evaluate : Module → Heap → Outcome Thrown (Unit {0}) × List (List ℕ) × Heap
  -- lru-cache
  pub Cache : Type 0
  pub get : List ℕ → Cache → Option Data × Cache
  pub set : List ℕ → Data → Cache → Cache
