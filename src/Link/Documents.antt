-- ===== src/Link/Documents.antt =====
-- What the two sides assume of serde_json and of JavaScript's `JSON`: both write JSON texts of the same
-- documents.
use js_sidecar.Prelude.{ℕ, ◌≡◌, Bool, Option, none, some, List, String}
use js_sidecar.Prelude.Outcome.{ok, err}
use js_sidecar.Json.{Json}
use js_sidecar.Host.Messages.{RunScriptArgs as HostArgs, RunResponseData, ErrorResponseData}
use js_sidecar.Host.Serde.{args_json, read_response, read_error}
use js_sidecar.Host.Libs.{Libs}
use js_sidecar.Worker.Node.{Node, RunScriptArgs, RunResponse}
use js_sidecar.Worker.Json.{read_args, response_document, error_document}

-- Requests: `Denotes` relates a text and its document, `from_json` is what `JSON.parse` makes of data, and
-- `order` the order of properties in JavaScript.
pub record Requests (lib : Libs) (n : Node) : Type 1 where
  pub Denotes : List ℕ → Json lib.Value → Type 0
  pub from_json : lib.Value → n.Value
  pub order : List (String × n.Value) → List (String × n.Value)
  -- `serde_json::to_vec` writes a text of what `Serialize` gives.
  pub writes :
      (args : HostArgs lib.Value) (body : List ℕ)
      → lib.to_vec args ≡ ok body
      → Denotes body (args_json args)
  -- `JSON.parse` gives an object with the properties of the document.
  pub parses :
      (body : List ℕ) (j : Json lib.Value) (args : RunScriptArgs n.Value)
      → Denotes body j
      → read_args from_json order j ≡ some args
      → n.parse body ≡ ok args

-- Replies: `to_json` is what `JSON.stringify` makes of a value, unless it leaves it out, and `message` and
-- `stack` are those properties of what was thrown.
pub record Replies (lib : Libs) (n : Node) : Type 1 where
  pub Denotes : List ℕ → Json lib.Value → Type 0
  pub to_json : n.Value → Option lib.Value
  pub is_null : lib.Value → Bool
  pub message : n.Thrown → Option (Json lib.Value)
  pub stack : n.Thrown → Option (Json lib.Value)
  -- `JSON.stringify` writes a text of the object.
  pub writes_response :
      (response : RunResponse n.Value) (body : List ℕ)
      → n.response_json (some response) ≡ ok body
      → Denotes body (response_document to_json response)
  pub writes_error :
      (e : n.Thrown) (body : List ℕ)
      → n.error_json e ≡ ok body
      → Denotes body (error_document (message e) (stack e))
  -- `serde_json::from_slice` reads what `Deserialize` accepts, and fails on another document.
  pub reads_response :
      (body : List ℕ) (j : Json lib.Value) (d : RunResponseData lib.Value)
      → Denotes body j
      → read_response is_null j ≡ some d
      → lib.run_response_from_slice body ≡ ok d
  pub reads_error :
      (body : List ℕ) (j : Json lib.Value) (d : ErrorResponseData)
      → Denotes body j
      → read_error is_null j ≡ some d
      → lib.error_from_slice body ≡ ok d
  pub refuses_error :
      (body : List ℕ) (j : Json lib.Value)
      → Denotes body j
      → read_error is_null j ≡ none
      → (e : lib.JsonError) × (lib.error_from_slice body ≡ err e)
