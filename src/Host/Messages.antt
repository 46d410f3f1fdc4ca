-- ===== src/Host/Messages.antt =====
-- src/messages.rs and the message types of src/protocol.rs. `V` is serde_json's `Value`; a `HashMap`
-- is the list of its entries.
use js_sidecar.Prelude.{ℕ, String, Option, none, List, [], Bool, false}

pub record FunctionDef : Type 0 where
  pub name : String
  pub params : List String
  pub code : String

pub record CodeModule : Type 0 where
  pub name : String
  pub code : String

pub record RunScriptArgs (V : Type 0) : Type 0 where
  pub name : String
  pub code : String
  pub recreate_context : Bool
  pub expr : Bool
  pub globals : List (String × V)
  pub timeout_ms : Option ℕ
  pub functions : List FunctionDef
  pub modules : List CodeModule
  pub return_keys : List String

-- `RunScriptArgs::default()`.
abbrev pub default_args : {V : Type 0} → RunScriptArgs V
default_args = record {
  name = "";
  code = "";
  recreate_context = false;
  expr = false;
  globals = [];
  timeout_ms = none;
  functions = [];
  modules = [];
  return_keys = [];
}

pub record RunResponseData (V : Type 0) : Type 0 where
  pub globals : List (String × V)
  pub return_value : Option V

pub record ErrorResponseData : Type 0 where
  pub message : String
  pub stack : Option String

pub record LogResponseData (V : Type 0) : Type 0 where
  pub level : String
  pub message : V

pub data HostToWorkerMessageData (V : Type 0) : Type 0 where
  run_script : RunScriptArgs V → HostToWorkerMessageData V
  ping : HostToWorkerMessageData V

pub data WorkerToHostMessageData (V : Type 0) : Type 0 where
  run_response : RunResponseData V → WorkerToHostMessageData V
  log : LogResponseData V → WorkerToHostMessageData V
  error : ErrorResponseData → WorkerToHostMessageData V
  pong : WorkerToHostMessageData V

-- The field `data` of the two message types is `content`.
pub record HostToWorkerMessage (V : Type 0) : Type 0 where
  pub request_id : ℕ
  pub message_id : ℕ
  pub content : HostToWorkerMessageData V

pub record WorkerToHostMessage (V : Type 0) : Type 0 where
  pub request_id : ℕ
  pub message_id : ℕ
  pub content : WorkerToHostMessageData V
