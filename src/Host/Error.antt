-- ===== src/Host/Error.antt =====
-- src/error.rs.
use js_sidecar.Prelude.{ℕ, List}
use js_sidecar.Host.Messages.{ErrorResponseData, WorkerToHostMessageData}
use js_sidecar.Host.Libs.{Libs}

pub record RunScriptError (V : Type 0) : Type 0 where
  pub error : ErrorResponseData
  pub messages : List (WorkerToHostMessageData V)

-- The payload of `Pool` is `Box<PoolError<Error>>` in the source; it is a value of deadpool's here.
pub data Error (lib : Libs) : Type 0 where
  json_serialize : lib.JsonError → Error lib
  read_stream : lib.IoError → Error lib
  write_stream : lib.IoError → Error lib
  timeout : Error lib
  start_worker : lib.IoError → Error lib
  connect_worker : lib.IoError → Error lib
  connection_out_of_sync : Error lib
  pool : lib.PoolError → Error lib
  build_pool : lib.BuildError → Error lib
  invalid_message_type : ℕ → Error lib
  script : RunScriptError lib.Value → Error lib
  script_ended_early : Error lib
