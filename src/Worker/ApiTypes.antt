-- ===== src/Worker/ApiTypes.antt =====
-- The message types of src/worker/src/api_types.ts.
use js_sidecar.Prelude.{ℕ}

pub data HostToWorkerMessage : Type 0 where
  run_script ping : HostToWorkerMessage

pub data WorkerToHostMessage : Type 0 where
  run_response log error pong : WorkerToHostMessage

-- The values of the two enums.
unfoldable pub host_to_worker_value : HostToWorkerMessage → ℕ
host_to_worker_value run_script = 0
host_to_worker_value ping = 1

unfoldable pub worker_to_host_value : WorkerToHostMessage → ℕ
worker_to_host_value run_response = 0x1000
worker_to_host_value log = 0x1001
worker_to_host_value error = 0x1002
worker_to_host_value pong = 0x1003
