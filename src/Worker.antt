-- ===== src/Worker.antt =====
-- The Node.js side of the sidecar: src/worker/src/*.ts.
pub mod ApiTypes
pub mod Protocol
pub mod Sender
pub mod Logged
pub mod Node
pub mod Json
pub mod RunScript
pub mod Handler
pub mod Tasks
pub mod Primary
pub mod Server
pub mod Connections
