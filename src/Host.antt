-- ===== src/Host.antt =====
-- The Rust side of the sidecar: src/*.rs.
pub mod Messages
pub mod Serde
pub mod Libs
pub mod Error
pub mod Protocol
pub mod Connection
pub mod Reader
pub mod Channel
pub mod Os
pub mod Create
pub mod Sidecar
