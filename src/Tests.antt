-- ===== src/Tests.antt =====
-- The theorems at concrete inputs, and runs of the definitions.
mod Toy
mod Wire
mod Conn
mod Sidecar
mod Oversized
mod Worker
mod Tasks
mod Overtaken
mod Session
mod Channel
mod Connections
mod Requests
mod Json
mod Scripts
mod Answers
mod Keys
mod Conversation
mod Primary
mod Shutdown
mod CommandLine
