-- ===== src/Link.antt =====
-- The two sides joined: what the host writes and the worker reads, and the other way round.
pub mod ToWorker
pub mod ToHost
pub mod Recycled
pub mod PingPong
pub mod Oversized
pub mod Arguments
pub mod Documents
pub mod Script
pub mod Replies
pub mod Answer
pub mod Shutdown
pub mod CommandLine
pub mod Conversation
pub mod Overtaken
pub mod Session
pub mod Requests
