-- ===== src/Runtime.antt =====
-- src/runtime.rs: the handlers that answer Telegram's updates. They share the configuration, the
-- rooms, the access control and the writer thread, and each of them may pause at an `await`, where
-- other handlers run.
pub mod ConfigEdits
pub mod Replies
pub mod Workers
pub mod World
pub mod Samples
pub mod Approval
pub mod Routing
pub mod Prompt
pub mod Actions
pub mod Messages
pub mod System
