-- ===== src/Dispatch.antt =====
-- src/oddjob_dbus.c: what happens to a message that arrives on one of the connections.
pub mod Message
pub mod Guess
pub mod Filter
pub mod Serving
pub mod Arguments
pub mod Resolve
pub mod Judged
pub mod Duplicate
pub mod Copied
pub mod Reach
pub mod Offered
pub mod Iterate
pub mod Reply
pub mod Client
pub mod Relay
pub mod Called
pub mod Exchange
mod Tests
mod LifeTests
mod IterateTests
mod ReplyTests
