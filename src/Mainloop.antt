-- ===== src/Mainloop.antt =====
-- src/mainloop.c: the lists of watches, timeouts and child processes, and the loop over them.
pub mod Linked
pub mod Lists
pub mod Registered
pub mod Time
pub mod Prepare
pub mod Prepared
pub mod Handle
pub mod Entries
pub mod Visited
pub mod Freed
pub mod Expired
pub mod Setup
mod Tests
