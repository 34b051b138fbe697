-- ===== src/Registry.antt =====
-- src/oddjob_dbus.c: the tree of services, objects, interfaces and methods that the daemon offers on
-- the bus, and the operations on it.
pub mod Table
pub mod Bus
pub mod Types
pub mod Lookup
pub mod Add
pub mod Remove
pub mod Listeners
pub mod Attached
pub mod Life
mod Tests
