-- ===== src/Util.antt =====
-- src/util.c.
pub mod Memory
pub mod Strings
pub mod Copying
pub mod Collect
pub mod Args
pub mod Resize
