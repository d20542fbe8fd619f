-- ===== src/Util.antt =====
-- The conversions and the pattern matcher of util.c.
pub mod Number
pub mod Memory
pub mod Glob
