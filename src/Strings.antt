-- ===== src/Strings.antt =====
-- t_string.c: the commands on strings, by families.
pub mod Basic
pub mod Range
pub mod Counter
pub mod Bit
pub mod Sound
pub mod Totals
