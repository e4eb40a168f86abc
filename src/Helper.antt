-- ===== src/Helper.antt =====
-- src/helper.c: expansion of a line by the C library's `wordexp` and by the aliases.
pub mod Words
pub mod Aliases
