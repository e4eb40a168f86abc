-- ===== src/Main/Cleanup.antt =====
-- The exit handler of a process whose signal handlers could not be set.
use redshell.Alias.{Alias}
