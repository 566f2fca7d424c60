-- ===== src/Fancy.antt =====
-- fancy/: the programs that a finished Yalnix starts, as programs on the system calls.
pub mod Init
pub mod Console
pub mod Shell
