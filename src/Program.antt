-- ===== src/Program.antt =====
-- src/main.cpp: the command line, and the calls that the program makes of the other parts.
pub mod Args
pub mod Options
pub mod Demo
pub mod Run
