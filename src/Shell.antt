-- ===== src/Shell.antt =====
-- sevmgr/ui/cmdline/sevmgr.cpp: the interactive shell.
pub mod Platform
pub mod Tokens
pub mod Dates
pub mod Commands
pub mod Printing
pub mod Completions
pub mod Options
pub mod Whole
