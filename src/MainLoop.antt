-- ===== src/MainLoop.antt =====
-- glib/glibmm/main.cc: the sources of the main loop.
pub mod Timeouts
pub mod Query
pub mod Sources
