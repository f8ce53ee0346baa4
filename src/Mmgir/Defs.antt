-- ===== src/Mmgir/Defs.antt =====
-- The definitions that tools/mmgir/gen_defs.cc prints.
pub mod Schema
pub mod Reader
pub mod Lines
pub mod Callables
pub mod Objects
pub mod Enums
pub mod Signals
mod Runs
