-- ===== src/Mmgir.antt =====
-- tools/mmgir: the generator of .defs files from GIR.
pub mod Names
pub mod Schema
pub mod Bitfields
pub mod TypeCasts
pub mod TypeResolver
pub mod Defs
mod Runs
