-- ===== src/Tests.antt =====
-- Instances of the theorems at concrete inputs, and runs of the model.
mod Texts
mod Strings
mod Sources
mod Handlers
mod Properties
