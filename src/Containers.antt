-- ===== src/Containers.antt =====
-- Arrays and lists that cross the C boundary, glib/glibmm/vectorutils.h, vectorutils.cc and the
-- ownership and traits of containerhandle_shared.h.
pub mod Memory
pub mod Copies
pub mod Arrays
pub mod Lists
pub mod Agreement
mod Runs
