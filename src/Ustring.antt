-- ===== src/Ustring.antt =====
-- glib/glibmm/ustring.cc and ustring.h: a string of bytes whose operations count code points.
pub mod Unichar
pub mod Offsets
pub mod Edit
pub mod Boundaries
pub mod Search
pub mod Compose
pub mod Iterator
