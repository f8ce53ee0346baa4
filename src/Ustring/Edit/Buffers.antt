-- ===== src/Ustring/Edit/Buffers.antt =====
-- The overloads that take a C string and a number of code points.
use glibmm.Base.{
  ℕ, ◌≡◌, List, arith, length, take, drop, leb, if◌then◌else◌, ok, err, length_error, map_ok,
}
use glibmm.StdString
use glibmm.StdString.{npos}
use glibmm.Utf8.{IsText, encode}
use glibmm.Utf8.Bounds.{Fits, length-encode-ge, length-encode-take-drop, take-encode}
use glibmm.GlibUtf8.{GlibUtf8, IsGlibUtf8}
use glibmm.Ustring.Offsets.CStrings.{NoNull, cstr_byte_offset-encode}
use glibmm.Ustring.Offsets.Refinement.{in_range, take-utf8_byte_offset, drop-utf8_byte_offset}
use glibmm.Ustring.Edit.{from_cstr_n, insert_cstr_n}
use glibmm.Ustring.Edit.Refinement.{encode-three}

module _ (g : GlibUtf8) (laws : IsGlibUtf8 g) where
  -- The first `n` code points of a C string; a count beyond its end throws `length_error`.
  pub from_cstr_n-encode :
      (cs : List ℕ) (n : ℕ)
      → IsText cs
      → NoNull cs
      → Fits cs
      → from_cstr_n g (encode cs) n
        ≡ (if leb n (length cs) then ok (encode (take n cs)) else err length_error)
  unfolding from_cstr_n StdString.from_buffer
  from_cstr_n-encode cs n t z f =
      rw (cstr_byte_offset-encode g laws cs n t z f)
        (ground (arith, take-encode n cs, length-encode-take-drop n cs))

  -- Inserting the first `n` code points of a C string before the `i`-th: a position beyond the end is
  -- refused first, then a count beyond the end of the C string.
  pub insert_cstr_n-encode :
      (cs ds : List ℕ) (i n : ℕ)
      → IsText cs
      → Fits cs
      → IsText ds
      → NoNull ds
      → Fits ds
      → insert_cstr_n g (encode cs) i (encode ds) n
        ≡ map_ok encode (StdString.insert_buffer cs i ds (if leb n (length ds) then n else npos))
  unfolding insert_cstr_n StdString.insert_buffer
  insert_cstr_n-encode cs ds i n t f u z k =
      rw
        (
          cstr_byte_offset-encode g laws ds n u z k,
          in_range g laws cs i t f,
          take-utf8_byte_offset g laws cs i t f,
          drop-utf8_byte_offset g laws cs i t f,
        )
        (ground (
          arith,
          take-encode n ds,
          length-encode-take-drop n ds,
          length-encode-ge ds,
          encode-three (take i cs) (take n ds) (drop i cs),
        ))
