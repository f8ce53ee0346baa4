-- ===== src/Ustring/Offsets.antt =====
-- utf8_byte_offset(), Utf8SubstrBounds and utf8_char_offset() of glib/glibmm/ustring.cc. A pointer into
-- a string is its distance from the start together with the bytes from there on, up to the end.
pub mod Refinement
pub mod CStrings
use glibmm.Base.{
  ℕ, zero, suc, ◌+◌, List, [], ◌∷◌, Result, ok, err, undefined_behaviour, ltb, ◌==◌, if◌then◌else◌,
  length, drop,
}
use glibmm.StdString.{npos}
use glibmm.GlibUtf8.{GlibUtf8}

-- The byte offset and the byte count of a part of a string.
pub record Utf8SubstrBounds : Type 0 where
  pub i : ℕ
  pub n : ℕ

module _ (g : GlibUtf8) where
  -- The loop of the second overload; `p >= pend` is an empty rest, also where the last step led
  -- beyond `pend`.
  byte_offset_loop : List ℕ → ℕ → ℕ → ℕ
  byte_offset_loop rest p zero = p
  byte_offset_loop [] p (suc offset) = npos
  byte_offset_loop (b ∷ rest) p (suc offset) =
      byte_offset_loop (drop (g.skip b) (b ∷ rest)) (p + g.skip b) offset

  pub utf8_byte_offset : List ℕ → ℕ → ℕ
  utf8_byte_offset str offset = if offset == npos then npos else byte_offset_loop str 0 offset

  -- The first overload, on a C string: it stops on '\0', which stands at the end of the list. A step
  -- beyond the terminator makes the next read undefined.
  cstr_offset_loop : List ℕ → ℕ → ℕ → Result ℕ
  cstr_offset_loop rest p zero = ok p
  cstr_offset_loop [] p (suc offset) = ok npos
  cstr_offset_loop (b ∷ rest) p (suc offset) =
      let next = cstr_offset_loop (drop (g.skip b) (b ∷ rest)) (p + g.skip b) offset in
      if b == 0
      then ok npos
      else if ltb (length (b ∷ rest)) (g.skip b)
      then err undefined_behaviour
      else next

  pub cstr_byte_offset : List ℕ → ℕ → Result ℕ
  cstr_byte_offset str offset = if offset == npos then ok npos else cstr_offset_loop str 0 offset

  -- The constructor of Utf8SubstrBounds.
  pub utf8_substr_bounds : List ℕ → ℕ → ℕ → Utf8SubstrBounds
  utf8_substr_bounds str ci cn =
      let i = utf8_byte_offset str ci in
      record { i = i; n = if i == npos then npos else utf8_byte_offset (drop i str) cn }

  pub utf8_char_offset : List ℕ → ℕ → ℕ
  utf8_char_offset str offset = if offset == npos then npos else g.pointer_to_offset str offset
