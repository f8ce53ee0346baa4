-- ===== src/Ustring/Offsets/CStrings.antt =====
-- utf8_byte_offset() on a C string.
use glibmm.Base.{
  ℕ, zero, suc, ◌+◌, ◌≡◌, ◌≢◌, List, [], ◌∷◌, arith, length, length-append, take, leb,
  if◌then◌else◌, ok, All,
}
use glibmm.StdString.{npos}
use glibmm.Utf8.{IsText, lead, trail, encode}
use glibmm.Utf8.Bounds.{Fits, length-encode-ge}
use glibmm.GlibUtf8.{GlibUtf8, IsGlibUtf8}
use glibmm.Ustring.Offsets.{cstr_offset_loop, cstr_byte_offset}
use glibmm.Ustring.Offsets.Refinement.{drop_char}

-- A C string holds no null character.
abbrev pub NoNull : List ℕ → Type 0
NoNull = All (λ c. c ≢ 0)

lead-ne-zero : (c : ℕ) → c ≢ 0 → lead c ≢ 0
unfolding lead
lead-ne-zero c h = ground arith

module _ (g : GlibUtf8) (laws : IsGlibUtf8 g) where
  cstr_offset_loop-encode :
      (cs : List ℕ) (p k : ℕ)
      → IsText cs
      → NoNull cs
      → cstr_offset_loop g (encode cs) p k
        ≡ ok (if leb k (length cs) then p + length (encode (take k cs)) else npos)
  unfolding cstr_offset_loop
  cstr_offset_loop-encode [] p zero t z = ground arith
  cstr_offset_loop-encode [] p (suc k) t z = ground arith
  cstr_offset_loop-encode (c ∷ cs) p zero t z = ground arith
  cstr_offset_loop-encode (c ∷ cs) p (suc k) (h, t) (nz, z) =
      rw (drop_char g laws c (encode cs) h, cstr_offset_loop-encode cs (p + g.skip (lead c)) k t z)
        (ground (
          arith,
          laws.skip-lead c h,
          lead-ne-zero c nz,
          length-append (trail c) (encode (take k cs)),
          length-append (trail c) (encode cs),
        ))

  pub cstr_byte_offset-encode :
      (cs : List ℕ) (k : ℕ)
      → IsText cs
      → NoNull cs
      → Fits cs
      → cstr_byte_offset g (encode cs) k
        ≡ ok (if leb k (length cs) then length (encode (take k cs)) else npos)
  unfolding cstr_byte_offset
  cstr_byte_offset-encode cs k t z f =
      ground (arith, cstr_offset_loop-encode cs 0 k t z, length-encode-ge cs)
