-- ===== src/Ustring/Search/Positions.antt =====
-- Where a byte position and a code point position name the same place of a text.
use glibmm.Base.{
  ℕ, ◌+◌, ◌≤◌, ◌≡◌, sym, ap, ◌∙◌, ◌⊎◌, inl, inr, List, [], ◌∷◌, ◌++◌, append_assoc, arith, length,
  length-append, take, take-length-append,
}
use glibmm.StdString.{npos}
use glibmm.Utf8.{IsText, trail, encode}
use glibmm.Utf8.Bounds.{Fits, encode-append}
use glibmm.GlibUtf8.{GlibUtf8, IsGlibUtf8}
use glibmm.Ustring.Offsets.{utf8_char_offset}
use glibmm.Ustring.Offsets.Refinement.{utf8_char_offset-size, utf8_char_offset-npos}

-- The result of a search over the bytes, and that of a search over the code points.
abbrev pub Corresponds : List ℕ → ℕ → ℕ → Type 0
Corresponds cs b k =
    ((b ≡ npos) × (k ≡ npos)) ⊎ ((k ≤ length cs) × (b ≡ length (encode (take k cs))))

pub Corresponds-prefix :
    (pre s : List ℕ) → Corresponds (pre ++ s) (length (encode pre)) (length pre)
Corresponds-prefix pre s = inr (
  omega (arith, length-append pre s),
  ap (λ t. length (encode t)) (sym (take-length-append pre s)),
)

pub prefix_snoc : (pre : List ℕ) (d : ℕ) (s : List ℕ) → (pre ++ d ∷ []) ++ s ≡ pre ++ d ∷ s
prefix_snoc pre d s = append_assoc pre (d ∷ []) s

pub length-encode-snoc :
    (pre : List ℕ) (d : ℕ)
    → length (encode (pre ++ d ∷ [])) ≡ length (encode pre) + 1 + length (trail d)
length-encode-snoc pre d = omega (
  arith,
  ap length (encode-append pre (d ∷ [])),
  length-append (encode pre) (encode (d ∷ [])),
  length-append (trail d) [],
)

pub length-snoc : (pre : List ℕ) (d : ℕ) → length (pre ++ d ∷ []) ≡ length pre + 1
length-snoc pre d = length-append pre (d ∷ [])

module _ (g : GlibUtf8) (laws : IsGlibUtf8 g) where
  pub utf8_char_offset-Corresponds :
      (cs : List ℕ) (b k : ℕ)
      → IsText cs
      → Fits cs
      → Corresponds cs b k
      → utf8_char_offset g (encode cs) b ≡ k
  utf8_char_offset-Corresponds cs b k t f (inl (eb, ek)) =
      ap (utf8_char_offset g (encode cs)) eb ∙ utf8_char_offset-npos g laws (encode cs) ∙ sym ek
  utf8_char_offset-Corresponds cs b k t f (inr (h, e)) =
      ap (utf8_char_offset g (encode cs)) e ∙ utf8_char_offset-size g laws cs k t f h
