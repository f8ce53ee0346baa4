-- ===== src/Ustring/Search/FirstOf.antt =====
-- find_first_of() and find_first_not_of() on a text.
use glibmm.Base.{
  ℕ, zero, suc, ◌+◌, ◌≤◌, ◌≡◌, refl, Bool, true, List, [], ◌∷◌, arith, length, drop, All-drop, ◌==◌,
  some, Bool-cases, inl, inr, length-append,
}
use glibmm.StdString
use glibmm.StdString.{npos, hits, contains, first_of_scan}
use glibmm.Utf8.{IsText, trail, encode}
use glibmm.Utf8.Bounds.{Fits, length-encode-take-drop}
use glibmm.GlibUtf8.{GlibUtf8, IsGlibUtf8}
use glibmm.Ustring.Offsets.{utf8_byte_offset}
use glibmm.Ustring.Offsets.CStrings.{NoNull}
use glibmm.Ustring.Offsets.Refinement.{drop_char, drop-utf8_byte_offset, beyond_end}
use glibmm.Ustring.Search.{
  first_of_loop, utf8_find_first_of, first_not_loop, find_first_not_of_unichar,
}

module _ (g : GlibUtf8) (laws : IsGlibUtf8 g) where
  first_of_loop-encode :
      (set : List ℕ) (negate : Bool) (cs : List ℕ) (fuel offset : ℕ)
      → IsText cs
      → length (encode cs) ≤ fuel
      → first_of_loop g fuel set negate (encode cs) offset
        ≡ some (first_of_scan set negate cs offset)
  unfolding first_of_loop first_of_scan
  first_of_loop-encode set negate [] zero offset t h = refl
  first_of_loop-encode set negate [] (suc fuel) offset t h = refl
  first_of_loop-encode set negate (c ∷ cs) zero offset t h = absurd (omega arith)
  first_of_loop-encode set negate (c ∷ cs) (suc fuel) offset (hc, t) h =
      rw
        (
          drop_char g laws c (encode cs) hc,
          laws.get_char-encode c (encode cs) hc,
          first_of_loop-encode set negate cs fuel (offset + 1) t
              (omega (arith, length-append (trail c) (encode cs))),
        )
        (ground arith)

  -- For a set without U+0000, the loop ends, and its result is the first code point at or behind the
  -- `i`-th that is in the set (or outside of it), counted in code points; `npos` if there is none.
  pub utf8_find_first_of-encode :
      (cs set : List ℕ) (negate : Bool) (i : ℕ)
      → IsText cs
      → Fits cs
      → IsText set
      → NoNull set
      → utf8_find_first_of g (encode cs) i (encode set) (some (length (encode set))) negate
        ≡ some (StdString.find_first_of cs set negate i)
  unfolding utf8_find_first_of StdString.find_first_of
  utf8_find_first_of-encode cs set negate i t f u z =
      elim (Bool-cases (utf8_byte_offset g (encode cs) i == npos)) [
        | inl beyond ↦ rw (beyond, beyond_end g laws cs i t f beyond)
        | inr inside ↦
            rw (inside, laws.to_ucs4_fast-encode set u z, drop-utf8_byte_offset g laws cs i t f)
              (first_of_loop-encode set negate (drop i cs) (length (encode cs)) i
                (All-drop _ i cs t) (omega (arith, length-encode-take-drop i cs)))
      ]

  first_not_loop-encode :
      (uc : ℕ) (cs : List ℕ) (fuel i : ℕ)
      → IsText cs
      → length (encode cs) ≤ fuel
      → first_not_loop g fuel uc (encode cs) i ≡ some (first_of_scan (uc ∷ []) true cs i)
  unfolding first_not_loop first_of_scan hits contains
  first_not_loop-encode uc [] zero i t h = refl
  first_not_loop-encode uc [] (suc fuel) i t h = refl
  first_not_loop-encode uc (c ∷ cs) zero i t h = absurd (omega arith)
  first_not_loop-encode uc (c ∷ cs) (suc fuel) i (hc, t) h =
      rw
        (
          drop_char g laws c (encode cs) hc,
          laws.get_char-encode c (encode cs) hc,
          first_not_loop-encode uc cs fuel (i + 1) t
              (omega (arith, length-append (trail c) (encode cs))),
        )
        (ground arith)

  -- The separate loop for one code point agrees with the search for what is outside of its set.
  pub find_first_not_of_unichar-encode :
      (cs : List ℕ) (uc i : ℕ)
      → IsText cs
      → Fits cs
      → find_first_not_of_unichar g (encode cs) uc i
        ≡ some (StdString.find_first_of cs (uc ∷ []) true i)
  unfolding find_first_not_of_unichar StdString.find_first_of
  find_first_not_of_unichar-encode cs uc i t f =
      elim (Bool-cases (utf8_byte_offset g (encode cs) i == npos)) [
        | inl beyond ↦ rw (beyond, beyond_end g laws cs i t f beyond)
        | inr inside ↦
            rw (inside, drop-utf8_byte_offset g laws cs i t f)
              (first_not_loop-encode uc (drop i cs) (length (encode cs)) i (All-drop _ i cs t)
                (omega (arith, length-encode-take-drop i cs)))
      ]
