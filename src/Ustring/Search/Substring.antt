-- ===== src/Ustring/Search/Substring.antt =====
-- find() over the bytes of a text finds what a search over its code points finds.
use glibmm.Base.{
  ℕ, ◌+◌, ◌≤◌, ◌≡◌, refl, ◌∙◌, inl, inr, List, [], ◌∷◌, ◌++◌, true, false, append-nil, arith,
  length, take, drop, leb, Bool-cases, All-drop, take-append-drop, length-take, leb→le,
}
use glibmm.StdString
use glibmm.StdString.{npos, starts_with, find_scan}
use glibmm.StdString.Laws.{find_inside, find_beyond}
use glibmm.Utf8.{IsUnichar, IsText, lead, trail, encode}
use glibmm.Utf8.Bounds.{Fits, trail-IsCont}
use glibmm.GlibUtf8.{GlibUtf8, IsGlibUtf8}
use glibmm.Ustring.Boundaries.{starts_with-encode, find_scan_cont}
use glibmm.Ustring.Offsets.{utf8_byte_offset}
use glibmm.Ustring.Offsets.Refinement.{in_range, drop-utf8_byte_offset, utf8_byte_offset-encode}
use glibmm.Ustring.Search.{find, find_unichar}
use glibmm.Ustring.Search.Positions.{
  Corresponds, Corresponds-prefix, prefix_snoc, length-encode-snoc, length-snoc,
  utf8_char_offset-Corresponds,
}

find_scan_hit : (t s : List ℕ) (pos : ℕ) → starts_with t s ≡ true → find_scan t s pos ≡ pos
unfolding find_scan
find_scan_hit t [] pos e = rw e
find_scan_hit t (d ∷ s) pos e = rw e

find_scan_miss :
    (t : List ℕ) (d : ℕ) (s : List ℕ) (pos : ℕ)
    → starts_with t (d ∷ s) ≡ false
    → find_scan t (d ∷ s) pos ≡ find_scan t s (pos + 1)
unfolding find_scan
find_scan_miss t d s pos e = rw e

find_scan_miss_nil : (t : List ℕ) (pos : ℕ) → starts_with t [] ≡ false → find_scan t [] pos ≡ npos
unfolding find_scan
find_scan_miss_nil t pos e = rw e

-- A text that does not start another is not the empty one.
nonempty : (t s : List ℕ) → starts_with t s ≡ false → (c : ℕ) × (t' : List ℕ) × (t ≡ c ∷ t')
unfolding starts_with
nonempty [] s e = cc
nonempty (c ∷ t) s e = (c, t, refl)

find_scan_char :
    (t : List ℕ) (d : ℕ) (s : List ℕ) (pos : ℕ)
    → IsText t
    → IsUnichar d
    → IsText s
    → starts_with t (d ∷ s) ≡ false
    → find_scan (encode t) (encode (d ∷ s)) pos
      ≡ find_scan (encode t) (encode s) (pos + 1 + length (trail d))
find_scan_char [] d s pos ht hd hs e = let (c, t', e') = nonempty [] (d ∷ s) e in cc
find_scan_char (c ∷ t) d s pos (hc, ht) hd hs e =
    find_scan_miss (encode (c ∷ t)) (lead d) (_) pos
      (starts_with-encode (c ∷ t) (d ∷ s) (hc, ht) (hd, hs) ∙ e)
    ∙ find_scan_cont c t (trail d) (encode s) (pos + 1) hc (trail-IsCont d hd)

find_scan-Corresponds :
    (t pre s : List ℕ)
    → IsText t
    → IsText s
    → Corresponds
        (pre ++ s)
        (find_scan (encode t) (encode s) (length (encode pre)))
        (find_scan t s (length pre))
find_scan-Corresponds t pre [] ht hs = elim (Bool-cases (starts_with t [])) [
  | inl e ↦
      rw
        (
          find_scan_hit t [] (length pre) e,
          find_scan_hit (encode t) [] (length (encode pre)) (starts_with-encode t [] ht hs ∙ e),
        )
        (Corresponds-prefix pre [])
  | inr e ↦ inl (
    find_scan_miss_nil (encode t) _ (starts_with-encode t [] ht hs ∙ e),
    find_scan_miss_nil t _ e,
  )
]
find_scan-Corresponds t pre (d ∷ s) ht (hd, hs) = elim (Bool-cases (starts_with t (d ∷ s))) [
  | inl e ↦
      rw
        (
          find_scan_hit t (d ∷ s) (length pre) e,
          find_scan_hit (encode t) (encode (d ∷ s)) (length (encode pre))
              (starts_with-encode t (d ∷ s) ht (hd, hs) ∙ e),
        )
        (Corresponds-prefix pre (d ∷ s))
  | inr e ↦
      rw
        (
          find_scan_miss t d s (length pre) e,
          find_scan_char t d s (length (encode pre)) ht hd hs e,
          ← length-encode-snoc pre d,
          ← length-snoc pre d,
          ← prefix_snoc pre d s,
        )
        (find_scan-Corresponds t (pre ++ d ∷ []) s ht hs)
]

find-Corresponds :
    (cs ds : List ℕ) (i : ℕ)
    → IsText cs
    → IsText ds
    → i ≤ length cs
    → Corresponds cs
        (find_scan (encode ds) (encode (drop i cs)) (length (encode (take i cs))))
        (find_scan ds (drop i cs) i)
find-Corresponds cs ds i t u h =
    let c = find_scan-Corresponds ds (take i cs) (drop i cs) u (All-drop _ i cs t) in
    let e : length (take i cs) ≡ i = omega (arith, length-take i cs) in
    rw (take-append-drop i cs, e) at c

module _ (g : GlibUtf8) (laws : IsGlibUtf8 g) where
  -- The first occurrence at or behind the `i`-th code point, counted in code points; `npos` if there is
  -- none or if `i` lies beyond the end.
  pub find-encode :
      (cs ds : List ℕ) (i : ℕ)
      → IsText cs
      → Fits cs
      → IsText ds
      → find g (encode cs) (encode ds) i ≡ StdString.find cs ds i
  unfolding find
  find-encode cs ds i t f u =
      utf8_char_offset-Corresponds g laws cs _ _ t f (elim (Bool-cases (leb i (length cs))) [
        | inl inside ↦
            rw
              (
                find_inside cs ds i inside,
                find_inside (encode cs) (encode ds) (utf8_byte_offset g (encode cs) i)
                    (in_range g laws cs i t f ∙ inside),
                drop-utf8_byte_offset g laws cs i t f,
                utf8_byte_offset-encode g laws cs i t f,
                inside,
              )
              (find-Corresponds cs ds i t u (leb→le i (length cs) inside))
        | inr beyond ↦ inl (
          find_beyond (encode cs) (encode ds) (utf8_byte_offset g (encode cs) i)
              (in_range g laws cs i t f ∙ beyond),
          find_beyond cs ds i beyond,
        )
      ])

  find_unichar-find :
      (s : List ℕ) (uc i : ℕ) → IsUnichar uc → find_unichar g s uc i ≡ find g s (encode (uc ∷ [])) i
  unfolding find find_unichar
  find_unichar-find s uc i h = rw (laws.unichar_to_utf8-eq uc h, append-nil)

  -- The same for a single code point.
  pub find_unichar-encode :
      (cs : List ℕ) (uc i : ℕ)
      → IsText cs
      → Fits cs
      → IsUnichar uc
      → find_unichar g (encode cs) uc i ≡ StdString.find cs (uc ∷ []) i
  find_unichar-encode cs uc i t f h =
      find_unichar-find (encode cs) uc i h ∙ find-encode cs (uc ∷ []) i t f (h, tt)
