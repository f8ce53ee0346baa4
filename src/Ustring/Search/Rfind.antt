-- ===== src/Ustring/Search/Rfind.antt =====
-- rfind() over the bytes of a text finds what a search over its code points finds.
use glibmm.Base.{
  ℕ, zero, suc, ◌+◌, ◌≡◌, refl, ap, ◌∙◌, inl, inr, List, [], ◌∷◌, ◌++◌, append-nil, true, false,
  ◌&&◌, Bool, arith, length, take, leb, if◌then◌else◌, Bool-cases, All, length-append,
}
use glibmm.StdString
use glibmm.StdString.{npos, starts_with, rfind_scan}
use glibmm.Utf8.{IsUnichar, IsText, lead, trail, encode}
use glibmm.Utf8.Bounds.{Fits, IsCont, trail-IsCont, encode-append}
use glibmm.GlibUtf8.{GlibUtf8, IsGlibUtf8}
use glibmm.Ustring.Boundaries.{starts_with-encode, starts_with_cont}
use glibmm.Ustring.Offsets.{utf8_byte_offset}
use glibmm.Ustring.Offsets.Refinement.{utf8_byte_offset-encode}
use glibmm.Ustring.Search.{rfind, rfind_unichar}
use glibmm.Ustring.Search.Positions.{
  Corresponds, Corresponds-prefix, prefix_snoc, length-encode-snoc, length-snoc,
  utf8_char_offset-Corresponds,
}

-- A limit on byte positions and one on code point positions that agree on the places of a text from
-- the prefix on.
abbrev SameLimit : List ℕ → ℕ → ℕ → Type 0
SameLimit cs bl cl =
    (pre s : List ℕ) → cs ≡ pre ++ s → leb (length (encode pre)) bl ≡ leb (length pre) cl

rfind_scan_step :
    (t : List ℕ) (d : ℕ) (s : List ℕ) (pos limit found : ℕ)
    → rfind_scan t (d ∷ s) pos limit found
      ≡ rfind_scan t s
          (pos + 1)
          limit
          (if leb pos limit && starts_with t (d ∷ s) then pos else found)
unfolding rfind_scan
rfind_scan_step t d s pos limit found = refl

rfind_scan_nil :
    (c : ℕ) (t : List ℕ) (pos limit found : ℕ) → rfind_scan (c ∷ t) [] pos limit found ≡ found
unfolding rfind_scan starts_with
rfind_scan_nil c t pos limit found = ground arith

rfind_scan_cont :
    (c : ℕ) (t bs s : List ℕ) (pos limit found : ℕ)
    → IsUnichar c
    → All IsCont bs
    → rfind_scan (encode (c ∷ t)) (bs ++ s) pos limit found
      ≡ rfind_scan (encode (c ∷ t)) s (pos + length bs) limit found
rfind_scan_cont c t [] s pos limit found h k =
    ap (λ p. rfind_scan (encode (c ∷ t)) s p limit found) (omega arith)
rfind_scan_cont c t (b ∷ bs) s pos limit found h (kb, k) =
    rfind_scan_step (encode (c ∷ t)) b (bs ++ s) pos limit found
    ∙ ap (rfind_scan (encode (c ∷ t)) (bs ++ s) (pos + 1) limit) (no_match (leb pos limit))
    ∙ rfind_scan_cont c t bs s (pos + 1) limit found h k
    ∙ ap (λ p. rfind_scan (encode (c ∷ t)) s p limit found) (omega arith)
  where
    no_match :
        (l : Bool)
        → (if l && starts_with (encode (c ∷ t)) (b ∷ (bs ++ s)) then pos else found) ≡ found
    no_match true = rw (starts_with_cont c b t (bs ++ s) h kb)
    no_match false = refl

rfind_scan_char :
    (c : ℕ) (t : List ℕ) (d : ℕ) (s : List ℕ) (pos limit found : ℕ)
    → IsText (c ∷ t)
    → IsText (d ∷ s)
    → rfind_scan (encode (c ∷ t)) (encode (d ∷ s)) pos limit found
      ≡ rfind_scan
          (encode (c ∷ t))
          (encode s)
          (pos + 1 + length (trail d))
          limit
          (if leb pos limit && starts_with (c ∷ t) (d ∷ s) then pos else found)
rfind_scan_char c t d s pos limit found (hc, ht) (hd, hs) =
    rfind_scan_step (encode (c ∷ t)) (lead d) (trail d ++ encode s) pos limit found
    ∙ rfind_scan_cont c t (trail d) (encode s) (pos + 1) limit _ hc (trail-IsCont d hd)
    ∙ ap
        (λ b.
          rfind_scan (encode (c ∷ t)) (encode s) (pos + 1 + length (trail d)) limit
            (if leb pos limit && b then pos else found))
        (starts_with-encode (c ∷ t) (d ∷ s) (hc, ht) (hd, hs))

Corresponds-if :
    (cs : List ℕ) (test : Bool) (b k b' k' : ℕ)
    → Corresponds cs b k
    → Corresponds cs b' k'
    → Corresponds cs (if test then b else b') (if test then k else k')
Corresponds-if cs true b k b' k' h h' = h
Corresponds-if cs false b k b' k' h h' = h'

rfind_scan-Corresponds :
    (c : ℕ) (t pre s : List ℕ) (bl cl bf cf : ℕ)
    → IsText (c ∷ t)
    → IsText s
    → SameLimit (pre ++ s) bl cl
    → Corresponds (pre ++ s) bf cf
    → Corresponds
        (pre ++ s)
        (rfind_scan (encode (c ∷ t)) (encode s) (length (encode pre)) bl bf)
        (rfind_scan (c ∷ t) s (length pre) cl cf)
rfind_scan-Corresponds c t pre [] bl cl bf cf ht hs l h =
    rw
      (
        rfind_scan_nil (lead c) (trail c ++ encode t) (length (encode pre)) bl bf,
        rfind_scan_nil c t (length pre) cl cf,
      )
      h
rfind_scan-Corresponds c t pre (d ∷ s) bl cl bf cf ht (hd, hs) l h =
    rw
      (
        rfind_scan_char c t d s (length (encode pre)) bl bf ht (hd, hs),
        rfind_scan_step (c ∷ t) d s (length pre) cl cf,
        l pre (d ∷ s) refl,
        ← length-encode-snoc pre d,
        ← length-snoc pre d,
        ← prefix_snoc pre d s,
      )
      (rfind_scan-Corresponds c t (pre ++ d ∷ []) s bl cl _ _ ht hs (rw (prefix_snoc pre d s) l) (
        rw (prefix_snoc pre d s) (
          Corresponds-if (pre ++ d ∷ s) (leb (length pre) cl && starts_with (c ∷ t) (d ∷ s)) _ _ _ _
            (Corresponds-prefix pre (d ∷ s)) h)))

encode_limit :
    (pre s : List ℕ) (i : ℕ)
    → leb (length (encode pre)) (length (encode (take i (pre ++ s)))) ≡ leb (length pre) i
encode_limit [] s i = ground arith
encode_limit (p ∷ pre) s zero = ground arith
encode_limit (p ∷ pre) s (suc i) = ground (
  arith,
  encode_limit pre s i,
  length-append (trail p) (encode pre),
  length-append (trail p) (encode (take i (pre ++ s))),
)

module _ (g : GlibUtf8) (laws : IsGlibUtf8 g) where
  pub utf8_byte_offset-SameLimit :
      (cs : List ℕ) (i : ℕ)
      → IsText cs
      → Fits cs
      → SameLimit cs (utf8_byte_offset g (encode cs) i) i
  utf8_byte_offset-SameLimit cs i t f pre s e =
      rw (utf8_byte_offset-encode g laws cs i t f) (elim (Bool-cases (leb i (length cs))) [
        | inl inside ↦ rw (inside, e) (encode_limit pre s i)
        | inr beyond ↦ rw beyond (
            ground (
              arith,
              ap length e,
              length-append pre s,
              ap (λ t. length (encode t)) e,
              ap length (encode-append pre s),
              length-append (encode pre) (encode s),
            ))
      ])

  -- The last occurrence that starts at or before the `i`-th code point, counted in code points; `npos`
  -- if there is none. An `i` beyond the end sets no limit.
  pub rfind-encode :
      (cs : List ℕ) (d : ℕ) (ds : List ℕ) (i : ℕ)
      → IsText cs
      → Fits cs
      → IsText (d ∷ ds)
      → rfind g (encode cs) (encode (d ∷ ds)) i ≡ StdString.rfind cs (d ∷ ds) i
  unfolding rfind StdString.rfind
  rfind-encode cs d ds i t f u = utf8_char_offset-Corresponds g laws cs _ _ t f (
      rfind_scan-Corresponds d ds [] cs _ i npos npos u t (utf8_byte_offset-SameLimit cs i t f)
        (inl (refl, refl)))

  rfind_unichar-rfind :
      (s : List ℕ) (uc i : ℕ)
      → IsUnichar uc
      → rfind_unichar g s uc i ≡ rfind g s (encode (uc ∷ [])) i
  unfolding rfind rfind_unichar
  rfind_unichar-rfind s uc i h = rw (laws.unichar_to_utf8-eq uc h, append-nil)

  -- The same for a single code point.
  pub rfind_unichar-encode :
      (cs : List ℕ) (uc i : ℕ)
      → IsText cs
      → Fits cs
      → IsUnichar uc
      → rfind_unichar g (encode cs) uc i ≡ StdString.rfind cs (uc ∷ []) i
  rfind_unichar-encode cs uc i t f h =
      rfind_unichar-rfind (encode cs) uc i h ∙ rfind-encode cs uc [] i t f (h, tt)
