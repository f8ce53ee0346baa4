-- ===== src/Ustring/Boundaries.antt =====
-- UTF-8 is self-synchronising: the encoding of one text stands in that of another only at the start of
-- a code point, and only where the code points agree.
use glibmm.Base.{
  ℕ, ◌+◌, ◌≡◌, ◌≢◌, refl, sym, ap, ◌∙◌, false, List, [], ◌∷◌, ◌++◌, append_assoc, arith, length,
  drop, All, ◌==◌, ==_eq, Bool-cases, inl, inr,
}
use glibmm.StdString.{starts_with, find_scan}
use glibmm.StdString.Laws.{starts_with-append, starts_with-eq}
use glibmm.Utf8.{IsUnichar, IsText, lead, trail, encode}
use glibmm.Utf8.Bounds.{IsCont, lead-not-IsCont}
use glibmm.Ustring.Unichar.{get_unichar_from_std_iterator, get_unichar-encode}

-- Two encodings that start alike are of the same code point.
same_char :
    (c d : ℕ) (xs ys : List ℕ)
    → IsUnichar c
    → IsUnichar d
    → lead c ∷ trail c ++ xs ≡ lead d ∷ trail d ++ ys
    → c ≡ d
same_char c d xs ys hc hd e =
    cc (get_unichar-encode c xs hc, get_unichar-encode d ys hd, ap get_unichar_from_std_iterator e)

starts_with_other :
    (c d : ℕ) (t s : List ℕ)
    → IsUnichar c
    → IsUnichar d
    → c ≢ d
    → starts_with (lead c ∷ trail c ++ t) (lead d ∷ trail d ++ s) ≡ false
starts_with_other c d t s hc hd ne =
    elim (Bool-cases (starts_with (lead c ∷ trail c ++ t) (lead d ∷ trail d ++ s))) [
      | inr e ↦ e
      | inl e ↦ absurd (
          ne (
            same_char c d (t ++ drop (length (lead c ∷ trail c ++ t)) (lead d ∷ trail d ++ s)) s hc
              hd
              (sym (
                starts_with-eq (lead c ∷ trail c ++ t) (lead d ∷ trail d ++ s) e
                ∙ ap (◌∷◌ (lead c)) (append_assoc (trail c) t _)))))
    ]

starts_with_ne : (c d : ℕ) (t s : List ℕ) → (c == d) ≡ false → starts_with (c ∷ t) (d ∷ s) ≡ false
unfolding starts_with
starts_with_ne c d t s e = rw e

-- At the start of a code point the bytes match exactly if the code points do.
pub starts_with-encode :
    (t s : List ℕ) → IsText t → IsText s → starts_with (encode t) (encode s) ≡ starts_with t s
starts_with-encode [] s ht hs = unfold starts_with in refl
starts_with-encode (c ∷ t) [] ht hs = unfold starts_with in refl
starts_with-encode (c ∷ t) (d ∷ s) (hc, ht) (hd, hs) = elim (Bool-cases (c == d)) [
  | inl e ↦ rw (==_eq c d e) (
      starts_with-append (lead d ∷ trail d) (encode t) (encode s)
      ∙ starts_with-encode t s ht hs
      ∙ sym (starts_with-append (d ∷ []) t s))
  | inr e ↦
      starts_with_other c d (encode t) (encode s) hc hd (ground arith)
      ∙ sym (starts_with_ne c d t s e)
]

-- No match starts at a continuation byte.
pub starts_with_cont :
    (c b : ℕ) (t s : List ℕ) → IsUnichar c → IsCont b → starts_with (encode (c ∷ t)) (b ∷ s) ≡ false
starts_with_cont c b t s h k =
    starts_with_ne (lead c) b (trail c ++ encode t) s (ground (arith, lead-not-IsCont c h))

pub find_scan_cont :
    (c : ℕ) (t bs s : List ℕ) (pos : ℕ)
    → IsUnichar c
    → All IsCont bs
    → find_scan (encode (c ∷ t)) (bs ++ s) pos ≡ find_scan (encode (c ∷ t)) s (pos + length bs)
unfolding find_scan
find_scan_cont c t [] s pos h k = ap (find_scan (encode (c ∷ t)) s) (omega arith)
find_scan_cont c t (b ∷ bs) s pos h (kb, k) =
    rw (starts_with_cont c b t (bs ++ s) h kb)
      (find_scan_cont c t bs s (pos + 1) h k ∙ ap (find_scan (encode (c ∷ t)) s) (omega arith))
