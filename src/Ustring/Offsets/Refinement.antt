-- ===== src/Ustring/Offsets/Refinement.antt =====
-- On a text, byte offsets are the sizes of encoded parts.
use glibmm.Base.{
  ℕ, zero, suc, ◌+◌, ◌≤◌, ◌≡◌, refl, sym, ap, ◌∙◌, List, [], ◌∷◌, ◌++◌, arith, length,
  length-append, take, drop, drop-length-append, leb, ◌==◌, if◌then◌else◌, All-drop, All-take,
  length-take, take_all, drop_all, Bool-cases, le→leb, refl, true, inl, inr,
}
use glibmm.StdString.{npos}
use glibmm.Utf8.{IsUnichar, IsText, lead, trail, encode}
use glibmm.Utf8.Bounds.{
  length-encode-ge, length-encode-take-drop, encode-take-drop, take-encode, drop-encode, Fits,
  Fits-drop,
}
use glibmm.GlibUtf8.{GlibUtf8, IsGlibUtf8}
use glibmm.Ustring.Offsets.{
  byte_offset_loop, utf8_byte_offset, utf8_substr_bounds, utf8_char_offset,
}

module _ (g : GlibUtf8) (laws : IsGlibUtf8 g) where
  pub drop_char :
      (c : ℕ) (rest : List ℕ)
      → IsUnichar c
      → drop (g.skip (lead c)) (lead c ∷ trail c ++ rest) ≡ rest
  drop_char c rest h =
      let e : g.skip (lead c) ≡ suc (length (trail c)) = omega (arith, laws.skip-lead c h) in
      rw e (drop-length-append (trail c) rest)

  byte_offset_loop-encode :
      (cs : List ℕ) (p k : ℕ)
      → IsText cs
      → byte_offset_loop g (encode cs) p k
        ≡ (if leb k (length cs) then p + length (encode (take k cs)) else npos)
  unfolding byte_offset_loop
  byte_offset_loop-encode [] p zero t = ground arith
  byte_offset_loop-encode [] p (suc k) t = ground arith
  byte_offset_loop-encode (c ∷ cs) p zero t = ground arith
  byte_offset_loop-encode (c ∷ cs) p (suc k) (h, t) =
      rw (drop_char c (encode cs) h, byte_offset_loop-encode cs (p + g.skip (lead c)) k t)
        (ground (arith, laws.skip-lead c h, length-append (trail c) (encode (take k cs))))

  -- The byte offset of a code point is the size of the text before it; it is `npos` beyond the end.
  pub utf8_byte_offset-encode :
      (cs : List ℕ) (k : ℕ)
      → IsText cs
      → Fits cs
      → utf8_byte_offset g (encode cs) k
        ≡ (if leb k (length cs) then length (encode (take k cs)) else npos)
  unfolding utf8_byte_offset
  utf8_byte_offset-encode cs k t f =
      ground (arith, byte_offset_loop-encode cs 0 k t, length-encode-ge cs)

  -- With an offset and its byte offset, a text and its bytes are cut at the same place.
  pub in_range :
      (cs : List ℕ) (k : ℕ)
      → IsText cs
      → Fits cs
      → leb (utf8_byte_offset g (encode cs) k) (length (encode cs)) ≡ leb k (length cs)
  in_range cs k t f = ground (arith, utf8_byte_offset-encode cs k t f, length-encode-take-drop k cs)

  pub drop-utf8_byte_offset :
      (cs : List ℕ) (k : ℕ)
      → IsText cs
      → Fits cs
      → drop (utf8_byte_offset g (encode cs) k) (encode cs) ≡ encode (drop k cs)
  drop-utf8_byte_offset cs k t f = elim (Bool-cases (leb k (length cs))) [
    | inl inside ↦ rw (utf8_byte_offset-encode cs k t f, inside) (drop-encode k cs)
    | inr beyond ↦
        rw (utf8_byte_offset-encode cs k t f, beyond)
          (drop_all npos (encode cs) (omega arith) ∙ ap encode (sym (drop_all k cs (ground arith))))
  ]

  pub take-utf8_byte_offset :
      (cs : List ℕ) (k : ℕ)
      → IsText cs
      → Fits cs
      → take (utf8_byte_offset g (encode cs) k) (encode cs) ≡ encode (take k cs)
  take-utf8_byte_offset cs k t f = elim (Bool-cases (leb k (length cs))) [
    | inl inside ↦ rw (utf8_byte_offset-encode cs k t f, inside) (take-encode k cs)
    | inr beyond ↦
        rw (utf8_byte_offset-encode cs k t f, beyond)
          (take_all npos (encode cs) (omega arith) ∙ ap encode (sym (take_all k cs (ground arith))))
  ]

  pub utf8_char_offset-size :
      (cs : List ℕ) (k : ℕ)
      → IsText cs
      → Fits cs
      → k ≤ length cs
      → utf8_char_offset g (encode cs) (length (encode (take k cs))) ≡ k
  unfolding utf8_char_offset
  utf8_char_offset-size cs k t f h =
      let e = laws.pointer_to_offset-encode (take k cs) (drop k cs) (All-take _ k cs t) in
      let e' = rw (← encode-take-drop k cs) at e in
      ground (arith, e', length-encode-take-drop k cs, length-take k cs)

  pub utf8_char_offset-npos : (s : List ℕ) → utf8_char_offset g s npos ≡ npos
  unfolding utf8_char_offset
  utf8_char_offset-npos s = refl

  -- From the byte offset of a code point back to the code point.
  pub utf8_char_offset-byte_offset :
      (cs : List ℕ) (k : ℕ)
      → IsText cs
      → Fits cs
      → k ≤ length cs
      → utf8_char_offset g (encode cs) (utf8_byte_offset g (encode cs) k) ≡ k
  unfolding utf8_char_offset
  utf8_char_offset-byte_offset cs k t f h =
      rw (utf8_byte_offset-encode cs k t f, le→leb k (length cs) h)
        (utf8_char_offset-size cs k t f h)

  -- Nothing stands behind a position that has no byte offset.
  pub beyond_end :
      (cs : List ℕ) (i : ℕ)
      → IsText cs
      → Fits cs
      → (utf8_byte_offset g (encode cs) i == npos) ≡ true
      → drop i cs ≡ []
  beyond_end cs i t f e =
      drop_all i cs (ground (arith, utf8_byte_offset-encode cs i t f, length-encode-take-drop i cs))

  -- The two cuts that Utf8SubstrBounds stands for.
  pub take-utf8_substr_bounds :
      (cs : List ℕ) (i n : ℕ)
      → IsText cs
      → Fits cs
      → take
          (utf8_substr_bounds g (encode cs) i n).n
          (drop (utf8_substr_bounds g (encode cs) i n).i (encode cs))
        ≡ encode (take n (drop i cs))
  unfolding utf8_substr_bounds
  take-utf8_substr_bounds cs i n t f =
      elim (Bool-cases (utf8_byte_offset g (encode cs) i == npos)) [
        | inl beyond ↦
            rw (beyond, drop-utf8_byte_offset cs i t f)
              (take_all npos (encode (drop i cs)) (omega (arith, Fits-drop i cs f))
                ∙ rw (beyond_end cs i t f beyond) (ap encode (sym (take_all n [] (omega arith)))))
        | inr inside ↦
            rw (inside, drop-utf8_byte_offset cs i t f)
              (take-utf8_byte_offset (drop i cs) n (All-drop _ i cs t) (Fits-drop i cs f))
      ]

  pub drop-utf8_substr_bounds :
      (cs : List ℕ) (i n : ℕ)
      → IsText cs
      → Fits cs
      → drop
          (utf8_substr_bounds g (encode cs) i n).n
          (drop (utf8_substr_bounds g (encode cs) i n).i (encode cs))
        ≡ encode (drop n (drop i cs))
  unfolding utf8_substr_bounds
  drop-utf8_substr_bounds cs i n t f =
      elim (Bool-cases (utf8_byte_offset g (encode cs) i == npos)) [
        | inl beyond ↦
            rw (beyond, drop-utf8_byte_offset cs i t f)
              (drop_all npos (encode (drop i cs)) (omega (arith, Fits-drop i cs f))
                ∙ ap encode
                    (sym (ap (drop n) (beyond_end cs i t f beyond) ∙ drop_all n [] (omega arith))))
        | inr inside ↦
            rw (inside, drop-utf8_byte_offset cs i t f)
              (drop-utf8_byte_offset (drop i cs) n (All-drop _ i cs t) (Fits-drop i cs f))
      ]

  pub substr_bounds_in_range :
      (cs : List ℕ) (i n : ℕ)
      → IsText cs
      → Fits cs
      → leb (utf8_substr_bounds g (encode cs) i n).i (length (encode cs)) ≡ leb i (length cs)
  unfolding utf8_substr_bounds
  substr_bounds_in_range cs i n t f = in_range cs i t f

  pub take-utf8_substr_bounds_i :
      (cs : List ℕ) (i n : ℕ)
      → IsText cs
      → Fits cs
      → take (utf8_substr_bounds g (encode cs) i n).i (encode cs) ≡ encode (take i cs)
  unfolding utf8_substr_bounds
  take-utf8_substr_bounds_i cs i n t f = take-utf8_byte_offset cs i t f
