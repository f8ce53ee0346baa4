-- ===== src/Ustring/Edit/Refinement.antt =====
-- A ustring that holds a text behaves as a string of code points: each operation is the one of
-- std::string (module StdString), applied to the code points.
use glibmm.Base.{
  ℕ, zero, suc, ◌-◌, ◌≤◌, ◌<◌, ◌≡◌, refl, sym, ap, ◌∙◌, List, [], ◌∷◌, ◌++◌, append_assoc,
  append-nil, arith, le→leb, length, take, drop, replicate, ltb, if◌then◌else◌, ok, map_ok,
  All-drop, Bool-cases, inl, inr, ◌>>=◌, drop_all, length-drop,
}
use glibmm.StdString
use glibmm.StdString.{npos}
use glibmm.StdString.Laws.{front, at-drop}
use glibmm.Utf8.{IsUnichar, IsText, lead, trail, encode}
use glibmm.Utf8.Bounds.{Fits, encode-append, length-encode-ge}
use glibmm.GlibUtf8.{GlibUtf8, IsGlibUtf8}
use glibmm.Ustring.Offsets.{utf8_byte_offset}
use glibmm.Ustring.Offsets.Refinement.{
  in_range, take-utf8_byte_offset, drop-utf8_byte_offset, take-utf8_substr_bounds,
  drop-utf8_substr_bounds, substr_bounds_in_range, take-utf8_substr_bounds_i,
}
use glibmm.Ustring.Edit.{
  append_times, from_part, from_unichars, insert, replace, erase, at, size, append_unichars,
  resize_unichar,
}

encode-replicate_append :
    (n c : ℕ) (s : List ℕ) (cs : List ℕ)
    → s ≡ encode cs
    → append_times (lead c ∷ trail c) n s ≡ encode (cs ++ replicate n c)
unfolding append_times
encode-replicate_append zero c s cs e = e ∙ ap encode (sym (append-nil cs))
encode-replicate_append (suc n) c s cs e =
    encode-replicate_append n c (s ++ lead c ∷ trail c) (cs ++ c ∷ []) (
      ap (λ t. t ++ lead c ∷ trail c) e
      ∙ ap (λ t. encode cs ++ lead c ∷ t) (sym (append-nil (trail c)))
      ∙ sym (encode-append cs (c ∷ [])))
    ∙ ap encode (append_assoc cs (c ∷ []) (replicate n c))

-- An ASCII character is its own encoding.
replicate-ascii : (n c : ℕ) → c < 0x80 → replicate n c ≡ encode (replicate n c)
unfolding lead trail
replicate-ascii zero c h = refl
replicate-ascii (suc n) c h = ground (arith, replicate-ascii n c h)

pub encode-three :
    (xs ys zs : List ℕ) → encode xs ++ (encode ys ++ encode zs) ≡ encode (xs ++ (ys ++ zs))
encode-three xs ys zs =
    ap (◌++◌ (encode xs)) (sym (encode-append ys zs)) ∙ sym (encode-append xs (ys ++ zs))

-- erase(n, npos) leaves the first `n`.
erase_tail :
    (cs : List ℕ) (n : ℕ)
    → Fits cs
    → n < length cs
    → map_ok encode (StdString.erase cs n npos) ≡ ok (encode (take n cs))
unfolding StdString.erase
erase_tail cs n f h =
    rw (le→leb n (length cs) (omega arith), drop_all npos (drop n cs) (short cs n f))
      (ap (λ t. ok (encode t)) (append-nil (take n cs)))
  where
    short : (cs : List ℕ) (n : ℕ) → Fits cs → length (drop n cs) ≤ npos
    short cs n f = omega (arith, length-drop n cs, length-encode-ge cs)

filled :
    (cs : List ℕ) (n uc : ℕ)
    → length cs ≤ n
    → (if ltb (length cs) n
        then ok (encode cs ++ encode (replicate (n - length cs) uc))
        else ok (encode cs))
      ≡ ok (encode (cs ++ replicate (n - length cs) uc))
filled cs n uc h = elim (Bool-cases (ltb (length cs) n)) [
  | inl more ↦ rw more (ap ok (sym (encode-append cs (replicate (n - length cs) uc))))
  | inr same ↦
      let e : n - length cs ≡ 0 = ground arith in
      rw (same, e) (ap (λ t. ok (encode t)) (sym (append-nil cs)))
]

module _ (g : GlibUtf8) (laws : IsGlibUtf8 g) where
  -- `n` copies of a code point, by either branch.
  pub from_unichars-encode : (n c : ℕ) → IsUnichar c → from_unichars g n c ≡ encode (replicate n c)
  unfolding from_unichars
  from_unichars-encode n c h = elim (Bool-cases (ltb c 0x80)) [
    | inl ascii ↦ rw ascii (replicate-ascii n c (ground arith))
    | inr wide ↦ rw (wide, laws.unichar_to_utf8-eq c h) (encode-replicate_append n c [] [] refl)
  ]

  -- The part of a text of `n` code points from the `i`-th on, or `out_of_range` beyond the end.
  pub from_part-encode :
      (cs : List ℕ) (i n : ℕ)
      → IsText cs
      → Fits cs
      → from_part g (encode cs) i n ≡ map_ok encode (StdString.substr cs i n)
  unfolding from_part StdString.substr
  from_part-encode cs i n t f =
      rw (substr_bounds_in_range g laws cs i n t f, take-utf8_substr_bounds g laws cs i n t f)
        (ground arith)

  -- Inserting before the `i`-th code point, or `out_of_range` beyond the end.
  pub insert-encode :
      (cs ds : List ℕ) (i : ℕ)
      → IsText cs
      → Fits cs
      → insert g (encode cs) i (encode ds) ≡ map_ok encode (StdString.insert cs i ds)
  unfolding insert StdString.insert
  insert-encode cs ds i t f =
      rw
        (
          in_range g laws cs i t f,
          take-utf8_byte_offset g laws cs i t f,
          drop-utf8_byte_offset g laws cs i t f,
        )
        (ground (arith, encode-three (take i cs) ds (drop i cs)))

  -- Replacing `n` code points from the `i`-th on, or `out_of_range` beyond the end.
  pub replace-encode :
      (cs ds : List ℕ) (i n : ℕ)
      → IsText cs
      → Fits cs
      → replace g (encode cs) i n (encode ds) ≡ map_ok encode (StdString.replace cs i n ds)
  unfolding replace StdString.replace
  replace-encode cs ds i n t f =
      rw
        (
          substr_bounds_in_range g laws cs i n t f,
          drop-utf8_substr_bounds g laws cs i n t f,
          take-utf8_substr_bounds_i g laws cs i n t f,
        )
        (ground (arith, encode-three (take i cs) ds (drop n (drop i cs))))

  -- Erasing `n` code points from the `i`-th on, or `out_of_range` beyond the end.
  pub erase-encode :
      (cs : List ℕ) (i n : ℕ)
      → IsText cs
      → Fits cs
      → erase g (encode cs) i n ≡ map_ok encode (StdString.erase cs i n)
  unfolding erase StdString.erase
  erase-encode cs i n t f =
      rw
        (
          substr_bounds_in_range g laws cs i n t f,
          drop-utf8_substr_bounds g laws cs i n t f,
          take-utf8_substr_bounds_i g laws cs i n t f,
        )
        (ground (arith, encode-append (take i cs) (drop n (drop i cs))))

  -- The number of code points.
  pub size-encode : (cs : List ℕ) → IsText cs → size g (encode cs) ≡ length cs
  unfolding size
  size-encode cs t = rw append-nil at (laws.pointer_to_offset-encode cs [] t)

  front-encode :
      (ds : List ℕ) → IsText ds → (do _ ← front (encode ds); ok (g.get_char (encode ds))) ≡ front ds
  front-encode [] t = refl
  front-encode (d ∷ ds) (h, t) = ap ok (laws.get_char-encode d (encode ds) h)

  -- The `i`-th code point, or `out_of_range` from the end on.
  pub at-encode :
      (cs : List ℕ) (i : ℕ) → IsText cs → Fits cs → at g (encode cs) i ≡ StdString.at cs i
  unfolding at
  at-encode cs i t f =
      rw
        (
          at-drop (encode cs) (utf8_byte_offset g (encode cs) i),
          drop-utf8_byte_offset g laws cs i t f,
          at-drop cs i,
        )
        (front-encode (drop i cs) (All-drop _ i cs t))

  -- A text of exactly `n` code points: cut off, or filled up with `uc`; resize() never throws.
  pub resize_unichar-encode :
      (cs : List ℕ) (n uc : ℕ)
      → IsText cs
      → Fits cs
      → IsUnichar uc
      → resize_unichar g (encode cs) n uc ≡ ok (encode (StdString.resize cs n uc))
  unfolding resize_unichar StdString.resize append_unichars
  resize_unichar-encode cs n uc t f h =
      rw (size-encode cs t, erase-encode cs n npos t f, from_unichars-encode (n - length cs) uc h)
        (elim (Bool-cases (ltb n (length cs))) [
          | inl shorter ↦ rw shorter (erase_tail cs n f (ground arith))
          | inr longer ↦ rw longer (filled cs n uc (ground arith))
        ])
