-- ===== src/Ustring/Search/LastOf.antt =====
-- find_last_of() and find_last_not_of() on a text.
use mathlib.Core.List.{reverse, reverse-cons, reverse-append, reverse-reverse}
use glibmm.Base.{
  ℕ, suc, ◌+◌, ◌≤◌, ◌≡◌, refl, sym, ap, ◌∙◌, Bool, true, false, List, [], ◌∷◌, ◌++◌, append_assoc,
  append-nil, arith, length, length-append, take, drop, ltb, if◌then◌else◌, some, ok, All,
  All-append, All-append_left, All-append_right, length-reverse, take-length-append, length-drop,
  length-take, take-append-drop, take_all, drop_all, lt→ltb, drop-length-append,
}
use glibmm.StdString
use glibmm.StdString.{npos, hits, last_of_scan}
use glibmm.Utf8.{IsUnichar, IsText, lead, trail, encode}
use glibmm.Utf8.Bounds.{Fits, IsCont, trail-IsCont, encode-append}
use glibmm.GlibUtf8.{GlibUtf8, IsGlibUtf8}
use glibmm.Ustring.Offsets.{utf8_byte_offset}
use glibmm.Ustring.Offsets.CStrings.{NoNull}
use glibmm.Ustring.Offsets.Refinement.{utf8_byte_offset-encode}
use glibmm.Ustring.Search.{is_cont, last_of_loop, utf8_find_last_of}

-- The bytes of a text that is read backwards.
abbrev backwards : List ℕ → List ℕ
backwards [] = []
backwards (d ∷ rs) = reverse (trail d) ++ lead d ∷ backwards rs

reverse-encode : (rs : List ℕ) → reverse (encode (reverse rs)) ≡ backwards rs
reverse-encode [] = refl
reverse-encode (d ∷ rs) =
    ap (λ t. reverse (encode t)) (reverse-cons d rs)
    ∙ ap reverse (encode-append (reverse rs) (d ∷ []))
    ∙ reverse-append (encode (reverse rs)) (encode (d ∷ []))
    ∙ ap (λ t. reverse (lead d ∷ t) ++ reverse (encode (reverse rs))) (append-nil (trail d))
    ∙ ap (λ t. t ++ reverse (encode (reverse rs))) (reverse-cons (lead d) (trail d))
    ∙ append_assoc (reverse (trail d)) (lead d ∷ []) (reverse (encode (reverse rs)))
    ∙ ap (λ t. reverse (trail d) ++ lead d ∷ t) (reverse-encode rs)

All-reverse : (bs : List ℕ) → All IsCont bs → All IsCont (reverse bs)
All-reverse [] h = tt
All-reverse (b ∷ bs) (k, h) =
    rw (reverse-cons b bs) (All-append IsCont (reverse bs) (b ∷ []) (All-reverse bs h) (k, tt))

lead-is_cont : (d : ℕ) → IsUnichar d → is_cont (lead d) ≡ false
unfolding is_cont lead
lead-is_cont d h = ground arith

IsCont-is_cont : (b : ℕ) → IsCont b → is_cont b ≡ true
unfolding is_cont
IsCont-is_cont b h = ground arith

module _ (g : GlibUtf8) (str set : List ℕ) (negate : Bool) where
  -- The step at a first byte is the same in the inner loop and in the outer one.
  last_of_loop_first :
      (d : ℕ) (before after : List ℕ) (moving : Bool)
      → IsUnichar d
      → last_of_loop g str set negate (lead d ∷ before) after moving ≡ (
          if hits set negate (g.get_char (lead d ∷ after))
          then ok (g.pointer_to_offset str (length before))
          else last_of_loop g str set negate before (lead d ∷ after) false)
  unfolding last_of_loop
  last_of_loop_first d before after moving h = rw (lead-is_cont d h)

  -- Continuation bytes are passed over.
  last_of_loop_cont :
      (bs : List ℕ) (d : ℕ) (before after : List ℕ) (moving : Bool)
      → All IsCont bs
      → IsUnichar d
      → last_of_loop g str set negate (bs ++ lead d ∷ before) after moving
        ≡ last_of_loop g str set negate (lead d ∷ before) (reverse bs ++ after) false
  unfolding last_of_loop
  last_of_loop_cont [] d before after moving k h = rw (lead-is_cont d h)
  last_of_loop_cont (b ∷ bs) d before after moving (kb, k) h = rw (
    IsCont-is_cont b kb,
    last_of_loop_cont bs d before (b ∷ after) true k h,
    reverse-cons b bs,
    append_assoc,
  )

length-backwards : (rs : List ℕ) → length (backwards rs) ≡ length (encode (reverse rs))
length-backwards rs = ap length (sym (reverse-encode rs)) ∙ length-reverse (encode (reverse rs))

backwards-reverse : (pre : List ℕ) → reverse (encode pre) ≡ backwards (reverse pre)
backwards-reverse pre =
    ap (λ t. reverse (encode t)) (sym (reverse-reverse pre)) ∙ reverse-encode (reverse pre)

take_through :
    (xs : List ℕ) (b : ℕ) (ys : List ℕ) → take (length xs + 1) (xs ++ b ∷ ys) ≡ xs ++ b ∷ []
take_through xs b ys =
    rw (← length-append xs (b ∷ []), ← append_assoc xs (b ∷ []) ys)
      (take-length-append (xs ++ b ∷ []) ys)

drop_through : (xs : List ℕ) (b : ℕ) (ys : List ℕ) → drop (length xs + 1) (xs ++ b ∷ ys) ≡ ys
drop_through xs b ys =
    rw (← length-append xs (b ∷ []), ← append_assoc xs (b ∷ []) ys)
      (drop-length-append (xs ++ b ∷ []) ys)

module _ (g : GlibUtf8) (laws : IsGlibUtf8 g) (set : List ℕ) (negate : Bool) (cs : List ℕ)
    (t : IsText cs) where
  pointer_to_offset-backwards :
      (rs s : List ℕ)
      → cs ≡ reverse rs ++ s
      → g.pointer_to_offset (encode cs) (length (backwards rs)) ≡ length rs
  pointer_to_offset-backwards rs s e =
      let t' : IsText (reverse rs ++ s) = rw e at t in
      rw (length-backwards rs, e, encode-append (reverse rs) s)
        (laws.pointer_to_offset-encode (reverse rs) s (All-append_left _ (reverse rs) s t')
          ∙ length-reverse rs)

  char-IsUnichar : (d : ℕ) (rs s : List ℕ) → cs ≡ reverse rs ++ d ∷ s → IsUnichar d
  char-IsUnichar d rs s e =
      let t' : IsText (reverse rs ++ d ∷ s) = rw e at t in
      (All-append_right _ (reverse rs) (d ∷ s) t').0

  split_back : (d : ℕ) (rs s : List ℕ) → reverse (d ∷ rs) ++ s ≡ reverse rs ++ d ∷ s
  split_back d rs s = ap (λ t. t ++ s) (reverse-cons d rs) ∙ append_assoc (reverse rs) (d ∷ []) s

  last_of_loop_at :
      (d : ℕ) (rs s : List ℕ)
      → cs ≡ reverse rs ++ d ∷ s
      → last_of_loop g (encode cs) set negate (lead d ∷ backwards rs) (trail d ++ encode s) false
        ≡ (if hits set negate d
            then ok (length rs)
            else last_of_loop g (encode cs) set negate (backwards rs) (encode (d ∷ s)) false)
  last_of_loop_at d rs s e =
      let h = char-IsUnichar d rs s e in
      rw (
        last_of_loop_first g (encode cs) set negate d (backwards rs) (trail d ++ encode s) false h,
        laws.get_char-encode d (encode s) h,
        pointer_to_offset-backwards rs (d ∷ s) e,
      )

  last_of_loop-trail :
      (r : ℕ) (rs s : List ℕ)
      → cs ≡ reverse rs ++ r ∷ s
      → last_of_loop g (encode cs) set negate (backwards (r ∷ rs)) (encode s) false
        ≡ last_of_loop g (encode cs) set negate (lead r ∷ backwards rs) (trail r ++ encode s) false
  last_of_loop-trail r rs s e =
      let h = char-IsUnichar r rs s e in
      last_of_loop_cont g (encode cs) set negate (reverse (trail r)) r (backwards rs) (encode s)
        false (All-reverse (trail r) (trail-IsCont r h)) h
      ∙ ap
          (λ t. last_of_loop g (encode cs) set negate (lead r ∷ backwards rs) (t ++ encode s) false)
          (reverse-reverse (trail r))

  last_of_loop-lead :
      (d : ℕ) (rs s : List ℕ)
      → cs ≡ reverse rs ++ d ∷ s
      → last_of_loop g (encode cs) set negate (lead d ∷ backwards rs) (trail d ++ encode s) false
        ≡ ok (last_of_scan set negate (d ∷ rs))
  unfolding last_of_scan
  last_of_loop-lead d [] s e = last_of_loop_at d [] s e ∙ unfold last_of_loop in ground arith
  last_of_loop-lead d (r ∷ rs) s e =
      let e' = e ∙ split_back r rs (d ∷ s) in
      last_of_loop_at d (r ∷ rs) s e
      ∙ rw (last_of_loop-trail r rs (d ∷ s) e', last_of_loop-lead r rs (d ∷ s) e') (ground arith)

  last_of_loop-backwards :
      (rs s : List ℕ)
      → cs ≡ reverse rs ++ s
      → last_of_loop g (encode cs) set negate (backwards rs) (encode s) false
        ≡ ok (last_of_scan set negate rs)
  last_of_loop-backwards [] s e = unfold last_of_loop last_of_scan in refl
  last_of_loop-backwards (r ∷ rs) s e =
      let e' = e ∙ split_back r rs s in last_of_loop-trail r rs s e' ∙ last_of_loop-lead r rs s e'

module _ (g : GlibUtf8) (laws : IsGlibUtf8 g) where
  -- From the end on the search starts behind the last byte.
  start_at_end :
      (cs : List ℕ) (i : ℕ)
      → IsText cs
      → Fits cs
      → length cs ≤ i
      → ltb (utf8_byte_offset g (encode cs) i) (length (encode cs)) ≡ false
  start_at_end cs i t f h = ground (
    arith,
    utf8_byte_offset-encode g laws cs i t f,
    ap (λ t. length (encode t)) (take_all i cs h),
  )

  start_inside :
      (pre : List ℕ) (d : ℕ) (s : List ℕ)
      → IsText (pre ++ d ∷ s)
      → Fits (pre ++ d ∷ s)
      → utf8_byte_offset g (encode (pre ++ d ∷ s)) (length pre) ≡ length (encode pre)
  start_inside pre d s t f = ground (
    arith,
    utf8_byte_offset-encode g laws (pre ++ d ∷ s) (length pre) t f,
    ap (λ t. length (encode t)) (take-length-append pre (d ∷ s)),
    length-append pre (d ∷ s),
  )

  last_of_inside :
      (pre : List ℕ) (d : ℕ) (s set : List ℕ) (negate : Bool)
      → IsText (pre ++ d ∷ s)
      → Fits (pre ++ d ∷ s)
      → IsText set
      → NoNull set
      → utf8_find_last_of g
          (encode (pre ++ d ∷ s))
          (length pre)
          (encode set)
          (some (length (encode set)))
          negate
        ≡ ok (last_of_scan set negate (d ∷ reverse pre))
  unfolding utf8_find_last_of
  last_of_inside pre d s set negate t f u z =
      rw
        (
          start_inside pre d s t f,
          laws.to_ucs4_fast-encode set u z,
          encode-append pre (d ∷ s),
          lt→ltb (length (encode pre)) (length (encode pre ++ encode (d ∷ s)))
              (omega (arith, length-append (encode pre) (encode (d ∷ s)))),
          take_through (encode pre) (lead d) (trail d ++ encode s),
          drop_through (encode pre) (lead d) (trail d ++ encode s),
          reverse-append (encode pre) (lead d ∷ []),
          backwards-reverse pre,
          ← encode-append pre (d ∷ s),
        )
        (last_of_loop-lead g laws set negate (pre ++ d ∷ s) t d (reverse pre) s
          (ap (λ x. x ++ d ∷ s) (sym (reverse-reverse pre))))

  reverse-take_through :
      (pre : List ℕ) (d : ℕ) (s : List ℕ)
      → reverse (take (suc (length pre)) (pre ++ d ∷ s)) ≡ d ∷ reverse pre
  reverse-take_through pre d s =
      let e : suc (length pre) ≡ length pre + 1 = omega arith in
      rw (e, take_through pre d s) (reverse-append pre (d ∷ []))

  last_of_at :
      (cs pre : List ℕ) (d : ℕ) (s set : List ℕ) (negate : Bool) (i : ℕ)
      → cs ≡ pre ++ d ∷ s
      → i ≡ length pre
      → IsText cs
      → Fits cs
      → IsText set
      → NoNull set
      → utf8_find_last_of g (encode cs) i (encode set) (some (length (encode set))) negate
        ≡ ok (StdString.find_last_of cs set negate i)
  unfolding StdString.find_last_of
  last_of_at cs pre d s set negate i e ei t f u z =
      rw (ei, e)
        (last_of_inside pre d s set negate (rw e at t) (rw e at f) u z
          ∙ ap (λ x. ok (last_of_scan set negate x)) (sym (reverse-take_through pre d s)))

  last_of_beyond :
      (cs set : List ℕ) (negate : Bool) (i : ℕ)
      → length cs ≤ i
      → IsText cs
      → Fits cs
      → IsText set
      → NoNull set
      → utf8_find_last_of g (encode cs) i (encode set) (some (length (encode set))) negate
        ≡ ok (StdString.find_last_of cs set negate i)
  unfolding utf8_find_last_of StdString.find_last_of
  last_of_beyond cs set negate i h t f u z =
      rw
        (
          start_at_end cs i t f h,
          laws.to_ucs4_fast-encode set u z,
          take_all (length (encode cs)) (encode cs) (omega arith),
          drop_all (length (encode cs)) (encode cs) (omega arith),
          take_all (suc i) cs (omega arith),
          backwards-reverse cs,
        )
        (last_of_loop-backwards g laws set negate cs t (reverse cs) []
          (sym (append-nil (reverse (reverse cs)) ∙ reverse-reverse cs)))

  -- For a set without U+0000, the search stays inside of the string, and its result is the last code
  -- point up to the `i`-th that is in the set (or outside of it), counted in code points; `npos` if
  -- there is none.
  pub utf8_find_last_of-encode :
      (cs set : List ℕ) (negate : Bool) (i : ℕ)
      → IsText cs
      → Fits cs
      → IsText set
      → NoNull set
      → utf8_find_last_of g (encode cs) i (encode set) (some (length (encode set))) negate
        ≡ ok (StdString.find_last_of cs set negate i)
  utf8_find_last_of-encode cs set negate i t f u z = split (drop i cs) refl
    where
      split :
          (ds : List ℕ)
          → drop i cs ≡ ds
          → utf8_find_last_of g (encode cs) i (encode set) (some (length (encode set))) negate
            ≡ ok (StdString.find_last_of cs set negate i)
      split [] e =
          last_of_beyond cs set negate i (omega (arith, ap length e, length-drop i cs)) t f u z
      split (d ∷ s) e =
          last_of_at cs (take i cs) d s set negate i
            (sym (take-append-drop i cs) ∙ ap (λ x. take i cs ++ x) e)
            (omega (arith, ap length e, length-drop i cs, length-take i cs)) t f u z
