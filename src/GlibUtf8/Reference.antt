-- ===== src/GlibUtf8/Reference.antt =====
-- Functions that do what GLib's manual says, to show that the assumptions of GlibUtf8 can be met and to
-- run the model on concrete texts.
use glibmm.Base.{
  ℕ, zero, suc, ◌+◌, ◌/◌, ◌≡◌, refl, ap, ◌∙◌, List, [], ◌∷◌, ◌++◌, append_assoc, Result, ok, err,
  none, some, arith, ltb, ◌==◌, if◌then◌else◌, length, length-append, take, take_all, drop,
  drop-length-append, take-length-append, All,
}
use glibmm.Utf8.{IsUnichar, IsText, lead, trail, encode}
use glibmm.Utf8.Bounds.{IsCont, lead-not-IsCont, trail-IsCont}
use glibmm.GlibUtf8.{GlibUtf8, IsGlibUtf8}
use glibmm.Ustring.Unichar.{
  add_six, shift_mask, unichar_loop, get_unichar_from_std_iterator, get_unichar-encode,
}

unfoldable pub skip : ℕ → ℕ
skip b =
    if ltb b 0xC0
    then 1
    else if ltb b 0xE0
    then 2
    else if ltb b 0xF0
    then 3
    else if ltb b 0xF8
    then 4
    else if ltb b 0xFC
    then 5
    else if ltb b 0xFE
    then 6
    else 1

abbrev char_or_zero : Result ℕ → ℕ
char_or_zero (ok c) = c
char_or_zero (err e) = 0

unfoldable pub get_char : List ℕ → ℕ
unfolding get_unichar_from_std_iterator unichar_loop add_six shift_mask
get_char s = char_or_zero (get_unichar_from_std_iterator s)

unfoldable pub count_chars : List ℕ → ℕ
count_chars [] = 0
count_chars (b ∷ s) = if b / 64 == 2 then count_chars s else suc (count_chars s)

unfoldable pub walk : List ℕ → ℕ → ℕ → ℕ
unfolding skip
walk s zero p = p
walk [] (suc i) p = p
walk (b ∷ s) (suc i) p = walk (drop (skip b) (b ∷ s)) i (p + skip b)

unfoldable pub decode : List ℕ → List ℕ
unfolding get_char
decode [] = []
decode (b ∷ s) = if b / 64 == 2 then decode s else get_char (b ∷ s) ∷ decode s

unfoldable pub reference : GlibUtf8
unfolding skip get_char count_chars walk decode lead trail
reference = record {
  skip = skip;
  get_char = get_char;
  unichar_to_utf8 = λ c. lead c ∷ trail c;
  pointer_to_offset = λ s n. count_chars (take n s);
  offset_to_pointer = λ s i. walk s i 0;
  to_ucs4_fast = λ s len. elim len [ none ↦ decode s | some n ↦ decode (take n s) ];
}

skip-lead : (c : ℕ) → IsUnichar c → skip (lead c) ≡ length (trail c) + 1
unfolding skip lead trail
skip-lead c h = ground arith

get_char-encode : (c : ℕ) (rest : List ℕ) → IsUnichar c → get_char (lead c ∷ trail c ++ rest) ≡ c
unfolding get_char
get_char-encode c rest h = ap char_or_zero (get_unichar-encode c rest h)

count_chars-cont : (bs s : List ℕ) → All IsCont bs → count_chars (bs ++ s) ≡ count_chars s
unfolding count_chars
count_chars-cont [] s h = refl
count_chars-cont (b ∷ bs) s (k, h) = ground (arith, count_chars-cont bs s h)

count_chars-encode : (cs : List ℕ) → IsText cs → count_chars (encode cs) ≡ length cs
unfolding count_chars
count_chars-encode [] t = refl
count_chars-encode (c ∷ cs) (h, t) = ground (
  arith,
  lead-not-IsCont c h,
  count_chars-cont (trail c) (encode cs) (trail-IsCont c h),
  count_chars-encode cs t,
)

decode-cont : (bs s : List ℕ) → All IsCont bs → decode (bs ++ s) ≡ decode s
unfolding decode
decode-cont [] s h = refl
decode-cont (b ∷ bs) s (k, h) = ground (arith, decode-cont bs s h)

decode-encode : (cs : List ℕ) → IsText cs → decode (encode cs) ≡ cs
unfolding decode
decode-encode [] t = refl
decode-encode (c ∷ cs) (h, t) = ground (
  arith,
  lead-not-IsCont c h,
  decode-cont (trail c) (encode cs) (trail-IsCont c h),
  decode-encode cs t,
  get_char-encode c (encode cs) h,
)

walk-encode :
    (cs ds : List ℕ) (p : ℕ)
    → IsText cs
    → walk (encode cs ++ encode ds) (length cs) p ≡ p + length (encode cs)
unfolding walk
walk-encode [] ds p t = omega arith
walk-encode (c ∷ cs) ds p (h, t) =
    let e : skip (lead c) ≡ suc (length (trail c)) = omega (arith, skip-lead c h) in
    rw
      (
        e,
        append_assoc (trail c) (encode cs) (encode ds),
        drop-length-append (trail c) (encode cs ++ encode ds),
        walk-encode cs ds (p + suc (length (trail c))) t,
        length-append (trail c) (encode cs),
      )
      (omega arith)

pub reference-IsGlibUtf8 : IsGlibUtf8 reference
unfolding reference
reference-IsGlibUtf8 = record {
  skip-lead = skip-lead;
  get_char-encode = get_char-encode;
  unichar_to_utf8-eq = λ c h. refl;
  pointer_to_offset-encode = λ xs ys t.
      ap count_chars (take-length-append (encode xs) (encode ys)) ∙ count_chars-encode xs t;
  offset_to_pointer-encode = λ xs ys t. walk-encode xs ys 0 t ∙ omega arith;
  to_ucs4_fast-encode = λ cs t z.
      ap decode (take_all (length (encode cs)) (encode cs) (omega arith)) ∙ decode-encode cs t;
}
