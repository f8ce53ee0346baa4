-- ===== src/Ustring/Compose/Templates.antt =====
-- What compose() makes of a format that is built from pieces.
use glibmm.Base.{
  ℕ, zero, suc, ◌+◌, ◌-◌, ◌≤◌, ◌<◌, ◌≡◌, ◌≢◌, refl, ap, ◌∙◌, ◌⊎◌, inl, inr, false, List, [], ◌∷◌,
  ◌++◌, append_assoc, ok, Option, none, some, arith, ltb, length, length-append, get_elem?,
  get_elem?-some, get_elem?-none, ◌||◌, Bool-cases, All,
}
use glibmm.Utf8.{IsUnichar, IsText, lead, trail, encode}
use glibmm.GlibUtf8.{GlibUtf8, IsGlibUtf8}
use glibmm.Ustring.Compose.Rounds.{
  encode-IsPlain, compose_loop_plain, compose_loop_next, round_percent, round_slot, round_invalid,
}
use glibmm.Ustring.Compose.{
  percent_sign, strchr_percent, argument, round_at, round, argument_at, after_round, compose_loop,
  compose_private,
}

-- What g_ascii_digit_value() returns; `none` is -1.
pub record IsDigitValue (digit_value : ℕ → Option ℕ) : Type 0 where
  pub digit : (d : ℕ) → d < 10 → digit_value (b'0' + d) ≡ some d
  pub other : (b : ℕ) → (b < b'0') ⊎ (b'9' < b) → digit_value b ≡ none

-- `text` is copied, `percent` is "%%", `slot d` is "%d" for the d-th argument, and `invalid c` is a '%'
-- before any other character.
pub data Piece : Type 0 where
  text : List ℕ → Piece
  percent : Piece
  slot : ℕ → Piece
  invalid : ℕ → Piece

abbrev pub format_piece : Piece → List ℕ
format_piece (text cs) = encode cs
format_piece percent = percent_sign ∷ percent_sign ∷ []
format_piece (slot d) = percent_sign ∷ (b'0' + d) ∷ []
format_piece (invalid c) = percent_sign ∷ lead c ∷ trail c

abbrev pub format : List Piece → List ℕ
format [] = []
format (p ∷ ps) = format_piece p ++ format ps

abbrev or_empty : Option (List ℕ) → List ℕ
or_empty none = []
or_empty (some s) = s

abbrev pub meaning_piece : List (List ℕ) → Piece → List ℕ
meaning_piece args (text cs) = encode cs
meaning_piece args percent = percent_sign ∷ []
meaning_piece args (slot d) = or_empty (get_elem? args (d - 1))
meaning_piece args (invalid c) = percent_sign ∷ lead c ∷ trail c

abbrev pub meaning : List (List ℕ) → List Piece → List ℕ
meaning args [] = []
meaning args (p ∷ ps) = meaning_piece args p ++ meaning args ps

abbrev pub IsPiece : List (List ℕ) → Piece → Type 0
IsPiece args (text cs) = IsText cs × All (λ c. (c ≢ percent_sign) × (c ≢ 0)) cs
IsPiece args percent = Unit
IsPiece args (slot d) = (1 ≤ d) × (d ≤ 9) × (d ≤ length args)
IsPiece args (invalid c) =
    IsUnichar c
    × (c ≢ percent_sign)
    × (c ≢ 0)
    × ((c < b'1') ⊎ ((b'9' < c) ⊎ (b'0' + length args < c)))

module _ (g : GlibUtf8) (laws : IsGlibUtf8 g) (digit_value : ℕ → Option ℕ)
    (digits : IsDigitValue digit_value) (args : List (List ℕ)) where
  argument_slot :
      (d : ℕ)
      → 1 ≤ d
      → d ≤ 9
      → d ≤ length args
      → argument g digit_value args (b'0' + d) ≡ some (or_empty (get_elem? args (d - 1)))
  unfolding argument argument_at
  argument_slot zero h1 h9 hl = absurd (omega arith)
  argument_slot (suc d) h1 h9 hl =
      let (x, e) = get_elem?-some args d (omega arith) in
      let e' : suc d - 1 ≡ d = omega arith in
      rw (e', e, argument, digits.digit (suc d) (omega arith)) e

  argument_at_beyond :
      (d : ℕ) → (d ≡ 0) ⊎ (length args < d) → argument_at g digit_value args (some d) ≡ none
  unfolding argument_at
  argument_at_beyond zero h = refl
  argument_at_beyond (suc d) h = get_elem?-none args d (omega arith)

  argument_out :
      (b : ℕ)
      → (b < b'1') ⊎ ((b'9' < b) ⊎ (b'0' + length args < b))
      → argument g digit_value args b ≡ none
  unfolding argument argument_at
  argument_out b h = elim (Bool-cases (ltb b b'0' || ltb b'9' b)) [
    | inl outside ↦ ap (argument_at g digit_value args) (digits.other b (ground arith))
    | inr inside ↦
        ap (λ x. argument_at g digit_value args (digit_value x)) (as_digit b inside)
        ∙ ap (argument_at g digit_value args) (digits.digit (b - b'0') (ground arith))
        ∙ argument_at_beyond (b - b'0') (ground arith)
  ]
    where
      as_digit : (b : ℕ) → (ltb b b'0' || ltb b'9' b) ≡ false → b ≡ b'0' + (b - b'0')
      as_digit b inside = ground arith

  argument_invalid :
      (c : ℕ) → IsPiece args (invalid c) → argument g digit_value args (lead c) ≡ none
  unfolding lead
  argument_invalid c h = argument_out (lead c) (ground arith)

  compose_loop-format :
      (ps : List Piece) (fuel : ℕ) (result : List ℕ)
      → All (IsPiece args) ps
      → length (format ps) < fuel
      → compose_loop g digit_value args fuel (format ps) result
        ≡ some (ok (result ++ meaning args ps))
  compose_loop-format ps zero result h l = absurd (omega arith)
  compose_loop-format [] (suc fuel) result h l =
      unfold compose_loop round round_at strchr_percent after_round in refl
  compose_loop-format (text cs ∷ ps) (suc fuel) result ((t, p), h) l =
      compose_loop_plain g digit_value args (encode cs) (format ps) result fuel
        (encode-IsPlain cs t p)
      ∙ compose_loop-format ps (suc fuel) (result ++ encode cs) h
          (omega (arith, length-append (encode cs) (format ps)))
      ∙ ap (λ x. some (ok x)) (append_assoc result (encode cs) (meaning args ps))
  compose_loop-format (percent ∷ ps) (suc fuel) result (p, h) l =
      compose_loop_next g digit_value args fuel _ _ _ _
        (round_percent g digit_value args (format ps) result)
      ∙ compose_loop-format ps fuel (result ++ percent_sign ∷ []) h (omega arith)
      ∙ ap (λ x. some (ok x)) (append_assoc result (percent_sign ∷ []) (meaning args ps))
  compose_loop-format (slot d ∷ ps) (suc fuel) result ((h1, h9, hl), h) l =
      let arg = or_empty (get_elem? args (d - 1)) in
      compose_loop_next g digit_value args fuel _ _ _ _ (
        round_slot g digit_value args (b'0' + d) (format ps) result arg (omega arith)
          (argument_slot d h1 h9 hl))
      ∙ compose_loop-format ps fuel (result ++ arg) h (omega arith)
      ∙ ap (λ x. some (ok x)) (append_assoc result arg (meaning args ps))
  compose_loop-format (invalid c ∷ ps) (suc fuel) result (p, h) l =
      compose_loop_next g digit_value args fuel _ _ _ _ (
        round_invalid g digit_value args c (format ps) result laws p.0 p.1 p.2
          (argument_invalid c p))
      ∙ compose_loop-format ps fuel (result ++ percent_sign ∷ lead c ∷ trail c) h
          (omega (arith, length-append (trail c) (format ps)))
      ∙ ap (λ x. some (ok x))
          (append_assoc result (percent_sign ∷ lead c ∷ trail c) (meaning args ps))

  -- compose_private() copies text, replaces "%%" by '%' and "%d" by the d-th argument, and leaves a '%'
  -- before any other character as it is.
  pub compose_private-format :
      (ps : List Piece)
      → All (IsPiece args) ps
      → compose_private g digit_value args (format ps) ≡ some (ok (meaning args ps))
  unfolding compose_private
  compose_private-format ps h = compose_loop-format ps (length (format ps) + 1) [] h (omega arith)
