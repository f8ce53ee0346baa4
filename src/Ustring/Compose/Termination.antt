-- ===== src/Ustring/Compose/Termination.antt =====
-- The loop of compose_private() on a valid text: it ends, and reads nothing behind the format.
use glibmm.Base.{
  ℕ, zero, suc, ◌+◌, ◌<◌, ◌≡◌, ◌≢◌, refl, sym, ap, subst, ◌∙◌, true, false, List, [], ◌∷◌, ◌++◌,
  Option, none, some, ok, arith, ltb, ◌==◌, length, length-append, Bool-cases, inl, inr, ==_eq,
}
use glibmm.Utf8.{IsUnichar, IsText, lead, trail, encode}
use glibmm.Utf8.Bounds.{trail-IsCont}
use glibmm.GlibUtf8.{GlibUtf8, IsGlibUtf8}
use glibmm.Ustring.Compose.{
  percent_sign, strchr_percent, first_byte, next, argument, argument_at, copy_through,
  invalid_substitution, substitute, round_at, round, after_round, compose_loop, compose_private,
}
use glibmm.Ustring.Compose.Rounds.{
  IsPlain, lead-IsPlain, conts-IsPlain, compose_loop_plain, compose_loop_next, round_percent,
  round_slot, round_invalid,
}
use glibmm.Ustring.Compose.Templates.{IsDigitValue}

lead-ascii : (c : ℕ) → ltb c 0x80 ≡ true → lead c ≡ c
unfolding lead
lead-ascii c h = rw h

encode-ascii : (c : ℕ) (cs : List ℕ) → ltb c 0x80 ≡ true → encode (c ∷ cs) ≡ c ∷ encode cs
unfolding lead trail
encode-ascii c cs h = rw h

module _ (g : GlibUtf8) (laws : IsGlibUtf8 g) (digit_value : ℕ → Option ℕ)
    (digits : IsDigitValue digit_value) (args : List (List ℕ)) where
  -- The loop returns a text.
  abbrev Returns : ℕ → List ℕ → List ℕ → Type 0
  Returns fuel start result =
      (r : List ℕ) × (compose_loop g digit_value args fuel start result ≡ some (ok r))

  character-IsPlain : (c : ℕ) → IsUnichar c → c ≢ percent_sign → c ≢ 0 → IsPlain (lead c ∷ trail c)
  character-IsPlain c h p z = (lead-IsPlain c (p, z), conts-IsPlain (trail c) (trail-IsCont c h))

  -- At the end of the format or at a null character, the rest is copied.
  ends :
      (fuel : ℕ) (start result : List ℕ)
      → strchr_percent start ≡ none
      → Returns (suc fuel) start result
  unfolding compose_loop after_round round round_at
  ends fuel start result e = (result ++ start, rw e refl)

  advances :
      (fuel : ℕ) (start result s r : List ℕ)
      → round g digit_value args start result ≡ next s r
      → Returns fuel s r
      → Returns (suc fuel) start result
  advances fuel start result s r e (t, c) =
      (t, compose_loop_next g digit_value args fuel start result s r e ∙ c)

  -- The first byte of a character of several bytes selects no argument.
  no_argument :
      (c : ℕ) → IsUnichar c → ltb c 0x80 ≡ false → argument g digit_value args (lead c) ≡ none
  unfolding argument
  no_argument c u h =
      ap (argument_at g digit_value args) (digits.other (lead c) (inr (above c u h)))
      ∙ unfold argument_at in refl
    where
      above : (c : ℕ) → IsUnichar c → ltb c 0x80 ≡ false → b'9' < lead c
      above c u h = unfold lead in ground arith

  -- The texts behind a '%'.
  percent_last :
      (result : List ℕ)
      → round g digit_value args (percent_sign ∷ []) result ≡ next [] (result ++ percent_sign ∷ [])
  unfolding round round_at strchr_percent first_byte substitute invalid_substitution copy_through
      argument argument_at
  percent_last result = rw (digits.other 0 (inl (omega arith))) refl

  percent_null :
      (s result : List ℕ)
      → round g digit_value args (percent_sign ∷ 0 ∷ s) result
        ≡ next (0 ∷ s) (result ++ percent_sign ∷ [])
  unfolding round round_at strchr_percent first_byte substitute invalid_substitution copy_through
      argument argument_at
  percent_null s result = rw (digits.other 0 (inl (omega arith))) (ground arith)

  at_null : (s : List ℕ) → strchr_percent (0 ∷ s) ≡ none
  unfolding strchr_percent
  at_null s = refl

  -- The loop returns on every shorter format.
  abbrev ReturnsBelow : ℕ → Type 0
  ReturnsBelow fuel =
      (s r : List ℕ) → IsText s → length (encode s) < fuel → Returns fuel (encode s) r

  goes_on_behind :
      (c : ℕ) (cs : List ℕ) (fuel : ℕ) (result : List ℕ)
      → IsUnichar c
      → IsText cs
      → length (encode (c ∷ cs)) < fuel
      → ReturnsBelow fuel
      → c ≢ percent_sign
      → c ≢ 0
      → argument g digit_value args (lead c) ≡ none
      → Returns (suc fuel) (percent_sign ∷ encode (c ∷ cs)) result
  goes_on_behind c cs fuel result u t h ih p z e =
      advances fuel _ result (encode cs) _
        (round_invalid g digit_value args c (encode cs) result laws u p z e)
        (ih cs _ t (omega (arith, length-append (trail c) (encode cs))))

  goes_on_ascii :
      (c : ℕ) (cs : List ℕ) (fuel : ℕ) (result : List ℕ) (o : Option (List ℕ))
      → IsUnichar c
      → IsText cs
      → length (encode (c ∷ cs)) < fuel
      → ReturnsBelow fuel
      → c ≢ percent_sign
      → c ≢ 0
      → ltb c 0x80 ≡ true
      → argument g digit_value args c ≡ o
      → Returns (suc fuel) (percent_sign ∷ encode (c ∷ cs)) result
  goes_on_ascii c cs fuel result none u t h ih p z small e =
      goes_on_behind c cs fuel result u t h ih p z
        (ap (argument g digit_value args) (lead-ascii c small) ∙ e)
  goes_on_ascii c cs fuel result (some arg) u t h ih p z small e =
      subst (λ x. Returns (suc fuel) (percent_sign ∷ x) result) (sym (encode-ascii c cs small))
        (advances fuel _ result (encode cs) _
          (round_slot g digit_value args c (encode cs) result arg p e)
          (ih cs _ t (omega (arith, length-append (trail c) (encode cs)))))

  after_percent :
      (c : ℕ) (cs : List ℕ) (fuel : ℕ) (result : List ℕ)
      → IsUnichar c
      → IsText cs
      → length (encode (c ∷ cs)) < fuel
      → ReturnsBelow fuel
      → Returns (suc fuel) (percent_sign ∷ encode (c ∷ cs)) result
  after_percent c cs fuel result u t h ih = elim (Bool-cases (c == 0)) [
    | inl null ↦
        let q = ==_eq c 0 null in
        let first : encode (c ∷ cs) ≡ 0 ∷ encode cs =
          encode-ascii c cs (ground arith) ∙ ap (λ x. x ∷ encode cs) q in
        subst (λ x. Returns (suc fuel) (percent_sign ∷ x) result) (sym first)
          (advances fuel _ result (0 ∷ encode cs) _ (percent_null (encode cs) result) (
            subst (λ x. Returns fuel x (result ++ percent_sign ∷ [])) first
              (ih (c ∷ cs) _ (u, t) h)))
    | inr no_null ↦ elim (Bool-cases (c == percent_sign)) [
      | inl percent ↦
          let q = ==_eq c percent_sign percent in
          let first : encode (c ∷ cs) ≡ percent_sign ∷ encode cs =
            encode-ascii c cs (ground arith) ∙ ap (λ x. x ∷ encode cs) q in
          subst (λ x. Returns (suc fuel) (percent_sign ∷ x) result) (sym first)
            (advances fuel _ result (encode cs) _
              (round_percent g digit_value args (encode cs) result)
              (ih cs _ t (omega (arith, length-append (trail c) (encode cs)))))
      | inr other ↦ elim (Bool-cases (ltb c 0x80)) [
        | inl small ↦
            goes_on_ascii c cs fuel result (argument g digit_value args c) u t h ih
              (λ e. ground arith) (λ e. ground arith) small refl
        | inr large ↦
            goes_on_behind c cs fuel result u t h ih (λ e. ground arith) (λ e. ground arith)
              (no_argument c u large)
      ]
    ]
  ]

  compose_loop_one :
      (cs : List ℕ) (fuel : ℕ) (result : List ℕ)
      → IsText cs
      → length (encode cs) < suc fuel
      → ReturnsBelow fuel
      → Returns (suc fuel) (encode cs) result
  compose_loop_one [] fuel result t h ih = ends fuel [] result (unfold strchr_percent in refl)
  compose_loop_one (c ∷ cs) fuel result (u, t) h ih = elim (Bool-cases (c == percent_sign)) [
    | inl percent ↦
        subst (λ x. Returns (suc fuel) x result) (sym (first c percent_sign percent refl))
          (behind cs t (omega (arith, length-append (trail c) (encode cs))))
    | inr other ↦ elim (Bool-cases (c == 0)) [
      | inl null ↦
          subst (λ x. Returns (suc fuel) x result) (sym (first c 0 null refl))
            (ends fuel (0 ∷ encode cs) result (at_null (encode cs)))
      | inr no_null ↦
          let (r, k) =
            compose_loop_one cs fuel (result ++ lead c ∷ trail c) t
              (omega (arith, length-append (trail c) (encode cs))) ih in
          (
            r,
            compose_loop_plain g digit_value args (lead c ∷ trail c) (encode cs) result fuel
                  (character-IsPlain c u (λ e. ground arith) (λ e. ground arith))
                ∙ k,
          )
    ]
  ]
    where
      first : (c b : ℕ) → (c == b) ≡ true → ltb b 0x80 ≡ true → encode (c ∷ cs) ≡ b ∷ encode cs
      first c b e small =
          let q = ==_eq c b e in
          encode-ascii c cs (ap (λ x. ltb x 0x80) q ∙ small) ∙ ap (λ x. x ∷ encode cs) q

      behind :
          (ds : List ℕ)
          → IsText ds
          → length (encode ds) < fuel
          → Returns (suc fuel) (percent_sign ∷ encode ds) result
      behind [] t h = advances fuel _ result [] _ (percent_last result) (ih [] _ tt h)
      behind (d ∷ ds) (v, t) h = after_percent d ds fuel result v t h ih

  compose_loop_ends : (fuel : ℕ) → ReturnsBelow fuel
  compose_loop_ends zero cs result t h = absurd (omega arith)
  compose_loop_ends (suc fuel) cs result t h =
      compose_loop_one cs fuel result t h (compose_loop_ends fuel)

  -- On a format that is valid UTF-8, whatever its '%' stand before, compose_private() returns a text, and
  -- reads nothing behind the end of the format.
  pub compose_private_total :
      (fmt : List ℕ)
      → IsText fmt
      → (r : List ℕ) × (compose_private g digit_value args (encode fmt) ≡ some (ok r))
  unfolding compose_private
  compose_private_total fmt t = compose_loop_ends (length (encode fmt) + 1) fmt [] t (omega arith)
