-- ===== src/Ustring/Compose/Rounds.antt =====
-- The rounds of compose_private()'s loop, for what may stand at `start`.
use mathlib.Core.Option
use glibmm.Base.{
  ℕ, suc, ◌+◌, ◌≡◌, ◌≢◌, refl, sym, ap, ◌∙◌, inl, inr, List, [], ◌∷◌, ◌++◌, append_assoc,
  append-nil, ok, Option, none, some, arith, ltb, ◌==◌, length, length-append, take, drop,
  take-length-append, drop-length-append, Bool-cases, ne→not-==, All, All-append,
}
use glibmm.Utf8.{IsUnichar, IsText, lead, trail, encode}
use glibmm.Utf8.Bounds.{IsCont, trail-IsCont}
use glibmm.GlibUtf8.{GlibUtf8, IsGlibUtf8}
use glibmm.Ustring.Compose.{
  percent_sign, strchr_percent, first_byte, next, done, argument, copy_through,
  invalid_substitution, substitute, round_at, round, after_round, compose_loop,
}

ltb-suc : (a b : ℕ) → ltb (suc a) (suc b) ≡ ltb a b
ltb-suc a b = ground arith

abbrev pub IsPlain : List ℕ → Type 0
IsPlain = All (λ b. (b ≢ percent_sign) × (b ≢ 0))

pub lead-IsPlain : (c : ℕ) → (c ≢ percent_sign) × (c ≢ 0) → (lead c ≢ percent_sign) × (lead c ≢ 0)
unfolding lead
lead-IsPlain c h = (ground arith, ground arith)

pub conts-IsPlain : (bs : List ℕ) → All IsCont bs → IsPlain bs
conts-IsPlain [] h = tt
conts-IsPlain (b ∷ bs) (k, h) = ((omega arith, omega arith), conts-IsPlain bs h)

pub encode-IsPlain :
    (cs : List ℕ) → IsText cs → All (λ c. (c ≢ percent_sign) × (c ≢ 0)) cs → IsPlain (encode cs)
encode-IsPlain [] t h = tt
encode-IsPlain (c ∷ cs) (hc, t) (p, h) = (
  lead-IsPlain c p,
  All-append (λ b. (b ≢ percent_sign) × (b ≢ 0)) (trail c) (encode cs)
      (conts-IsPlain (trail c) (trail-IsCont c hc)) (encode-IsPlain cs t h),
)

strchr_percent_plain :
    (b : ℕ) (s : List ℕ)
    → (b ≢ percent_sign) × (b ≢ 0)
    → strchr_percent (b ∷ s) ≡ Option.map suc (strchr_percent s)
unfolding strchr_percent
strchr_percent_plain b s (h, z) = ground arith

module _ (g : GlibUtf8) (digit_value : ℕ → Option ℕ) (args : List (List ℕ)) where
  -- A plain byte moves to the result.
  copy_through_plain :
      (b : ℕ) (s result : List ℕ) (end end' : ℕ)
      → end' ≡ suc end
      → copy_through g digit_value args (b ∷ s) end' result
        ≡ copy_through g digit_value args s end (result ++ b ∷ [])
  unfolding copy_through
  copy_through_plain b s result end end' e =
      rw (e, ltb-suc (length s) end)
        (elim (Bool-cases (ltb (length s) end)) [
          | inl short ↦ rw short
          | inr long ↦
              rw long (ap (next (drop end s)) (sym (append_assoc result (b ∷ []) (take end s))))
        ])

  invalid_substitution_plain :
      (b : ℕ) (s result : List ℕ) (stop : ℕ)
      → invalid_substitution g digit_value args (b ∷ s) (suc stop) result
        ≡ invalid_substitution g digit_value args s stop (result ++ b ∷ [])
  unfolding invalid_substitution
  invalid_substitution_plain b s result stop =
      let e : suc stop + 1 ≡ suc (stop + 1) = omega arith in
      rw e (copy_through_plain b s result _ _ (omega arith))

  substitute_plain :
      (b : ℕ) (s result : List ℕ) (stop : ℕ) (o : Option (List ℕ))
      → substitute g digit_value args (b ∷ s) (suc stop) result o
        ≡ substitute g digit_value args s stop (result ++ b ∷ []) o
  unfolding substitute
  substitute_plain b s result stop none = invalid_substitution_plain b s result stop
  substitute_plain b s result stop (some arg) =
      let e : suc stop + 2 ≡ suc (stop + 2) = omega arith in
      rw e (
        ap (λ t. next (drop (stop + 2) s) (t ++ arg))
          (sym (append_assoc result (b ∷ []) (take stop s))))

  round_at_plain :
      (b : ℕ) (s result : List ℕ) (o : Option ℕ)
      → round_at g digit_value args (b ∷ s) result (Option.map suc o)
        ≡ round_at g digit_value args s (result ++ b ∷ []) o
  unfolding round_at
  round_at_plain b s result none = ap (λ t. done (ok t)) (sym (append_assoc result (b ∷ []) s))
  round_at_plain b s result (some stop) =
      let e : suc stop + 1 ≡ suc (stop + 1) = omega arith in
      let e' : suc stop + 2 ≡ suc (stop + 2) = omega arith in
      rw (e, e', substitute_plain b s result stop)
        (elim (Bool-cases (first_byte (drop (stop + 1) s) == percent_sign)) [
          | inl h ↦ rw h (
              ap (next (drop (stop + 2) s))
                (sym (append_assoc result (b ∷ []) (take (stop + 1) s))))
          | inr h ↦ rw h
        ])

  round_plain :
      (b : ℕ) (s result : List ℕ)
      → (b ≢ percent_sign) × (b ≢ 0)
      → round g digit_value args (b ∷ s) result ≡ round g digit_value args s (result ++ b ∷ [])
  unfolding round
  round_plain b s result h =
      rw (strchr_percent_plain b s h) (round_at_plain b s result (strchr_percent s))

  pub compose_loop_plain :
      (ls s result : List ℕ) (fuel : ℕ)
      → IsPlain ls
      → compose_loop g digit_value args (suc fuel) (ls ++ s) result
        ≡ compose_loop g digit_value args (suc fuel) s (result ++ ls)
  compose_loop_plain [] s result fuel h =
      ap (compose_loop g digit_value args (suc fuel) s) (sym (append-nil result))
  compose_loop_plain (b ∷ ls) s result fuel (p, h) =
      step
      ∙ compose_loop_plain ls s (result ++ b ∷ []) fuel h
      ∙ ap (compose_loop g digit_value args (suc fuel) s) (append_assoc result (b ∷ []) ls)
    where
      step :
          compose_loop g digit_value args (suc fuel) ((b ∷ ls) ++ s) result
          ≡ compose_loop g digit_value args (suc fuel) (ls ++ s) (result ++ b ∷ [])
      step =
          unfold compose_loop in
          ap (after_round g digit_value args (compose_loop g digit_value args fuel))
            (round_plain b (ls ++ s) result p)

  -- A round that goes on.
  pub compose_loop_next :
      (fuel : ℕ) (start result s r : List ℕ)
      → round g digit_value args start result ≡ next s r
      → compose_loop g digit_value args (suc fuel) start result
        ≡ compose_loop g digit_value args fuel s r
  unfolding compose_loop after_round
  compose_loop_next fuel start result s r e = rw e

  pub round_percent :
      (s result : List ℕ)
      → round g digit_value args (percent_sign ∷ percent_sign ∷ s) result
        ≡ next s (result ++ percent_sign ∷ [])
  unfolding round round_at strchr_percent first_byte
  round_percent s result = refl

  pub round_slot :
      (c : ℕ) (s result arg : List ℕ)
      → c ≢ percent_sign
      → argument g digit_value args c ≡ some arg
      → round g digit_value args (percent_sign ∷ c ∷ s) result ≡ next s (result ++ arg)
  unfolding round round_at strchr_percent first_byte substitute
  round_slot c s result arg h e = rw (ne→not-== c percent_sign h, e, append-nil)

  pub round_invalid :
      (c : ℕ) (s result : List ℕ)
      → IsGlibUtf8 g
      → IsUnichar c
      → c ≢ percent_sign
      → c ≢ 0
      → argument g digit_value args (lead c) ≡ none
      → round g digit_value args (percent_sign ∷ lead c ∷ trail c ++ s) result
        ≡ next s (result ++ percent_sign ∷ lead c ∷ trail c)
  unfolding round round_at strchr_percent first_byte substitute invalid_substitution copy_through
  round_invalid c s result laws h p z e =
      let k = lead-IsPlain c (p, z) in
      let w : 1 + g.skip (lead c) ≡ suc (suc (length (trail c))) =
        omega (arith, laws.skip-lead c h) in
      rw (ne→not-== (lead c) percent_sign k.0, e, ne→not-== (lead c) 0 k.1, w)
        (rw (take-length-append (trail c) s, drop-length-append (trail c) s)
          (ground (arith, length-append (trail c) s)))
