-- ===== src/Ustring/Compose.antt =====
-- ustring::compose_private() of glib/glibmm/ustring.cc. `start` is the bytes from the source's `start`
-- to the end of `fmt`, behind which the C string has its '\0'. `none` is a loop that has not ended within
-- its fuel. The warning about an invalid substitution goes to a log and is left out.
pub mod Termination
pub mod Rounds
pub mod Templates
use glibmm.Base.{
  ℕ, zero, suc, ◌+◌, ◌-◌, ◌≡◌, refl, Bool, true, false, List, [], ◌∷◌, ◌++◌, Result, ok, err,
  undefined_behaviour, Option, none, some, ltb, ◌==◌, if◌then◌else◌, length, take, drop, get_elem?,
}
use mathlib.Core.Option
use glibmm.GlibUtf8.{GlibUtf8}

abbrev pub percent_sign : ℕ
percent_sign = b'%'

-- strchr(start, '%') - start: the search ends at a null character.
pub strchr_percent : List ℕ → Option ℕ
strchr_percent [] = none
strchr_percent (b ∷ s) =
    let rest = Option.map suc (strchr_percent s) in
    if b == percent_sign then some 0 else if b == 0 then none else rest

-- The byte at a pointer, 0 at the end.
pub first_byte : List ℕ → ℕ
first_byte [] = 0
first_byte (b ∷ s) = b

-- After a round: the loop goes on from `start`, or the function returns.
pub data Round : Type 0 where
  next : List ℕ → List ℕ → Round
  done : Result (List ℕ) → Round

module _ (g : GlibUtf8) (digit_value : ℕ → Option ℕ) (args : List (List ℕ)) where
  -- `(*(ilist.begin() + index))->raw()` for an index in range; digit_value() is -1 for `none`.
  pub argument_at : Option ℕ → Option (List ℕ)
  argument_at none = none
  argument_at (some zero) = none
  argument_at (some (suc index)) = get_elem? args index

  pub argument : ℕ → Option (List ℕ)
  argument c = argument_at (digit_value c)

  -- `result.append(start, next - start); start = next;` Behind a last character that is cut short, the
  -- source goes on beyond the end of the format; the model stops there.
  pub copy_through : List ℕ → ℕ → List ℕ → Round
  copy_through start end result =
      if ltb (length start) end
      then done (err undefined_behaviour)
      else next (drop end start) (result ++ take end start)

  -- Copies an invalid substitution.
  pub invalid_substitution : List ℕ → ℕ → List ℕ → Round
  invalid_substitution start stop result =
      let c = first_byte (drop (stop + 1) start) in
      copy_through start (stop + 1 + (if c == 0 then 0 else g.skip c)) result

  -- `start` up to `stop` is copied, then the argument, if there is one.
  pub substitute : List ℕ → ℕ → List ℕ → Option (List ℕ) → Round
  substitute start stop result none = invalid_substitution start stop result
  substitute start stop result (some arg) =
      next (drop (stop + 2) start) ((result ++ take stop start) ++ arg)

  -- One round, for the result of strchr().
  pub round_at : List ℕ → List ℕ → Option ℕ → Round
  round_at start result none = done (ok (result ++ start))
  round_at start result (some stop) =
      let c = first_byte (drop (stop + 1) start) in
      if c == percent_sign
      then next (drop (stop + 2) start) (result ++ take (stop + 1) start)
      else substitute start stop result (argument c)

  pub round : List ℕ → List ℕ → Round
  round start result = round_at start result (strchr_percent start)

  -- `go_on` is the loop with less fuel.
  pub after_round : (List ℕ → List ℕ → Option (Result (List ℕ))) → Round → Option (Result (List ℕ))
  after_round go_on (next start result) = go_on start result
  after_round go_on (done result) = some result

  pub compose_loop : ℕ → List ℕ → List ℕ → Option (Result (List ℕ))
  compose_loop zero start result = none
  compose_loop (suc fuel) start result = after_round (compose_loop fuel) (round start result)

  pub compose_private : List ℕ → Option (Result (List ℕ))
  compose_private fmt = compose_loop (length fmt + 1) fmt []
