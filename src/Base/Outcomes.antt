-- ===== src/Base/Outcomes.antt =====
-- C++ calls that may throw, and calls whose behaviour the standard leaves undefined.

-- Two are no exceptions of C++: `undefined_behaviour` marks a read outside of an object, and
-- `assertion_failed` a g_assert() that aborts the program.
pub data Exception : Type 0 where
  out_of_range length_error bad_optional_access assertion_failed undefined_behaviour : Exception

pub data Result {ℓ} (A : Type ℓ) : Type ℓ where
  ok : A → Result A
  err : Exception → Result A

infixl 5 ◌>>=◌
abbrev pub ◌>>=◌ {ℓ κ} : {A : Type ℓ} {B : Type κ} → Result A → (A → Result B) → Result B
ok a >>= f = f a
err e >>= f = err e

abbrev pub map_ok {ℓ κ} : {A : Type ℓ} {B : Type κ} → (A → B) → Result A → Result B
map_ok f (ok a) = ok (f a)
map_ok f (err e) = err e
