-- ===== src/Base/Options.antt =====
-- The constructors of Option are injective and differ.
use mathlib.Core.Path.{◌≡◌}
use mathlib.Core.Option.{none, some}

pub none-some {ℓ} : {A : Type ℓ} {a : A} → none ≡ some a → ⊥
none-some h = cc

pub some_eq {ℓ} : {A : Type ℓ} {a b : A} → some a ≡ some b → a ≡ b
some_eq h = cc
