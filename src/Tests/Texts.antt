-- ===== src/Tests/Texts.antt =====
-- "aé€a" and "€a" as code points, and what the theorems about them assume.
use glibmm.Base.{ℕ, List, [], ◌∷◌, arith}
use glibmm.Utf8.{IsText, lead, trail}
use glibmm.Utf8.Bounds.{Fits}
use glibmm.Ustring.Offsets.CStrings.{NoNull}

abbrev pub mixed : List ℕ
mixed = 0x61 ∷ 0xE9 ∷ 0x20AC ∷ 0x61 ∷ []

abbrev pub needle : List ℕ
needle = 0x20AC ∷ 0x61 ∷ []

pub mixed-IsText : IsText mixed
mixed-IsText = omega arith

pub mixed-Fits : Fits mixed
unfolding lead trail
mixed-Fits = omega arith

pub mixed-NoNull : NoNull mixed
mixed-NoNull = omega arith

pub needle-IsText : IsText needle
needle-IsText = omega arith

pub needle-Fits : Fits needle
unfolding lead trail
needle-Fits = omega arith

pub needle-NoNull : NoNull needle
needle-NoNull = omega arith
