-- ===== src/StdString/Laws.antt =====
-- Laws of the string operations that the texts share.
use glibmm.Base.{
  ℕ, zero, suc, ◌≡◌, refl, true, false, List, [], ◌∷◌, ◌++◌, Result, ok, err, out_of_range, arith,
  length, leb, drop, ==_refl,
}
use glibmm.StdString.{npos, at, starts_with, find, find_scan}

module _ {ℓ} {A : Type ℓ} where
  abbrev pub front : List A → Result A
  front [] = err out_of_range
  front (x ∷ xs) = ok x

  -- at() reads the first unit behind the position.
  pub at-drop : (s : List A) (pos : ℕ) → at s pos ≡ front (drop pos s)
  unfolding at
  at-drop [] zero = refl
  at-drop [] (suc pos) = refl
  at-drop (x ∷ s) zero = refl
  at-drop (x ∷ s) (suc pos) = at-drop s pos

pub starts_with-append : (xs t s : List ℕ) → starts_with (xs ++ t) (xs ++ s) ≡ starts_with t s
unfolding starts_with
starts_with-append [] t s = refl
starts_with-append (x ∷ xs) t s = rw (==_refl x) (starts_with-append xs t s)

pub starts_with-eq : (t s : List ℕ) → starts_with t s ≡ true → s ≡ t ++ drop (length t) s
unfolding starts_with
starts_with-eq [] s h = refl
starts_with-eq (c ∷ t) [] h = cc
starts_with-eq (c ∷ t) (d ∷ s) h = ground (arith, starts_with-eq t s)

pub find_inside :
    (s t : List ℕ) (pos : ℕ)
    → leb pos (length s) ≡ true
    → find s t pos ≡ find_scan t (drop pos s) pos
unfolding find
find_inside s t pos e = rw e

pub find_beyond : (s t : List ℕ) (pos : ℕ) → leb pos (length s) ≡ false → find s t pos ≡ npos
unfolding find
find_beyond s t pos e = rw e
