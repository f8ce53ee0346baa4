-- ===== src/StdString.antt =====
-- What glib/glibmm/ustring.cc uses of `std::string`, as the C++ standard defines it: a string is the
-- list of its bytes (any value, also 0), positions count bytes, and `npos` is the largest `size_t`.
-- The functions are generic in the unit, so that the same definitions describe texts of code points.
pub mod Laws
use mathlib.Core.List.{reverse}
use glibmm.Base.{
  ℕ, zero, suc, ◌+◌, ◌-◌, ◌≡◌, refl, Bool, true, false, not, ◌&&◌, List, [], ◌∷◌, ◌++◌, Result, ok,
  err, out_of_range, length_error, ◌>>=◌, ltb, leb, ◌==◌, if◌then◌else◌, length, take, drop,
  replicate, get_elem?, Option, none, some,
}

-- size_type is 64 bits wide.
abbrev pub npos : ℕ
npos = 0xFFFFFFFFFFFFFFFF

module _ {ℓ} {A : Type ℓ} where
  -- `s.substr(pos, n)`, and the copies that `assign`, `append` and the constructors make of a part.
  unfoldable pub substr : List A → ℕ → ℕ → Result (List A)
  substr s pos n = if leb pos (length s) then ok (take n (drop pos s)) else err out_of_range

  -- `std::string(p, n)` of a buffer that holds at least `n` bytes; `n == npos` exceeds max_size().
  unfoldable pub from_buffer : List A → ℕ → Result (List A)
  from_buffer p n = if n == npos then err length_error else ok (take n p)

  unfoldable pub insert : List A → ℕ → List A → Result (List A)
  insert s pos t =
      if leb pos (length s) then ok (take pos s ++ (t ++ drop pos s)) else err out_of_range

  -- The same with `n` bytes of a buffer; the position is checked first.
  unfoldable pub insert_buffer : List A → ℕ → List A → ℕ → Result (List A)
  insert_buffer s pos p n =
      if leb pos (length s)
      then if n == npos then err length_error else ok (take pos s ++ (take n p ++ drop pos s))
      else err out_of_range

  -- `n` is cut down to what the string holds.
  unfoldable pub replace : List A → ℕ → ℕ → List A → Result (List A)
  replace s pos n t =
      if leb pos (length s) then ok (take pos s ++ (t ++ drop n (drop pos s))) else err out_of_range

  unfoldable pub replace_buffer : List A → ℕ → ℕ → List A → ℕ → Result (List A)
  replace_buffer s pos n p m =
      if leb pos (length s)
      then if m == npos
        then err length_error
        else ok (take pos s ++ (take m p ++ drop n (drop pos s)))
      else err out_of_range

  -- The range between two iterators, which stand in the string and in this order.
  unfoldable pub replace_range : List A → ℕ → ℕ → List A → List A
  replace_range s first last t = take first s ++ (t ++ drop last s)

  unfoldable pub erase : List A → ℕ → ℕ → Result (List A)
  erase s pos n =
      if leb pos (length s) then ok (take pos s ++ drop n (drop pos s)) else err out_of_range

  unfoldable pub resize : List A → ℕ → A → List A
  resize s n c = if ltb n (length s) then take n s else s ++ replicate (n - length s) c

  or_out_of_range : Option A → Result A
  or_out_of_range none = err out_of_range
  or_out_of_range (some a) = ok a

  unfoldable pub at : List A → ℕ → Result A
  unfolding or_out_of_range
  at s pos = or_out_of_range (get_elem? s pos)

-- Whether a string starts with another.
unfoldable pub starts_with : List ℕ → List ℕ → Bool
starts_with [] s = true
starts_with (c ∷ t) [] = false
starts_with (c ∷ t) (d ∷ s) = c == d && starts_with t s

-- The first match of `t` in `s`, whose first unit stands at `pos`.
unfoldable pub find_scan : List ℕ → List ℕ → ℕ → ℕ
find_scan t [] pos = if starts_with t [] then pos else npos
find_scan t (d ∷ s) pos =
    let rest = find_scan t s (pos + 1) in if starts_with t (d ∷ s) then pos else rest

unfoldable pub find : List ℕ → List ℕ → ℕ → ℕ
unfolding find_scan starts_with
find s t pos = if leb pos (length s) then find_scan t (drop pos s) pos else npos

-- The last match at or before the limit; `found` is the last one so far.
unfoldable pub rfind_scan : List ℕ → List ℕ → ℕ → ℕ → ℕ → ℕ
rfind_scan t [] pos limit found = if leb pos limit && starts_with t [] then pos else found
rfind_scan t (d ∷ s) pos limit found =
    rfind_scan t s (pos + 1) limit (if leb pos limit && starts_with t (d ∷ s) then pos else found)

unfoldable pub rfind : List ℕ → List ℕ → ℕ → ℕ
unfolding rfind_scan starts_with
rfind s t pos = rfind_scan t s 0 pos npos

-- Whether a set holds a unit.
unfoldable pub contains : List ℕ → ℕ → Bool
contains [] c = false
contains (m ∷ set) c = let rest = contains set c in if m == c then true else rest

-- `negate` asks for a unit outside of the set.
unfoldable pub hits : List ℕ → Bool → ℕ → Bool
hits set negate c = if contains set c then not negate else negate

unfoldable pub first_of_scan : List ℕ → Bool → List ℕ → ℕ → ℕ
first_of_scan set negate [] pos = npos
first_of_scan set negate (c ∷ s) pos =
    let rest = first_of_scan set negate s (pos + 1) in if hits set negate c then pos else rest

-- find_first_of() and find_first_not_of().
unfoldable pub find_first_of : List ℕ → List ℕ → Bool → ℕ → ℕ
unfolding first_of_scan hits contains
find_first_of s set negate pos = first_of_scan set negate (drop pos s) pos

-- The first hit in a text that is read backwards, counted from the front.
unfoldable pub last_of_scan : List ℕ → Bool → List ℕ → ℕ
last_of_scan set negate [] = npos
last_of_scan set negate (c ∷ before) =
    let rest = last_of_scan set negate before in if hits set negate c then length before else rest

-- find_last_of() and find_last_not_of().
unfoldable pub find_last_of : List ℕ → List ℕ → Bool → ℕ → ℕ
unfolding last_of_scan hits contains
find_last_of s set negate pos = last_of_scan set negate (reverse (take (suc pos) s))

find_test : find (1 ∷ 2 ∷ 3 ∷ 2 ∷ 3 ∷ []) (2 ∷ 3 ∷ []) 2 ≡ 3
unfolding find
find_test = refl

rfind_test : rfind (1 ∷ 2 ∷ 3 ∷ 2 ∷ 3 ∷ []) (2 ∷ 3 ∷ []) npos ≡ 3
unfolding rfind
rfind_test = refl

find_last_of_test : find_last_of (1 ∷ 2 ∷ 3 ∷ 1 ∷ []) (1 ∷ []) true 3 ≡ 2
unfolding find_last_of
find_last_of_test = refl
