-- ===== src/Mmgir/Names.antt =====
-- Names as texts, and maps and sets of them.
use Prim.Native.Char.{code}
pub use Prim.Native.String.{String}
use Prim.Native.String
pub use text.Mathlib.Text.{◌==◌ as str_eq}
pub use text.Mathlib.TextEquality.{eq_iff}
pub use text.Mathlib.TextPositions.{eq_refl}
use glibmm.Base.{
  ◌≡◌, ◌≢◌, refl, Bool, true, false, ◌||◌, List, [], ◌∷◌, Option, none, some, ◌==◌, if◌then◌else◌,
  arith, ◌⊎◌, inl,
}
use mathlib.Core.Option

-- `name.find('.') != npos`
unfoldable pub has_dot : String → Bool
has_dot String.[] = false
has_dot (String.◌∷◌ c s) = code c == b'.' || has_dot s

-- `name.substr(0, name.find('.'))`, if there is a dot.
pub before_dot : String → Option String
before_dot String.[] = none
before_dot (String.◌∷◌ c s) =
    let rest = Option.map (λ t. String.◌∷◌ c t) (before_dot s) in
    if code c == b'.' then some String.[] else rest

-- `format("{}.{}", namespace_name, name)`
unfoldable pub qualified : String → String → String
qualified namespace_name name = String.◌++◌ namespace_name (String.◌++◌ "." name)

unfoldable pub is_empty : String → Bool
is_empty String.[] = true
is_empty (String.◌∷◌ c s) = false

-- `name.at(0) == '_'`
unfoldable pub is_private : String → Bool
is_private String.[] = false
is_private (String.◌∷◌ c s) = code c == b'_'

-- std::map::find of a table.
unfoldable pub find {ℓ} : {V : Type ℓ} → String → List (String × V) → Option V
find k [] = none
find k ((j, v) ∷ m) = if str_eq j k then some v else find k m

abbrev pub is_some {ℓ} : {V : Type ℓ} → Option V → Bool
is_some none = false
is_some (some v) = true

abbrev pub update {ℓ} : {V : Type ℓ} → (String → Option V) → String → V → String → Option V
update m k v j = if str_eq k j then some v else m j

abbrev pub In : String → List String → Type 0
In n [] = ⊥
In n (m ∷ ms) = (n ≡ m) ⊎ In n ms

-- std::set::insert and erase; the order of a set is left out.
unfoldable pub insert : String → List String → List String
insert n [] = n ∷ []
insert n (m ∷ ms) = if str_eq m n then m ∷ ms else m ∷ insert n ms

unfoldable pub erase : String → List String → List String
erase n [] = []
erase n (m ∷ ms) = if str_eq m n then erase n ms else m ∷ erase n ms

pub str_eq-eq : (s t : String) → str_eq s t ≡ true → s ≡ t
str_eq-eq s t h = (eq_iff s t).0 h

pub In-insert : (n : String) (ms : List String) → In n (insert n ms)
unfolding insert
In-insert n [] = inl refl
In-insert n (m ∷ ms) = ground (arith, eq_iff m n, In-insert n ms)

pub In-insert_other : (n k : String) (ms : List String) → In n ms → In n (insert k ms)
unfolding insert
In-insert_other n k [] h = absurd h
In-insert_other n k (m ∷ ms) h = ground (arith, eq_iff m k, In-insert_other n k ms)

pub insert-In : (n k : String) (ms : List String) → In n (insert k ms) → (n ≡ k) ⊎ In n ms
unfolding insert
insert-In n k [] h = h
insert-In n k (m ∷ ms) h = ground (arith, eq_iff m k, insert-In n k ms)

pub erase-In : (n k : String) (ms : List String) → In n (erase k ms) → (n ≢ k) × In n ms
unfolding erase
erase-In n k [] h = absurd h
erase-In n k (m ∷ ms) h = ground (arith, eq_iff m k, erase-In n k ms)

pub In-erase : (n k : String) (ms : List String) → In n ms → n ≢ k → In n (erase k ms)
unfolding erase
In-erase n k [] h d = absurd h
In-erase n k (m ∷ ms) h d = ground (arith, eq_iff m k, In-erase n k ms)
