-- ===== src/Mmgir/TypeCasts.antt =====
-- build_identifier_prefixes() and gen_c_type_cast() of tools/mmgir/gen_defs.cc. Names are lists of ASCII
-- codes; to_upper and is_upper are those of the C locale.
pub mod Prefixes
use Prim.Native.Char.{code}
use Prim.Native.String.{String}
use Prim.Native.String
use mathlib.Core.List.{map}
use glibmm.Base.{
  ℕ, ◌-◌, Bool, true, false, not, ◌&&◌, ◌||◌, List, [], ◌∷◌, ◌++◌, Option, none, some, Result, ok,
  err, undefined_behaviour, ltb, leb, ◌==◌, if◌then◌else◌, length, take, drop, suc, ◌≡◌, refl,
}

abbrev pub codes : String → List ℕ
codes String.[] = []
codes (String.◌∷◌ c s) = code c ∷ codes s

abbrev pub Name : Type 0
Name = List ℕ

-- std::set::insert with LongestToShortest, by which names of the same size are the same.
pub insert_prefix : Name → List Name → List Name
insert_prefix p [] = p ∷ []
insert_prefix p (q ∷ qs) =
    if length p == length q
    then q ∷ qs
    else if ltb (length q) (length p)
    then p ∷ q ∷ qs
    else q ∷ insert_prefix p qs

pub insert_prefixes : List Name → List Name → List Name
insert_prefixes unique [] = unique
insert_prefixes unique (p ∷ ps) = insert_prefixes (insert_prefix p unique) ps

-- The identifier prefixes of the repository, then those of the namespace.
pub build_identifier_prefixes : List Name → List Name → List Name
unfolding insert_prefixes insert_prefix
build_identifier_prefixes repo ns = insert_prefixes (insert_prefixes [] repo) ns

unfoldable pub is_upper : ℕ → Bool
is_upper c = leb b'A' c && leb c b'Z'

pub is_lower_or_digit : ℕ → Bool
is_lower_or_digit c = (leb b'0' c && leb c b'9') || (leb b'a' c && leb c b'z')

pub to_upper : ℕ → ℕ
to_upper c = if leb b'a' c && leb c b'z' then c - 32 else c

-- regex_replace of ([^A-Z])([A-Z]) by $1_$2: matches do not overlap.
pub lower_to_upper : Name → Name
unfolding is_upper
lower_to_upper [] = []
lower_to_upper (a ∷ []) = a ∷ []
lower_to_upper (a ∷ b ∷ rest) =
    let matched = a ∷ b'_' ∷ b ∷ lower_to_upper rest in
    let passed = a ∷ lower_to_upper (b ∷ rest) in
    if not (is_upper a) && is_upper b then matched else passed

-- regex_replace of ([A-Z][A-Z])([A-Z][0-9a-z]) by $1_$2.
pub acronyms : Name → Name
unfolding is_upper is_lower_or_digit
acronyms (a ∷ b ∷ c ∷ d ∷ rest) =
    let matched = a ∷ b ∷ b'_' ∷ c ∷ d ∷ acronyms rest in
    let passed = a ∷ acronyms (b ∷ c ∷ d ∷ rest) in
    if is_upper a && is_upper b && is_upper c && is_lower_or_digit d then matched else passed
acronyms short = short

pub words : Name → Name
unfolding lower_to_upper acronyms to_upper
words name = map to_upper (acronyms (lower_to_upper name))

abbrev pub type_infix : Name
type_infix = b'_' ∷ b'T' ∷ b'Y' ∷ b'P' ∷ b'E' ∷ b'_' ∷ []

-- `c_type.find(p) == 0`, with what follows.
pub after_prefix : Name → Name → Option Name
after_prefix [] name = some name
after_prefix (p ∷ ps) [] = none
after_prefix (p ∷ ps) (c ∷ cs) = if p == c then after_prefix ps cs else none

-- std::find_if over the prefixes: the prefix, and what follows it.
first_found : Name → Option Name → Option (Name × Name) → Option (Name × Name)
first_found p none later = later
first_found p (some rest) later = some (p, rest)

pub known_prefix : List Name → Name → Option (Name × Name)
unfolding first_found
known_prefix [] c_type = none
known_prefix (p ∷ ps) c_type = first_found p (after_prefix p c_type) (known_prefix ps c_type)

-- The number of characters before the first one in upper case.
pub before_upper : Name → ℕ
before_upper [] = 0
before_upper (c ∷ cs) = let later = suc (before_upper cs) in if is_upper c then 0 else later

-- The first word is the first character and what follows it up to one in upper case.
cast_first_word : Name → Result Name
unfolding before_upper
cast_first_word [] = err undefined_behaviour
cast_first_word (c ∷ cs) =
    let pos = suc (before_upper cs) in
    ok (map to_upper (take pos (c ∷ cs)) ++ (type_infix ++ words (drop (pos - 1) (c ∷ cs))))

cast_at : Name → Option (Name × Name) → Result Name
unfolding cast_first_word
cast_at c_type none = cast_first_word c_type
cast_at c_type (some (p, rest)) = ok (map to_upper p ++ (type_infix ++ words rest))

pub gen_c_type_cast : Name → List Name → Result Name
unfolding cast_at known_prefix words
gen_c_type_cast c_type prefixes = cast_at c_type (known_prefix prefixes c_type)

-- From the comments of the source: the prefix is given.
application_window :
    gen_c_type_cast (codes "GtkApplicationWindow") (codes "Gtk" ∷ codes "Gdk" ∷ [])
    ≡ ok (codes "GTK_TYPE_APPLICATION_WINDOW")
unfolding gen_c_type_cast after_prefix
application_window = refl

-- Without the prefix, the last letter of the first word is there twice.
application_window_guessed :
    gen_c_type_cast (codes "GtkApplicationWindow") [] ≡ ok (codes "GTK_TYPE_K_APPLICATION_WINDOW")
unfolding gen_c_type_cast after_prefix
application_window_guessed = refl
