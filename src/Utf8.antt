-- ===== src/Utf8.antt =====
-- The encoding that the table above `get_unichar_from_std_iterator` in glib/glibmm/ustring.cc shows:
-- what a `Glib::ustring` means by its bytes. A text is the list of its code points.
pub mod Bounds
use glibmm.Base.{
  ℕ, ◌+◌, ◌/◌, ◌%◌, ◌≤◌, ◌<◌, ◌≡◌, refl, List, [], ◌∷◌, ◌++◌, if◌then◌else◌, ltb, All,
}

-- The six rows of the table end at 0x7FFFFFFF.
abbrev pub IsUnichar : ℕ → Type 0
IsUnichar c = c < 0x80000000

abbrev pub IsText : List ℕ → Type 0
IsText = All IsUnichar

abbrev pub IsByte : ℕ → Type 0
IsByte b = b < 256

-- The first byte of the encoding of a code point.
unfoldable pub lead : ℕ → ℕ
lead c =
    if ltb c 0x80
    then c
    else if ltb c 0x800
    then 0xC0 + c / 64
    else if ltb c 0x10000
    then 0xE0 + c / 4096
    else if ltb c 0x200000
    then 0xF0 + c / 262144
    else if ltb c 0x4000000
    then 0xF8 + c / 16777216
    else 0xFC + c / 1073741824

-- The byte 10xxxxxx with the six lowest bits of a number.
abbrev pub low_six : ℕ → ℕ
low_six c = 0x80 + c % 64

-- The bytes behind the first.
unfoldable pub trail : ℕ → List ℕ
trail c =
    if ltb c 0x80
    then []
    else if ltb c 0x800
    then low_six c ∷ []
    else if ltb c 0x10000
    then low_six (c / 64) ∷ low_six c ∷ []
    else if ltb c 0x200000
    then low_six (c / 4096) ∷ low_six (c / 64) ∷ low_six c ∷ []
    else if ltb c 0x4000000
    then low_six (c / 262144) ∷ low_six (c / 4096) ∷ low_six (c / 64) ∷ low_six c ∷ []
    else low_six (c / 16777216)
      ∷ low_six (c / 262144)
      ∷ low_six (c / 4096)
      ∷ low_six (c / 64)
      ∷ low_six c
      ∷ []

abbrev pub encode_char : ℕ → List ℕ
encode_char c = lead c ∷ trail c

abbrev pub encode : List ℕ → List ℕ
encode [] = []
encode (c ∷ cs) = lead c ∷ trail c ++ encode cs

-- "aé€" and U+1F600 in UTF-8.
sample :
    encode (0x61 ∷ 0xE9 ∷ 0x20AC ∷ 0x1F600 ∷ [])
    ≡ 0x61 ∷ 0xC3 ∷ 0xA9 ∷ 0xE2 ∷ 0x82 ∷ 0xAC ∷ 0xF0 ∷ 0x9F ∷ 0x98 ∷ 0x80 ∷ []
unfolding lead trail
sample = refl
