-- ===== src/Tests/Strings.antt =====
-- ustring.cc on "aé€a".
use glibmm.Base.{
  ℕ, ◌-◌, ◌≡◌, true, List, [], ◌∷◌, ◌++◌, Option, none, some, ok, map_ok, arith, length, ltb,
  if◌then◌else◌, All,
}
use glibmm.StdString
use glibmm.StdString.{npos}
use glibmm.Utf8.{IsText, lead, trail, encode}
use glibmm.GlibUtf8.Reference.{reference, reference-IsGlibUtf8}
use glibmm.Ustring.Unichar.{get_unichar_from_std_iterator, get_unichar-encode}
use glibmm.Ustring.Edit
use glibmm.Ustring.Edit.Refinement.{insert-encode, replace-encode, erase-encode}
use glibmm.Ustring.Search
use glibmm.Ustring.Search.Substring.{find-encode}
use glibmm.Ustring.Search.Rfind.{rfind-encode}
use glibmm.Ustring.Search.FirstOf.{utf8_find_first_of-encode}
use glibmm.Ustring.Search.LastOf.{utf8_find_last_of-encode}
use glibmm.Ustring.Compose.{compose_private}
use glibmm.Ustring.Compose.Templates.{
  Piece, IsDigitValue, format, meaning, IsPiece, compose_private-format,
}
use glibmm.Ustring.Compose.Termination.{compose_private_total}
use glibmm.Tests.Texts.{mixed, needle, mixed-IsText, mixed-Fits, needle-IsText, needle-NoNull}

find-encode_example :
    Search.find reference (encode mixed) (encode needle) 1 ≡ StdString.find mixed needle 1
find-encode_example =
    find-encode reference reference-IsGlibUtf8 mixed needle 1 mixed-IsText mixed-Fits needle-IsText

rfind-encode_example :
    Search.rfind reference (encode mixed) (encode (0x61 ∷ [])) npos
    ≡ StdString.rfind mixed (0x61 ∷ []) npos
rfind-encode_example =
    rfind-encode reference reference-IsGlibUtf8 mixed 0x61 [] npos mixed-IsText mixed-Fits
      (omega arith, tt)

utf8_find_first_of-encode_example :
    Search.utf8_find_first_of reference
      (encode mixed)
      1
      (encode needle)
      (some (length (encode needle)))
      true
    ≡ some (StdString.find_first_of mixed needle true 1)
utf8_find_first_of-encode_example =
    utf8_find_first_of-encode reference reference-IsGlibUtf8 mixed needle true 1 mixed-IsText
      mixed-Fits needle-IsText needle-NoNull

utf8_find_last_of-encode_example :
    Search.utf8_find_last_of reference
      (encode mixed)
      npos
      (encode needle)
      (some (length (encode needle)))
      true
    ≡ ok (StdString.find_last_of mixed needle true npos)
utf8_find_last_of-encode_example =
    utf8_find_last_of-encode reference reference-IsGlibUtf8 mixed needle true npos mixed-IsText
      mixed-Fits needle-IsText needle-NoNull

replace-encode_example :
    Edit.replace reference (encode mixed) 1 2 (encode needle)
    ≡ map_ok encode (StdString.replace mixed 1 2 needle)
replace-encode_example =
    replace-encode reference reference-IsGlibUtf8 mixed needle 1 2 mixed-IsText mixed-Fits

insert-encode_example :
    Edit.insert reference (encode mixed) 2 (encode needle)
    ≡ map_ok encode (StdString.insert mixed 2 needle)
insert-encode_example =
    insert-encode reference reference-IsGlibUtf8 mixed needle 2 mixed-IsText mixed-Fits

erase-encode_example :
    Edit.erase reference (encode mixed) 1 npos ≡ map_ok encode (StdString.erase mixed 1 npos)
erase-encode_example =
    erase-encode reference reference-IsGlibUtf8 mixed 1 npos mixed-IsText mixed-Fits

get_unichar-encode_example :
    get_unichar_from_std_iterator (lead 0x7FFFFFFF ∷ trail 0x7FFFFFFF ++ 0x61 ∷ []) ≡ ok 0x7FFFFFFF
get_unichar-encode_example = get_unichar-encode 0x7FFFFFFF (0x61 ∷ []) (omega arith)

-- g_ascii_digit_value()
digit_value : ℕ → Option ℕ
digit_value b = if ltb b b'0' then none else if ltb b'9' b then none else some (b - b'0')

digit_value-IsDigitValue : IsDigitValue digit_value
unfolding digit_value
digit_value-IsDigitValue = record { digit = λ d h. ground arith; other = λ b h. ground arith }

-- "%2 is %%1, %é" with two arguments.
abbrev template : List Piece
template =
    Piece.slot 2
    ∷ Piece.text (0x20 ∷ 0x69 ∷ 0x73 ∷ 0x20 ∷ [])
    ∷ Piece.percent
    ∷ Piece.text (0x31 ∷ 0x2C ∷ [])
    ∷ Piece.invalid 0xE9
    ∷ []

abbrev arguments : List (List ℕ)
arguments = encode mixed ∷ encode needle ∷ []

template-IsPiece : All (IsPiece arguments) template
template-IsPiece = omega arith

compose_private-format_example :
    compose_private reference digit_value arguments (format template)
    ≡ some (ok (meaning arguments template))
compose_private-format_example =
    compose_private-format reference reference-IsGlibUtf8 digit_value digit_value-IsDigitValue
      arguments template template-IsPiece

-- "a%9%é%": an argument that is not there, another character, and a percent sign at the end.
abbrev ragged : List ℕ
ragged = 0x61 ∷ 0x25 ∷ 0x39 ∷ 0x25 ∷ 0xE9 ∷ 0x25 ∷ []

ragged-IsText : IsText ragged
ragged-IsText = omega arith

compose_private_total_example :
    (r : List ℕ) × (compose_private reference digit_value arguments (encode ragged) ≡ some (ok r))
compose_private_total_example =
    compose_private_total reference reference-IsGlibUtf8 digit_value digit_value-IsDigitValue
      arguments ragged ragged-IsText
