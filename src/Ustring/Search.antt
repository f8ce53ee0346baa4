-- ===== src/Ustring/Search.antt =====
-- The find methods of glib/glibmm/ustring.cc. `none` is a loop that has not ended within its fuel,
-- which is the number of bytes: every step leads on by a character, and a character has a byte.
pub mod Positions
pub mod Substring
pub mod Rfind
pub mod FirstOf
pub mod LastOf
use glibmm.Base.{
  ℕ, zero, suc, ◌+◌, ◌/◌, ◌%◌, ◌≡◌, refl, Bool, true, false, not, ◌&&◌, List, [], ◌∷◌, Result, ok,
  err, undefined_behaviour, ◌>>=◌, map_ok, Option, none, some, ltb, leb, ◌==◌, if◌then◌else◌,
  length, take, drop,
}
use mathlib.Core.List.{reverse}
use glibmm.StdString
use glibmm.StdString.{npos, hits}
use glibmm.GlibUtf8.{GlibUtf8}
use glibmm.Ustring.Offsets.{utf8_byte_offset, cstr_byte_offset, utf8_char_offset}

-- `(static_cast<unsigned char>(*pstr) & 0xC0u) == 0x80`
is_cont : ℕ → Bool
is_cont b = b / 64 % 4 == 2

module _ (g : GlibUtf8) where
  pub find : List ℕ → List ℕ → ℕ → ℕ
  find s str i = utf8_char_offset g s (StdString.find s str (utf8_byte_offset g s i))

  -- std::string finds nothing for a count of `npos`.
  pub find_cstr_n : List ℕ → List ℕ → ℕ → ℕ → Result ℕ
  find_cstr_n s str i n = do
    len ← cstr_byte_offset g str n
    ok (
        utf8_char_offset g s
          (if len == npos then npos else StdString.find s (take len str) (utf8_byte_offset g s i)))

  pub find_unichar : List ℕ → ℕ → ℕ → ℕ
  find_unichar s uc i =
      utf8_char_offset g s (StdString.find s (g.unichar_to_utf8 uc) (utf8_byte_offset g s i))

  pub rfind : List ℕ → List ℕ → ℕ → ℕ
  rfind s str i = utf8_char_offset g s (StdString.rfind s str (utf8_byte_offset g s i))

  pub rfind_unichar : List ℕ → ℕ → ℕ → ℕ
  rfind_unichar s uc i =
      utf8_char_offset g s (StdString.rfind s (g.unichar_to_utf8 uc) (utf8_byte_offset g s i))

  -- The for loop of utf8_find_first_of().
  first_of_loop : ℕ → List ℕ → Bool → List ℕ → ℕ → Option ℕ
  first_of_loop fuel set negate [] offset = some npos
  first_of_loop zero set negate (b ∷ rest) offset = none
  first_of_loop (suc fuel) set negate (b ∷ rest) offset =
      let next = first_of_loop fuel set negate (drop (g.skip b) (b ∷ rest)) (offset + 1) in
      if hits set negate (g.get_char (b ∷ rest)) then some offset else next

  pub utf8_find_first_of : List ℕ → ℕ → List ℕ → Option ℕ → Bool → Option ℕ
  utf8_find_first_of str offset match match_size find_not_of =
      let byte_offset = utf8_byte_offset g str offset in
      if byte_offset == npos
      then some npos
      else first_of_loop (length str) (g.to_ucs4_fast match match_size) find_not_of
          (drop byte_offset str) offset

  -- The while loop of utf8_find_last_of(). `pstr` is the bytes before it, last first, and the bytes
  -- from it on; in the inner do-while loop (`moving`) a step before the start is undefined.
  last_of_loop : List ℕ → List ℕ → Bool → List ℕ → List ℕ → Bool → Result ℕ
  last_of_loop str set negate [] after true = err undefined_behaviour
  last_of_loop str set negate [] after false = ok npos
  last_of_loop str set negate (b ∷ before) after moving =
      let inner = last_of_loop str set negate before (b ∷ after) true in
      let outer = last_of_loop str set negate before (b ∷ after) false in
      if is_cont b
      then inner
      else if hits set negate (g.get_char (b ∷ after))
      then ok (g.pointer_to_offset str (length before))
      else outer

  pub utf8_find_last_of : List ℕ → ℕ → List ℕ → Option ℕ → Bool → Result ℕ
  unfolding is_cont
  utf8_find_last_of str offset match match_size find_not_of =
      let byte_offset = utf8_byte_offset g str offset in
      let start = if ltb byte_offset (length str) then byte_offset + 1 else length str in
      last_of_loop str (g.to_ucs4_fast match match_size) find_not_of (reverse (take start str))
        (drop start str) false

  -- The overloads that take a ustring.
  pub find_first_of : List ℕ → List ℕ → ℕ → Option ℕ
  find_first_of s match i = utf8_find_first_of s i match (some (length match)) false

  pub find_first_not_of : List ℕ → List ℕ → ℕ → Option ℕ
  find_first_not_of s match i = utf8_find_first_of s i match (some (length match)) true

  pub find_last_of : List ℕ → List ℕ → ℕ → Result ℕ
  find_last_of s match i = utf8_find_last_of s i match (some (length match)) false

  pub find_last_not_of : List ℕ → List ℕ → ℕ → Result ℕ
  find_last_not_of s match i = utf8_find_last_of s i match (some (length match)) true

  -- The for loop of find_first_not_of(gunichar).
  first_not_loop : ℕ → ℕ → List ℕ → ℕ → Option ℕ
  first_not_loop fuel uc [] i = some npos
  first_not_loop zero uc (b ∷ rest) i = none
  first_not_loop (suc fuel) uc (b ∷ rest) i =
      let next = first_not_loop fuel uc (drop (g.skip b) (b ∷ rest)) (i + 1) in
      if g.get_char (b ∷ rest) == uc then next else some i

  pub find_first_not_of_unichar : List ℕ → ℕ → ℕ → Option ℕ
  find_first_not_of_unichar s uc i =
      let bi = utf8_byte_offset g s i in
      if bi == npos then some npos else first_not_loop (length s) uc (drop bi s) i

  -- The for loop of find_last_not_of(gunichar).
  last_not_loop : ℕ → ℕ → ℕ → List ℕ → ℕ → ℕ → Option ℕ
  last_not_loop fuel uc i [] i_cur i_found = some i_found
  last_not_loop zero uc i (b ∷ rest) i_cur i_found = none
  last_not_loop (suc fuel) uc i (b ∷ rest) i_cur i_found =
      let next =
        last_not_loop fuel uc i (drop (g.skip b) (b ∷ rest)) (i_cur + 1)
          (if g.get_char (b ∷ rest) == uc then i_found else i_cur) in
      if leb i_cur i then next else some i_found

  pub find_last_not_of_unichar : List ℕ → ℕ → ℕ → Option ℕ
  find_last_not_of_unichar s uc i = last_not_loop (length s) uc i s 0 npos
