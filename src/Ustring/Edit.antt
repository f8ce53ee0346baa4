-- ===== src/Ustring/Edit.antt =====
-- Constructors, assign(), append(), insert(), replace(), erase(), substr(), at(), size() and resize()
-- of glib/glibmm/ustring.cc. A Glib::ustring is the bytes of its `string_`; a method returns the new
-- `string_`. Overloads have a word for what they take: `part` for a part of another ustring, `cstr` for
-- a C string (the bytes before its '\0'), `unichars` and `chars` for a repeated character.
pub mod Refinement
pub mod Buffers
use glibmm.Base.{
  ℕ, zero, suc, ◌+◌, ◌-◌, ◌/◌, ◌%◌, ◌++◌, Bool, true, false, List, [], ◌∷◌, Result, ok, err, ◌>>=◌,
  map_ok, ltb, ◌==◌, if◌then◌else◌, length, take, drop, replicate, get_elem?, Option, none, some,
}
use glibmm.StdString
use glibmm.StdString.{npos}
use glibmm.GlibUtf8.{GlibUtf8}
use glibmm.Ustring.Offsets.{utf8_byte_offset, cstr_byte_offset, utf8_substr_bounds}

-- `for (; n > 0; --n) string_.append(conv.buf, conv.len);`
append_times : List ℕ → ℕ → List ℕ → List ℕ
append_times buf zero s = s
append_times buf (suc n) s = append_times buf n (s ++ buf)

pub from_chars : ℕ → ℕ → List ℕ
from_chars n c = replicate n c

pub is_ascii : List ℕ → Bool
is_ascii [] = true
is_ascii (b ∷ rest) = let later = is_ascii rest in if b / 0x80 % 2 == 1 then false else later

module _ (g : GlibUtf8) where
  pub from_part : List ℕ → ℕ → ℕ → Result (List ℕ)
  from_part src i n = let b = utf8_substr_bounds g src i n in StdString.substr src b.i b.n

  pub from_cstr_n : List ℕ → ℕ → Result (List ℕ)
  from_cstr_n src n = do len ← cstr_byte_offset g src n; StdString.from_buffer src len

  pub from_unichars : ℕ → ℕ → List ℕ
  unfolding append_times
  from_unichars n uc =
      if ltb uc 0x80 then replicate n uc else append_times (g.unichar_to_utf8 uc) n []

  pub substr : List ℕ → ℕ → ℕ → Result (List ℕ)
  substr s i n = from_part s i n

  pub assign_part : List ℕ → ℕ → ℕ → Result (List ℕ)
  assign_part src i n = let b = utf8_substr_bounds g src i n in StdString.substr src b.i b.n

  pub assign_cstr_n : List ℕ → ℕ → Result (List ℕ)
  assign_cstr_n src n = do len ← cstr_byte_offset g src n; StdString.from_buffer src len

  pub push_back : List ℕ → ℕ → List ℕ
  push_back s uc = s ++ g.unichar_to_utf8 uc

  pub append_part : List ℕ → List ℕ → ℕ → ℕ → Result (List ℕ)
  append_part s src i n =
      let b = utf8_substr_bounds g src i n in map_ok (λ t. s ++ t) (StdString.substr src b.i b.n)

  pub append_cstr_n : List ℕ → List ℕ → ℕ → Result (List ℕ)
  append_cstr_n s src n = do
    len ← cstr_byte_offset g src n
    map_ok (λ t. s ++ t) (StdString.from_buffer src len)

  pub append_unichars : List ℕ → ℕ → ℕ → List ℕ
  append_unichars s n uc = s ++ from_unichars n uc

  pub insert : List ℕ → ℕ → List ℕ → Result (List ℕ)
  insert s i src = StdString.insert s (utf8_byte_offset g s i) src

  pub insert_part : List ℕ → ℕ → List ℕ → ℕ → ℕ → Result (List ℕ)
  insert_part s i src i2 n =
      let b = utf8_substr_bounds g src i2 n in
      do t ← StdString.substr src b.i b.n; StdString.insert s (utf8_byte_offset g s i) t

  pub insert_cstr_n : List ℕ → ℕ → List ℕ → ℕ → Result (List ℕ)
  insert_cstr_n s i src n = do
    len ← cstr_byte_offset g src n
    StdString.insert_buffer s (utf8_byte_offset g s i) src len

  pub insert_unichars : List ℕ → ℕ → ℕ → ℕ → Result (List ℕ)
  insert_unichars s i n uc = StdString.insert s (utf8_byte_offset g s i) (from_unichars n uc)

  pub insert_chars : List ℕ → ℕ → ℕ → ℕ → Result (List ℕ)
  insert_chars s i n c = StdString.insert s (utf8_byte_offset g s i) (from_chars n c)

  pub replace : List ℕ → ℕ → ℕ → List ℕ → Result (List ℕ)
  replace s i n src = let b = utf8_substr_bounds g s i n in StdString.replace s b.i b.n src

  -- std::string checks the first position first.
  pub replace_part : List ℕ → ℕ → ℕ → List ℕ → ℕ → ℕ → Result (List ℕ)
  replace_part s i n src i2 n2 =
      let b = utf8_substr_bounds g s i n in
      let b2 = utf8_substr_bounds g src i2 n2 in
      do t ← StdString.substr src b2.i b2.n; StdString.replace s b.i b.n t

  pub replace_cstr_n : List ℕ → ℕ → ℕ → List ℕ → ℕ → Result (List ℕ)
  replace_cstr_n s i n src n2 =
      let b = utf8_substr_bounds g s i n in
      do len ← cstr_byte_offset g src n2; StdString.replace_buffer s b.i b.n src len

  pub replace_unichars : List ℕ → ℕ → ℕ → ℕ → ℕ → Result (List ℕ)
  replace_unichars s i n n2 uc =
      let b = utf8_substr_bounds g s i n in StdString.replace s b.i b.n (from_unichars n2 uc)

  pub replace_chars : List ℕ → ℕ → ℕ → ℕ → ℕ → Result (List ℕ)
  replace_chars s i n n2 c =
      let b = utf8_substr_bounds g s i n in StdString.replace s b.i b.n (from_chars n2 c)

  pub erase : List ℕ → ℕ → ℕ → Result (List ℕ)
  erase s i n = let b = utf8_substr_bounds g s i n in StdString.erase s b.i b.n

  -- `string_.at(byte_offset)` only checks the position.
  pub at : List ℕ → ℕ → Result ℕ
  at s i = do
    let byte_offset = utf8_byte_offset g s i
    _ ← StdString.at s byte_offset
    ok (g.get_char (drop byte_offset s))

  pub index : List ℕ → ℕ → ℕ
  index s i = g.get_char (drop (g.offset_to_pointer s i) s)

  pub size : List ℕ → ℕ
  size s = g.pointer_to_offset s (length s)

  pub resize_unichar : List ℕ → ℕ → ℕ → Result (List ℕ)
  resize_unichar s n uc =
      let size_now = size s in
      if ltb n size_now
      then erase s n npos
      else if ltb size_now n
      then ok (append_unichars s (n - size_now) uc)
      else ok s

  pub resize_char : List ℕ → ℕ → ℕ → Result (List ℕ)
  resize_char s n c =
      let size_now = size s in
      if ltb n size_now
      then erase s n npos
      else if ltb size_now n
      then ok (s ++ replicate (n - size_now) c)
      else ok s

  -- The bytes that copy() writes to its buffer; it returns their number.
  pub copy : List ℕ → ℕ → ℕ → Result (List ℕ)
  copy s n i = let b = utf8_substr_bounds g s i n in StdString.substr s b.i b.n
