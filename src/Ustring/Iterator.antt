-- ===== src/Ustring/Iterator.antt =====
-- ustring_Iterator and SequenceToString of glib/glibmm/ustring.h, and the methods of ustring.cc that
-- take iterators. An iterator is the bytes before its position, last first, and those from it on.
pub mod Walk
use mathlib.Core.List.{reverse}
use glibmm.Base.{
  ℕ, zero, suc, ◌+◌, ◌/◌, ◌%◌, Bool, true, false, List, [], ◌∷◌, ◌++◌, Result, ok, err,
  undefined_behaviour, ◌>>=◌, ◌==◌, if◌then◌else◌, length, map_ok,
}
use glibmm.StdString
use glibmm.GlibUtf8.{GlibUtf8}
use glibmm.Ustring.Unichar.{get_unichar_from_std_iterator}
use glibmm.Ustring.Edit.{from_unichars}

pub record Iterator : Type 0 where
  pub before : List ℕ
  pub after : List ℕ

-- The string that an iterator points into.
pub string_of : Iterator → List ℕ
string_of it = reverse it.before ++ it.after

-- `it.base() - string_.begin()`
pub base : Iterator → ℕ
base it = length it.before

pub begin : List ℕ → Iterator
begin s = record { before = []; after = s }

pub end : List ℕ → Iterator
end s = record { before = reverse s; after = [] }

-- `pos_ += n`, which leaves the string only with undefined behaviour.
advance : ℕ → List ℕ → List ℕ → Result Iterator
advance zero before after = ok (record { before = before; after = after })
advance (suc n) before [] = err undefined_behaviour
advance (suc n) before (b ∷ after) = advance n (b ∷ before) after

-- `(static_cast<unsigned char>(*--pos_) & 0xC0u) == 0x80`
steps_on : ℕ → Bool
steps_on b = b / 64 % 4 == 2

-- `while ((… *--pos_ …) == 0x80) { ; }`
retreat : List ℕ → List ℕ → Result Iterator
retreat [] after = err undefined_behaviour
retreat (b ∷ before) after =
    let further = retreat before (b ∷ after) in
    if steps_on b then further else ok (record { before = before; after = b ∷ after })

pub dereference : Iterator → Result ℕ
dereference it = get_unichar_from_std_iterator it.after

pub decrement : Iterator → Result Iterator
unfolding retreat steps_on
decrement it = retreat it.before it.after

module _ (g : GlibUtf8) where
  increment_at : List ℕ → List ℕ → Result Iterator
  increment_at before [] = err undefined_behaviour
  increment_at before (b ∷ after) = advance (g.skip b) before (b ∷ after)

  pub increment : Iterator → Result Iterator
  increment it = increment_at it.before it.after

  -- erase(p): the new string, and the iterator to what follows.
  pub erase_at : Iterator → Result Iterator
  erase_at p = do iter_end ← increment p; ok (record { before = p.before; after = iter_end.after })

  -- insert(p, uc): the iterator stands at the new character.
  pub insert_at : Iterator → ℕ → Iterator
  insert_at p uc = record { before = p.before; after = g.unichar_to_utf8 uc ++ p.after }

  -- insert(p, n, uc)
  pub insert_unichars_at : Iterator → ℕ → ℕ → List ℕ
  insert_unichars_at p n uc = reverse p.before ++ (from_unichars g n uc ++ p.after)

  -- replace(pbegin, pend, src) of iterators into one string.
  pub replace_between : Iterator → Iterator → List ℕ → List ℕ
  replace_between pbegin pend src = reverse pbegin.before ++ (src ++ pend.after)

  -- The constructor of SequenceToString<In, gunichar>.
  sequence_loop : List ℕ → List ℕ → List ℕ
  sequence_loop [] s = s
  sequence_loop (uc ∷ rest) s = sequence_loop rest (s ++ g.unichar_to_utf8 uc)

  pub sequence_to_string : List ℕ → List ℕ
  sequence_to_string ucs = sequence_loop ucs []
