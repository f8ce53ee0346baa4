-- ===== src/GlibUtf8.antt =====
-- The functions of GLib's gunicode.h that glib/glibmm/ustring.cc calls. GLib is another library, so
-- they are parameters, with what its manual says of them on valid UTF-8.
pub mod Reference
use glibmm.Base.{ℕ, ◌+◌, ◌≡◌, ◌≢◌, List, [], ◌∷◌, ◌++◌, Option, some, length, All}
use glibmm.Utf8.{IsUnichar, IsText, lead, trail, encode}

pub record GlibUtf8 : Type 0 where
  -- g_utf8_skip[b]; g_utf8_next_char(p) is p + g_utf8_skip[*p]
  pub skip : ℕ → ℕ
  -- g_utf8_get_char(p), of the bytes from p on
  pub get_char : List ℕ → ℕ
  -- the bytes that g_unichar_to_utf8(c, buf) writes; it returns their number
  pub unichar_to_utf8 : ℕ → List ℕ
  -- g_utf8_pointer_to_offset(str, str + n)
  pub pointer_to_offset : List ℕ → ℕ → ℕ
  -- g_utf8_offset_to_pointer(str, i) - str
  pub offset_to_pointer : List ℕ → ℕ → ℕ
  -- g_utf8_to_ucs4_fast(str, len, _); `none` is a negative length
  pub to_ucs4_fast : List ℕ → Option ℕ → List ℕ

pub record IsGlibUtf8 (g : GlibUtf8) : Type 0 where
  pub skip-lead : (c : ℕ) → IsUnichar c → g.skip (lead c) ≡ length (trail c) + 1
  pub get_char-encode :
      (c : ℕ) (rest : List ℕ) → IsUnichar c → g.get_char (lead c ∷ trail c ++ rest) ≡ c
  pub unichar_to_utf8-eq : (c : ℕ) → IsUnichar c → g.unichar_to_utf8 c ≡ lead c ∷ trail c
  pub pointer_to_offset-encode :
      (xs ys : List ℕ)
      → IsText xs
      → g.pointer_to_offset (encode xs ++ encode ys) (length (encode xs)) ≡ length xs
  pub offset_to_pointer-encode :
      (xs ys : List ℕ)
      → IsText xs
      → g.offset_to_pointer (encode xs ++ encode ys) (length xs) ≡ length (encode xs)
  -- It stops at a null character too.
  pub to_ucs4_fast-encode :
      (cs : List ℕ)
      → IsText cs
      → All (λ c. c ≢ 0) cs
      → g.to_ucs4_fast (encode cs) (some (length (encode cs))) ≡ cs
