-- ===== src/Ustring/Unichar.antt =====
-- get_unichar_from_std_iterator of glib/glibmm/ustring.cc: the iterator is the list of the bytes from
-- its position on. `unsigned int` has 32 bits, and a mask is one bit or 0, so that `r & m` is a test
-- of that bit and `r & (m - 1)` a remainder (`n % 0` is `n`, as `m - 1` is all ones for `m == 0`).
use glibmm.Base.{
  ℕ, ◌+◌, ◌-◌, ◌*◌, ◌/◌, ◌%◌, ◌≡◌, ◌≢◌, refl, List, [], ◌∷◌, ◌++◌, Result, ok, err,
  undefined_behaviour, arith, ◌==◌, if◌then◌else◌,
}
use glibmm.Utf8.{IsUnichar, lead, trail}

abbrev pub u32_mod : ℕ
u32_mod = 0x100000000

-- `result <<= 6; result += c - 0x80;`
unfoldable pub add_six : ℕ → ℕ → ℕ
add_six result c = (result * 64 % u32_mod + (c + u32_mod - 0x80)) % u32_mod

-- `mask <<= 5;`
unfoldable pub shift_mask : ℕ → ℕ
shift_mask mask = mask * 32 % u32_mod

-- The do-while loop. To read at the end of the string is undefined.
unfoldable pub unichar_loop : List ℕ → ℕ → ℕ → Result ℕ
unichar_loop [] result mask = err undefined_behaviour
unichar_loop (c ∷ rest) result mask =
    let r = add_six result c in
    let m = shift_mask mask in
    let again = unichar_loop rest r m in if r / m % 2 == 1 then again else ok (r % m)

unfoldable pub get_unichar_from_std_iterator : List ℕ → Result ℕ
get_unichar_from_std_iterator [] = err undefined_behaviour
get_unichar_from_std_iterator (c ∷ rest) =
    if c / 0x80 % 2 == 0 then ok c else unichar_loop rest c 0x40

euro_sign : get_unichar_from_std_iterator (0xE2 ∷ 0x82 ∷ 0xAC ∷ 0x21 ∷ []) ≡ ok 0x20AC
unfolding get_unichar_from_std_iterator unichar_loop add_six shift_mask
euro_sign = refl

last_unichar :
    get_unichar_from_std_iterator (0xFD ∷ 0xBF ∷ 0xBF ∷ 0xBF ∷ 0xBF ∷ 0xBF ∷ []) ≡ ok 0x7FFFFFFF
unfolding get_unichar_from_std_iterator unichar_loop add_six shift_mask
last_unichar = refl

-- Reading the encoding of any code point of the table gives that code point, whatever follows it.
pub get_unichar-encode :
    (c : ℕ) (rest : List ℕ)
    → IsUnichar c
    → get_unichar_from_std_iterator (lead c ∷ trail c ++ rest) ≡ ok c
unfolding get_unichar_from_std_iterator unichar_loop add_six shift_mask lead trail
get_unichar-encode c rest h = ground arith

-- Two inputs on which the loop returns the same value, from any state with this mask.
abbrev Agree : List ℕ → List ℕ → ℕ → Type 0
Agree t u mask =
    (r : ℕ)
    → (unichar_loop t r mask ≡ unichar_loop u r mask)
      × (unichar_loop u r mask ≢ err undefined_behaviour)

Agree-cons : (t u : List ℕ) (b mask : ℕ) → Agree t u (shift_mask mask) → Agree (b ∷ t) (b ∷ u) mask
unfolding unichar_loop
Agree-cons t u b mask h r = ground (arith, h (add_six r b))

-- In the sixth round the mask has been shifted out.
Agree-last : (t u : List ℕ) (b : ℕ) → Agree (b ∷ t) (b ∷ u) 0x80000000
unfolding unichar_loop shift_mask
Agree-last t u b r = ground arith

-- The loop ends on any bytes, valid UTF-8 or not: where six bytes stand behind the first, the function
-- returns a value, and what stands behind those six has no part in it.
pub get_unichar_reads :
    (c b₁ b₂ b₃ b₄ b₅ b₆ : ℕ) (rest : List ℕ)
    → (get_unichar_from_std_iterator (c ∷ b₁ ∷ b₂ ∷ b₃ ∷ b₄ ∷ b₅ ∷ b₆ ∷ rest)
        ≡ get_unichar_from_std_iterator (c ∷ b₁ ∷ b₂ ∷ b₃ ∷ b₄ ∷ b₅ ∷ b₆ ∷ []))
      × (get_unichar_from_std_iterator (c ∷ b₁ ∷ b₂ ∷ b₃ ∷ b₄ ∷ b₅ ∷ b₆ ∷ [])
          ≢ err undefined_behaviour)
unfolding get_unichar_from_std_iterator shift_mask
get_unichar_reads c b₁ b₂ b₃ b₄ b₅ b₆ rest =
    let a₅ = Agree-cons (b₆ ∷ rest) (b₆ ∷ []) b₅ 0x4000000 (Agree-last rest [] b₆) in
    let a₄ = Agree-cons (b₅ ∷ b₆ ∷ rest) (b₅ ∷ b₆ ∷ []) b₄ 0x200000 a₅ in
    let a₃ = Agree-cons (b₄ ∷ b₅ ∷ b₆ ∷ rest) (b₄ ∷ b₅ ∷ b₆ ∷ []) b₃ 0x10000 a₄ in
    let a₂ = Agree-cons (b₃ ∷ b₄ ∷ b₅ ∷ b₆ ∷ rest) (b₃ ∷ b₄ ∷ b₅ ∷ b₆ ∷ []) b₂ 0x800 a₃ in
    let a₁ = Agree-cons (b₂ ∷ b₃ ∷ b₄ ∷ b₅ ∷ b₆ ∷ rest) (b₂ ∷ b₃ ∷ b₄ ∷ b₅ ∷ b₆ ∷ []) b₁ 0x40 a₂ in
    (ground (arith, a₁ c), ground (arith, a₁ c))
