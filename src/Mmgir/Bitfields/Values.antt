-- ===== src/Mmgir/Bitfields/Values.antt =====
-- A formatted member has the value of its text.
use Prim.Native.Nat.{bit_and-bitwise, digits, min}
use glibmm.Base.{
  ℕ, zero, suc, ◌+◌, ◌-◌, ◌*◌, ◌/◌, ◌%◌, ◌≤◌, ◌<◌, ◌≡◌, refl, sym, ap, ◌∙◌, ◌⊎◌, inl, inr, Bool,
  true, false, not, none, some, ltb, ◌==◌, arith, Bool-cases,
}
use glibmm.Mmgir.Bitfields.{
  ulong_mod, int32_max, uint32_max, Formatted, shift, hex, negative_hex, negated,
  format_as_signed_negative, position_loop, single_bit, format_as_unsigned, format_bitfield_members,
}

abbrev and_to : ℕ → ℕ → ℕ → ℕ
and_to fuel a b = digits (λ b. zero) min fuel a b

-- 2 to the power p
abbrev pub pow2 : ℕ → ℕ
pow2 zero = 1
pow2 (suc p) = 2 * pow2 p

-- A power of two, by halving.
data IsPower : ℕ → ℕ → Type 0 where
  one : (n : ℕ) → n ≡ 1 → IsPower n 0
  double : (n p : ℕ) → n % 2 ≡ 0 → 1 < n → IsPower (n / 2) p → IsPower n (suc p)

and_to_self : (fuel a : ℕ) → a ≤ fuel → and_to fuel a a ≡ a
and_to_self zero a h = omega arith
and_to_self (suc fuel) zero h = refl
and_to_self (suc fuel) (suc a) h = omega (arith, and_to_self fuel (suc a / 2) (omega arith))

and_to-IsPower : (fuel a : ℕ) → a ≤ fuel → 0 < a → and_to fuel a (a - 1) ≡ 0 → (p : ℕ) × IsPower a p
and_to-IsPower zero a h k e = absurd (omega arith)
and_to-IsPower (suc fuel) zero h k e = absurd (omega arith)
and_to-IsPower (suc fuel) (suc a) h k e = elim (Bool-cases (suc a % 2 == 1)) [
  | inl odd ↦
      let whole : suc a % 2 ≡ 1 = ground arith in
      let same : (suc a - 1) / 2 ≡ suc a / 2 = omega arith in
      (
        0,
        one (suc a) (
            omega (
              arith,
              e,
              ap (and_to fuel (suc a / 2)) same,
              and_to_self fuel (suc a / 2) (omega arith),
            )),
      )
  | inr even ↦
      let half : suc a % 2 ≡ 0 = ground arith in
      let less : (suc a - 1) / 2 ≡ suc a / 2 - 1 = omega arith in
      let (p, h') =
        and_to-IsPower fuel (suc a / 2) (omega arith) (omega arith)
          (omega (arith, e, ap (and_to fuel (suc a / 2)) less)) in
      (suc p, double (suc a) p half (omega arith) h')
]

IsPower-pow2 : (n p : ℕ) → IsPower n p → n ≡ pow2 p
IsPower-pow2 n zero (one _ e) = e
IsPower-pow2 n (suc p) (double _ _ e l h) = omega (arith, IsPower-pow2 (n / 2) p h)

IsPower-lt : (n p w : ℕ) → IsPower n p → n < pow2 w → p < w
IsPower-lt n zero zero (one _ e) h = omega arith
IsPower-lt n zero (suc w) (one _ e) h = omega arith
IsPower-lt n (suc p) zero (double _ _ e l k) h = omega arith
IsPower-lt n (suc p) (suc w) (double _ _ e l k) h =
    omega (arith, IsPower-lt (n / 2) p w k (omega arith))

position_loop-IsPower :
    (fuel n p k : ℕ) → IsPower n p → p < fuel → position_loop fuel n k ≡ some (k + p)
unfolding position_loop
position_loop-IsPower zero n p k h f = absurd (omega arith)
position_loop-IsPower (suc fuel) n zero k (one _ e) f = ground arith
position_loop-IsPower (suc fuel) n (suc p) k (double _ _ e l h) f =
    ground (arith, position_loop-IsPower fuel (n / 2) p (k + 1) h (omega arith))

-- The number that a text stands for, as a sign and a magnitude.
abbrev pub value : Formatted → Bool × ℕ
value (shift p) = (false, pow2 p)
value (hex n) = (false, n)
value (negative_hex n) = (true, n)

single_bit-IsPower : (n : ℕ) → single_bit n ≡ true → (p : ℕ) × IsPower n p
unfolding single_bit
single_bit-IsPower n h =
    and_to-IsPower n n (omega arith) (ground arith) (sym (bit_and-bitwise n (n - 1)) ∙ ground arith)

-- The limits are the largest numbers of 32 bits without a sign and with one. -0x80000000, whose
-- magnitude is above the second, has 32 bits too, but does not fit here.
abbrev pub fits : Bool → ℕ → Bool
fits true magnitude = not (ltb int32_max magnitude)
fits false magnitude = not (ltb uint32_max magnitude)

unsigned_value :
    (n : ℕ)
    → ltb uint32_max n ≡ false
    → (f : Formatted) × (format_as_unsigned n ≡ some f) × (value f ≡ (false, n))
unfolding format_as_unsigned
unsigned_value n h = elim (Bool-cases (single_bit n)) [
  | inl single ↦
      let (p, k) = single_bit-IsPower n single in
      let small : p < 33 = omega (arith, IsPower-lt n p 32 k (ground arith)) in
      (
        shift p,
        rw (h, single, position_loop-IsPower 33 n p 0 k small) (ground arith),
        ap (λ m. (false, m)) (sym (IsPower-pow2 n p k)),
      )
  | inr several ↦ (hex n, rw (h, several), refl)
]

abbrev pub Formats : Bool → ℕ → Type 0
Formats negative m =
    ((fits negative m ≡ true)
      × (f : Formatted) × (format_bitfield_members (some (negative, m)) ≡ some f)
      × (value f ≡ (negative, m)))
    ⊎ ((fits negative m ≡ false) × (format_bitfield_members (some (negative, m)) ≡ none))

unsigned-Formats : (m : ℕ) → Formats false m
unfolding format_bitfield_members
unsigned-Formats m = elim (Bool-cases (ltb uint32_max m)) [
  | inl large ↦ inr (
    rw large,
    elim (Bool-cases (ltb m ulong_mod)) [
      | inl read ↦ rw read (unfold format_as_unsigned in rw large)
      | inr unread ↦ rw unread
    ],
  )
  | inr small ↦
      let (f, e, v) = unsigned_value m small in
      let read : ltb m ulong_mod ≡ true = ground arith in inl (rw small, f, rw read e, v)
]

negative-Formats : (m : ℕ) → Formats true m
unfolding format_bitfield_members format_as_signed_negative
negative-Formats m = elim (Bool-cases (ltb m ulong_mod)) [
  | inl read ↦
      let back : negated ((ulong_mod - m) % ulong_mod) ≡ m = unfold negated in ground arith in
      elim (Bool-cases (ltb int32_max m)) [
        | inl large ↦ inr (rw large, rw (read, back, large))
        | inr small ↦ inl (rw small, negative_hex m, rw (read, back, small), refl)
      ]
  | inr unread ↦ let large : ltb int32_max m ≡ true = ground arith in inr (rw large, rw unread)
]

-- The text that a number is formatted as has the value of the number, as a power of two, in hexadecimal
-- or with a sign. There is none exactly if the number is above 0xFFFFFFFF, or below -0x7FFFFFFF: none
-- for -0x80000000.
pub format_bitfield_members-value : (negative : Bool) (m : ℕ) → Formats negative m
format_bitfield_members-value true m = negative-Formats m
format_bitfield_members-value false m = unsigned-Formats m
