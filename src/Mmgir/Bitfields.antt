-- ===== src/Mmgir/Bitfields.antt =====
-- format_bitfield_members() of tools/mmgir/gen_defs.cc. What std::stoul reads in the text of a member, with
-- the base found by itself, is a sign and a magnitude, or nothing; a text that starts with '-' has the sign.
-- `unsigned long` has 64 bits. What fmt::format is called with is kept as data.
pub mod Values
use Prim.Native.Nat.{bit_and}
use glibmm.Base.{
  ℕ, zero, suc, ◌+◌, ◌-◌, ◌*◌, ◌/◌, ◌%◌, ◌^◌, Bool, true, false, ◌&&◌, Option, none, some, ltb,
  ◌==◌, if◌then◌else◌,
}

abbrev pub ulong_mod : ℕ
ulong_mod = 0x10000000000000000

abbrev pub int32_max : ℕ
int32_max = 0x7FFFFFFF

abbrev pub uint32_max : ℕ
uint32_max = 0xFFFFFFFF

-- "1 << {}", "{:#x}" and "-{:#x}"
pub data Formatted : Type 0 where
  shift hex negative_hex : ℕ → Formatted

-- std::stoul: a magnitude that does not fit throws out_of_range, and a sign negates the result.
pub stoul : Bool → ℕ → Option ℕ
stoul negative magnitude =
    if ltb magnitude ulong_mod
    then if negative then some ((ulong_mod - magnitude) % ulong_mod) else some magnitude
    else none

-- `~n + 1`
pub negated : ℕ → ℕ
negated n = ((ulong_mod - 1 - n) + 1) % ulong_mod

pub format_as_signed_negative : ℕ → Option Formatted
unfolding negated
format_as_signed_negative n =
    let magnitude = negated n in
    if ltb int32_max magnitude then none else some (negative_hex magnitude)

-- `while (n > 1) { n >>= 1; ++position; }`, on fuel.
position_loop : ℕ → ℕ → ℕ → Option ℕ
position_loop zero n position = none
position_loop (suc fuel) n position =
    let rest = position_loop fuel (n / 2) (position + 1) in if ltb 1 n then rest else some position

pub single_bit : ℕ → Bool
single_bit n = ltb 0 n && bit_and n (n - 1) == 0

shifted : Option ℕ → Option Formatted
shifted none = none
shifted (some position) = some (shift position)

pub format_as_unsigned : ℕ → Option Formatted
unfolding shifted single_bit position_loop
format_as_unsigned n =
    if ltb uint32_max n
    then none
    else if single_bit n
    then shifted (position_loop 33 n 0)
    else some (hex n)

format_parsed : Bool → Option ℕ → Option Formatted
format_parsed negative none = none
format_parsed true (some n) = format_as_signed_negative n
format_parsed false (some n) = format_as_unsigned n

-- `none` for the text is invalid_argument.
pub format_bitfield_members : Option (Bool × ℕ) → Option Formatted
unfolding format_parsed stoul
format_bitfield_members none = none
format_bitfield_members (some (negative, magnitude)) =
    format_parsed negative (stoul negative magnitude)
