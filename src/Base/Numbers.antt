-- ===== src/Base/Numbers.antt =====
-- Signed numbers for int32 fields, and Go's `%d`, `%04d` and `%x` on natural numbers.
use Prim.Native.Nat.{ℕ, zero, suc, ◌+◌, ◌/◌, ◌%◌, ◌≤◌}
use Prim.Native.String.{String, ◌++◌}
use mathlib.Core.Path.{◌≡◌, refl}
use mathlib.Core.Bool.{Bool, true}
use native.Mathlib.Omega.{arith}
use testudo_operator.Base.Tests.{ltb, nat_eq, if◌then◌else◌}

-- `negsuc n` is -(n + 1).
pub data ℤ : Type 0 where
  pos : ℕ → ℤ
  negsuc : ℕ → ℤ

abbrev pub pos_part : ℤ → ℕ
pos_part (pos n) = n
pos_part (negsuc n) = 0

abbrev pub neg_part : ℤ → ℕ
neg_part (pos n) = 0
neg_part (negsuc n) = suc n

infix 50 ◌≤ℤ◌
abbrev pub ◌≤ℤ◌ : ℤ → ℤ → Type 0
a ≤ℤ b = pos_part a + neg_part b ≤ pos_part b + neg_part a

abbrev pub ltb_ℤ : ℤ → ℤ → Bool
ltb_ℤ a b = ltb (pos_part a + neg_part b) (pos_part b + neg_part a)

abbrev pub eqb_ℤ : ℤ → ℤ → Bool
eqb_ℤ a b = nat_eq (pos_part a + neg_part b) (pos_part b + neg_part a)

pub eqb_ℤ-eq : (a b : ℤ) → eqb_ℤ a b ≡ true → a ≡ b
eqb_ℤ-eq a b h = ground arith

unfoldable pub digit : ℕ → String
digit n =
    if nat_eq n 0
    then "0"
    else if nat_eq n 1
    then "1"
    else if nat_eq n 2
    then "2"
    else if nat_eq n 3
    then "3"
    else if nat_eq n 4
    then "4"
    else if nat_eq n 5
    then "5"
    else if nat_eq n 6
    then "6"
    else if nat_eq n 7
    then "7"
    else if nat_eq n 8
    then "8"
    else if nat_eq n 9
    then "9"
    else if nat_eq n 10
    then "a"
    else if nat_eq n 11
    then "b"
    else if nat_eq n 12
    then "c"
    else if nat_eq n 13
    then "d"
    else if nat_eq n 14
    then "e"
    else "f"

-- The digits of a number below 10 ^ fuel.
unfoldable pub decimal_digits : ℕ → ℕ → String
decimal_digits zero n = ""
decimal_digits (suc fuel) n =
    let rest = decimal_digits fuel (n / 10) in if ltb n 10 then digit n else rest ++ digit (n % 10)

-- `%d` of an int that is not negative: 20 digits hold every 64-bit number.
unfoldable pub decimal : ℕ → String
unfolding decimal_digits digit
decimal n = decimal_digits 20 n

-- `%04d`.
unfoldable pub decimal4 : ℕ → String
unfolding decimal
decimal4 n =
    if ltb n 10
    then "000" ++ decimal n
    else if ltb n 100
    then "00" ++ decimal n
    else if ltb n 1000
    then "0" ++ decimal n
    else decimal n

-- `fmt.Sprintf("%s-%04d", prefix, n)`.
unfoldable pub numbered : String → ℕ → String
unfolding decimal4
numbered prefix n = prefix ++ "-" ++ decimal4 n

-- The hexadecimal digits of a number below 16 ^ width, with leading zeros.
unfoldable pub hex : ℕ → ℕ → String
unfolding digit
hex zero n = ""
hex (suc width) n = hex width (n / 16) ++ digit (n % 16)

decimal4_example : decimal4 42 ≡ "0042"
unfolding decimal4
decimal4_example = refl

hex_example : hex 4 0x20ac ≡ "20ac"
unfolding hex
hex_example = refl
