-- ===== src/Base/Atoi.antt =====
-- Go's `strconv.Atoi` on a text without a sign.
use Prim.Native.Nat.{ℕ, zero, suc, ◌+◌, ◌-◌, ◌*◌, ◌/◌, ◌%◌, ◌<◌, ◌^◌}
use Prim.Native.Char.{code}
use Prim.Native.String.{String, [], ◌∷◌, ◌++◌}
use mathlib.Core.Path.{◌≡◌, refl, sym, ap, ◌∙◌}
use mathlib.Core.Bool.{true, ◌&&◌}
use mathlib.Core.Logic.{◌≢◌, inl, inr}
use mathlib.Core.Option.{Option, none, some}
use native.Mathlib.Nat.{pow-suc}
use native.Mathlib.Omega.{arith}
use text.Mathlib.Text.{◌==◌}
use text.Mathlib.TextEquality.{eq_iff}
use text.Mathlib.TextLemmas.{nil-append, cons-append}
use testudo_operator.Base.Tests.{leb, ltb, nat_eq, Bool-cases, if-cases, if◌then◌else◌}
use testudo_operator.Base.Text.{apart}
use testudo_operator.Base.Numbers.{digit, decimal_digits, decimal}

-- The number that the digits of a text go on from.
unfoldable pub digits_from : ℕ → String → Option ℕ
digits_from n [] = some n
digits_from n (c ∷ s) =
    let rest = digits_from (n * 10 + (code c - 48)) s in
    if leb 48 (code c) && leb (code c) 57 then rest else none

-- A number that an `int` of 64 bits has no room for is an error.
abbrev in_range : Option ℕ → Option ℕ
in_range none = none
in_range (some n) = if ltb n 9223372036854775808 then some n else none

-- `none` stands for the error.
unfoldable pub atoi : String → Option ℕ
atoi s = if s == "" then none else in_range (digits_from 0 s)

abbrev then_digits : Option ℕ → String → Option ℕ
then_digits none s = none
then_digits (some n) s = digits_from n s

digits_from-append :
    (n : ℕ) (s t : String) → digits_from n (s ++ t) ≡ then_digits (digits_from n s) t
unfolding digits_from
digits_from-append n [] t = rw nil-append refl
digits_from-append n (c ∷ s) t =
    rw cons-append (elim (Bool-cases (leb 48 (code c) && leb (code c) 57)) [
      | inl e ↦ rw e (digits_from-append (n * 10 + (code c - 48)) s t)
      | inr e ↦ rw e refl
    ])

digits_from-digit : (n d : ℕ) → d < 10 → digits_from n (digit d) ≡ some (n * 10 + d)
unfolding digits_from digit
digits_from-digit n d h = if-cases Reads (nat_eq d 0) _ _ (reads 0 "0" refl) (λ e0.
    if-cases Reads (nat_eq d 1) _ _ (reads 1 "1" refl) (λ e1.
      if-cases Reads (nat_eq d 2) _ _ (reads 2 "2" refl) (λ e2.
        if-cases Reads (nat_eq d 3) _ _ (reads 3 "3" refl) (λ e3.
          if-cases Reads (nat_eq d 4) _ _ (reads 4 "4" refl) (λ e4.
            if-cases Reads (nat_eq d 5) _ _ (reads 5 "5" refl) (λ e5.
              if-cases Reads (nat_eq d 6) _ _ (reads 6 "6" refl) (λ e6.
                if-cases Reads (nat_eq d 7) _ _ (reads 7 "7" refl) (λ e7.
                  if-cases Reads (nat_eq d 8) _ _ (reads 8 "8" refl) (λ e8.
                    if-cases Reads (nat_eq d 9) _ _ (reads 9 "9" refl)
                      (λ e9. absurd (ground arith)))))))))))
  where
    Reads : String → Type 0
    Reads s = digits_from n s ≡ some (n * 10 + d)

    reads : (k : ℕ) (s : String) → digits_from n s ≡ some (n * 10 + k) → nat_eq d k ≡ true → Reads s
    reads k s e q = let p : d ≡ k = ground arith in rw p e

decimal_digits_lem : (fuel n : ℕ) → n < 10 ^ fuel → digits_from 0 (decimal_digits fuel n) ≡ some n
unfolding decimal_digits digits_from
decimal_digits_lem zero n h = ap some (omega arith)
decimal_digits_lem (suc fuel) n h = elim (Bool-cases (ltb n 10)) [
  | inl e ↦ rw e (digits_from-digit 0 n (ground arith) ∙ ap some (omega arith))
  | inr e ↦ rw e (
      rw (digits_from-append 0 (decimal_digits fuel (n / 10)) (digit (n % 10))) (
        rw (decimal_digits_lem fuel (n / 10) (omega (arith, pow-suc 10 fuel)))
          (digits_from-digit (n / 10) (n % 10) (omega arith) ∙ ap some (omega arith))))
]

digits-nonempty : (fuel n : ℕ) → n < 10 ^ suc fuel → decimal_digits (suc fuel) n ≢ ""
unfolding decimal_digits digits_from digit
digits-nonempty fuel n h e =
    let read = decimal_digits_lem (suc fuel) n h in
    let zero_read : some 0 ≡ some n = sym (ap (digits_from 0) e) ∙ read in
    let is_zero : n ≡ 0 = cc in apart "0" "" refl (ap (decimal_digits (suc fuel)) (sym is_zero) ∙ e)

within_range : (n : ℕ) → n < 9223372036854775808 → in_range (some n) ≡ some n
within_range n h = let e : ltb n 9223372036854775808 ≡ true = ground arith in rw e refl

atoi-digits :
    (fuel n : ℕ)
    → n < 10 ^ suc fuel
    → n < 9223372036854775808
    → atoi (decimal_digits (suc fuel) n) ≡ some n
unfolding atoi
atoi-digits fuel n h b = elim (Bool-cases (decimal_digits (suc fuel) n == "")) [
  | inl e ↦ absurd (digits-nonempty fuel n h ((eq_iff _ _).0 e))
  | inr e ↦ rw e (ap in_range (decimal_digits_lem (suc fuel) n h) ∙ within_range n b)
]

-- A number below 2 ^ 63 is read back from its decimal digits.
pub atoi-decimal : (n : ℕ) → n < 9223372036854775808 → atoi (decimal n) ≡ some n
unfolding decimal
atoi-decimal n h = let enough : n < 10 ^ 20 = omega arith in atoi-digits 19 n enough h
