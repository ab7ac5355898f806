-- ===== src/Base/Outcome.antt =====
-- Functions that return a value or an error, and what they give when they return a value.
use mathlib.Core.Path.{◌≡◌, refl, subst}
use mathlib.Core.Bool.{Bool, true, false}
use testudo_operator.Base.Tests.{if◌then◌else◌}

-- A value, or an error of the component.
pub data Outcome (E A : Type 0) : Type 0 where
  ok : A → Outcome E A
  err : E → Outcome E A

infixl 5 ◌>>=◌ ◌>>◌
abbrev pub ◌>>=◌ : {E A B : Type 0} → Outcome E A → (A → Outcome E B) → Outcome E B
ok a >>= f = f a
err e >>= f = err e

abbrev pub ◌>>◌ : {E B : Type 0} → Outcome E (Unit {0}) → Outcome E B → Outcome E B
m >> k = m >>= λ _. k

-- `if bad { return err }`.
abbrev pub reject_if : {E : Type 0} → Bool → E → Outcome E (Unit {0})
reject_if true e = err e
reject_if false e = ok tt

-- What an outcome is, when it is no error; one rule for each way to build it.
pub record Gives {E A : Type 0} (P : A → Type 0) (r : Outcome E A) : Type 0 where
  pub at : (a : A) → r ≡ ok a → P a

pub Gives-bind :
    {E A B : Type 0} {P : B → Type 0} (Q : A → Type 0) (m : Outcome E A) (f : A → Outcome E B)
    → Gives Q m
    → ((a : A) → Q a → Gives P (f a))
    → Gives P (m >>= f)
Gives-bind Q (ok a) f gm gf = gf a (gm.at a refl)
Gives-bind Q (err e) f gm gf = record { at = λ b h. cc }

pub Gives-ok : {E A : Type 0} {P : A → Type 0} (a : A) → P a → Gives {E = E} P (ok a)
Gives-ok {P = P} a p = record { at = λ b h. let q : a ≡ b = cc in subst P q p }

pub Gives-err : {E A : Type 0} {P : A → Type 0} (e : E) → Gives P (err e)
Gives-err e = record { at = λ b h. cc }

pub Gives-any : {E A : Type 0} (r : Outcome E A) → Gives (λ a. Unit {0}) r
Gives-any r = record { at = λ a h. tt }

pub Gives-if :
    {E A : Type 0} {P : A → Type 0} (b : Bool) (m n : Outcome E A)
    → (b ≡ true → Gives P m)
    → (b ≡ false → Gives P n)
    → Gives P (if b then m else n)
Gives-if true m n gm gn = gm refl
Gives-if false m n gm gn = gn refl
