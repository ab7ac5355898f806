-- ===== src/Base/Sort.antt =====
-- `sort.SliceStable` by a `less` function: insertion sort, whose result for a strict weak order is
-- the one that every stable sort has.
use mathlib.Core.Path.{◌≡◌, refl}
use mathlib.Core.Logic.{inl, inr}
use mathlib.Core.Bool.{Bool, true, false}
use mathlib.Core.List.{List, [], ◌∷◌, ◌++◌}
use testudo_operator.Base.Tests.{Bool-cases, if◌then◌else◌}
use testudo_operator.Base.Lists.{In, All, All-In, In-All, All-append}

module _ {A : Type 0} (less : A → A → Bool) where
  insert_stable : A → List A → List A
  insert_stable x [] = x ∷ []
  insert_stable x (y ∷ ys) =
      let rest = insert_stable x ys in if less y x then y ∷ rest else x ∷ y ∷ ys

  unfoldable pub sort_stable : List A → List A
  unfolding insert_stable
  sort_stable [] = []
  sort_stable (x ∷ xs) = insert_stable x (sort_stable xs)

  All-insert_stable :
      (P : A → Type 0) (x : A) (xs : List A) → P x → All P xs → All P (insert_stable x xs)
  unfolding insert_stable
  All-insert_stable P x [] p h = (p, tt)
  All-insert_stable P x (y ∷ ys) p h = elim (Bool-cases (less y x)) [
    | inl e ↦ rw e (h.0, All-insert_stable P x ys p h.1)
    | inr e ↦ rw e (p, h)
  ]

  pub All-sort_stable : (P : A → Type 0) (xs : List A) → All P xs → All P (sort_stable xs)
  unfolding sort_stable
  All-sort_stable P [] h = tt
  All-sort_stable P (x ∷ xs) h =
      All-insert_stable P x (sort_stable xs) h.0 (All-sort_stable P xs h.1)

  In-insert_stable : (a x : A) (xs : List A) → In a (x ∷ xs) → In a (insert_stable x xs)
  unfolding insert_stable
  In-insert_stable a x [] i = i
  In-insert_stable a x (y ∷ ys) i = elim (Bool-cases (less y x)) [
    | inl e ↦ rw e (elim i [
      | inl p ↦ inr (In-insert_stable a x ys (inl p))
      | inr (inl p) ↦ inl p
      | inr (inr j) ↦ inr (In-insert_stable a x ys (inr j))
    ])
    | inr e ↦ rw e i
  ]

  pub In-sort_stable : (a : A) (xs : List A) → In a xs → In a (sort_stable xs)
  unfolding sort_stable
  In-sort_stable a [] i = i
  In-sort_stable a (x ∷ xs) (inl p) = In-insert_stable a x (sort_stable xs) (inl p)
  In-sort_stable a (x ∷ xs) (inr i) =
      In-insert_stable a x (sort_stable xs) (inr (In-sort_stable a xs i))

  pub In-sort_stable_inv : (a : A) (xs : List A) → In a (sort_stable xs) → In a xs
  In-sort_stable_inv a xs i =
      All-In (λ y. In y xs) (sort_stable xs) a
        (All-sort_stable (λ y. In y xs) xs (In-All (λ y. In y xs) xs (λ x j. j))) i

-- Every entry stands before all that `R` lets follow it.
abbrev pub Ordered : {A : Type 0} → (A → A → Type 0) → List A → Type 0
Ordered R [] = Unit
Ordered R (x ∷ xs) = All (R x) xs × Ordered R xs

pub Ordered-append :
    {A : Type 0} (R : A → A → Type 0) (xs ys : List A)
    → Ordered R xs
    → Ordered R ys
    → ((x y : A) → In x xs → In y ys → R x y)
    → Ordered R (xs ++ ys)
Ordered-append R [] ys hx hy cross = hy
Ordered-append R (x ∷ xs) ys hx hy cross = (
  All-append (R x) xs ys hx.0 (In-All (R x) ys (λ y j. cross x y (inl refl) j)),
  Ordered-append R xs ys hx.1 hy (λ a b i j. cross a b (inr i) j),
)

module _ {A : Type 0} (less : A → A → Bool) (R : A → A → Type 0)
    (R_trans : (x y z : A) → R x y → R y z → R x z)
    (R_of_less : (x y : A) → less y x ≡ true → R y x)
    (R_of_not_less : (x y : A) → less y x ≡ false → R x y) where
  Ordered-insert_stable : (x : A) (xs : List A) → Ordered R xs → Ordered R (insert_stable less x xs)
  unfolding insert_stable
  Ordered-insert_stable x [] h = (tt, tt)
  Ordered-insert_stable x (y ∷ ys) h = elim (Bool-cases (less y x)) [
    | inl e ↦
        rw e
          (All-insert_stable less (R y) x ys (R_of_less x y e) h.0, Ordered-insert_stable x ys h.1)
    | inr e ↦ rw e ((R_of_not_less x y e, after x y ys (R_of_not_less x y e) h.0), h)
  ]
    where
      after : (x y : A) (zs : List A) → R x y → All (R y) zs → All (R x) zs
      after x y [] r h = tt
      after x y (z ∷ zs) r h = (R_trans x y z r h.0, after x y zs r h.1)

  pub Ordered-sort_stable : (xs : List A) → Ordered R (sort_stable less xs)
  unfolding sort_stable
  Ordered-sort_stable [] = tt
  Ordered-sort_stable (x ∷ xs) =
      Ordered-insert_stable x (sort_stable less xs) (Ordered-sort_stable xs)
