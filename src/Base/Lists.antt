-- ===== src/Base/Lists.antt =====
-- Lists measured by native numbers, and predicates on lists by recursion.
use Prim.Native.Nat.{ℕ, suc, ◌+◌, ◌≤◌}
use mathlib.Core.Path.{◌≡◌, refl, sym, ap, subst, ◌∙◌}
use mathlib.Core.Logic.{◌⊎◌, inl, inr}
use mathlib.Core.List.{List, [], ◌∷◌, ◌++◌, map}
use mathlib.Core.Bool.{Bool, true, false}
use native.Mathlib.Omega.{arith}

module _ {ℓ} {A : Type ℓ} where
  abbrev pub length : List A → ℕ
  length [] = 0
  length (x ∷ xs) = suc (length xs)

  abbrev pub is_empty : List A → Bool
  is_empty [] = true
  is_empty (x ∷ xs) = false

  pub length-append : (xs ys : List A) → length (xs ++ ys) ≡ length xs + length ys
  length-append [] ys = omega arith
  length-append (x ∷ xs) ys = omega (arith, length-append xs ys)

-- `x` stands in the list.
abbrev pub In : {A : Type 0} → A → List A → Type 0
In x [] = ⊥
In x (y ∷ ys) = (x ≡ y) ⊎ In x ys

abbrev pub All : {A : Type 0} → (A → Type 0) → List A → Type 0
All P [] = Unit
All P (x ∷ xs) = P x × All P xs

module _ {A : Type 0} where
  pub All-In : (P : A → Type 0) (xs : List A) (x : A) → All P xs → In x xs → P x
  All-In P [] x h i = absurd i
  All-In P (y ∷ ys) x h (inl e) = subst P (sym e) h.0
  All-In P (y ∷ ys) x h (inr i) = All-In P ys x h.1 i

  pub In-All : (P : A → Type 0) (xs : List A) → ((x : A) → In x xs → P x) → All P xs
  In-All P [] h = tt
  In-All P (y ∷ ys) h = (h y (inl refl), In-All P ys (λ x i. h x (inr i)))

  pub In-append_left : (x : A) (xs ys : List A) → In x xs → In x (xs ++ ys)
  In-append_left x [] ys i = absurd i
  In-append_left x (z ∷ zs) ys (inl e) = inl e
  In-append_left x (z ∷ zs) ys (inr i) = inr (In-append_left x zs ys i)

  pub In-append_right : (x : A) (xs ys : List A) → In x ys → In x (xs ++ ys)
  In-append_right x [] ys i = i
  In-append_right x (z ∷ zs) ys i = inr (In-append_right x zs ys i)

  pub In-append_cases : (x : A) (xs ys : List A) → In x (xs ++ ys) → In x xs ⊎ In x ys
  In-append_cases x [] ys i = inr i
  In-append_cases x (z ∷ zs) ys (inl e) = inl (inl e)
  In-append_cases x (z ∷ zs) ys (inr i) = elim (In-append_cases x zs ys i) [
    | inl a ↦ inl (inr a)
    | inr b ↦ inr b
  ]

  pub All-append : (P : A → Type 0) (xs ys : List A) → All P xs → All P ys → All P (xs ++ ys)
  All-append P [] ys unit second = second
  All-append P (x ∷ xs) ys (first, rest) second = (first, All-append P xs ys rest second)

module _ {A B : Type 0} where
  pub In-map : (f : A → B) (x : A) (xs : List A) → In x xs → In (f x) (map f xs)
  In-map f x [] i = absurd i
  In-map f x (y ∷ ys) (inl e) = inl (ap f e)
  In-map f x (y ∷ ys) (inr i) = inr (In-map f x ys i)

  pub In-map_inv :
      (f : A → B) (b : B) (xs : List A) → In b (map f xs) → (a : A) × (b ≡ f a) × In a xs
  In-map_inv f b [] i = absurd i
  In-map_inv f b (y ∷ ys) (inl e) = (y, e, inl refl)
  In-map_inv f b (y ∷ ys) (inr i) = let (a, e, j) = In-map_inv f b ys i in (a, e, inr j)

-- No entry stands twice.
abbrev pub Distinct : {A : Type 0} → List A → Type 0
Distinct [] = Unit
Distinct (x ∷ xs) = ¬ In x xs × Distinct xs

pub Distinct-snoc :
    {A : Type 0} (xs : List A) (x : A) → Distinct xs → ¬ In x xs → Distinct (xs ++ x ∷ [])
Distinct-snoc [] x d h = ((λ i. i), tt)
Distinct-snoc (y ∷ ys) x d h = (
  (λ i. elim (In-append_cases y ys (x ∷ []) i) [
    | inl j ↦ d.0 j
    | inr (inl e) ↦ h (inl (sym e))
    | inr (inr f) ↦ f
  ]),
  Distinct-snoc ys x d.1 (λ i. h (inr i)),
)

module _ {A : Type 0} where
  -- What a loop has met, the last entry first.
  abbrev pub reverse_onto : List A → List A → List A
  reverse_onto [] met = met
  reverse_onto (x ∷ xs) met = reverse_onto xs (x ∷ met)

  pub In-reverse_onto_old : (x : A) (xs met : List A) → In x met → In x (reverse_onto xs met)
  In-reverse_onto_old x [] met i = i
  In-reverse_onto_old x (y ∷ ys) met i = In-reverse_onto_old x ys (y ∷ met) (inr i)

  pub In-reverse_onto : (x : A) (xs met : List A) → In x xs → In x (reverse_onto xs met)
  In-reverse_onto x [] met i = absurd i
  In-reverse_onto x (y ∷ ys) met (inl e) = In-reverse_onto_old x ys (y ∷ met) (inl e)
  In-reverse_onto x (y ∷ ys) met (inr i) = In-reverse_onto x ys (y ∷ met) i

  pub In-reverse_onto_inv :
      (x : A) (xs met : List A) → In x (reverse_onto xs met) → In x xs ⊎ In x met
  In-reverse_onto_inv x [] met i = inr i
  In-reverse_onto_inv x (y ∷ ys) met i = elim (In-reverse_onto_inv x ys (y ∷ met) i) [
    | inl j ↦ inl (inr j)
    | inr (inl e) ↦ inl (inl e)
    | inr (inr j) ↦ inr j
  ]

-- A list without one of its entries.
record Without {A : Type 0} (x : A) (ys : List A) : Type 0 where
  others : List A
  shorter : length ys ≡ suc (length others)
  kept : (z : A) → In z ys → (z ≡ x) ⊎ In z others

without : {A : Type 0} (x : A) (ys : List A) → In x ys → Without x ys
without x [] i = absurd i
without x (y ∷ ys) (inl e) = record {
  others = ys;
  shorter = refl;
  kept = λ z j. elim j [ inl f ↦ inl (f ∙ sym e) | inr k ↦ inr k ];
}
without x (y ∷ ys) (inr i) =
    let w = without x ys i in
    record {
      others = y ∷ w.others;
      shorter = ap suc w.shorter;
      kept = λ z j. elim j [
        | inl f ↦ inr (inl f)
        | inr k ↦ elim (w.kept z k) [ inl f ↦ inl f | inr l ↦ inr (inr l) ]
      ];
    }

-- Distinct entries that all stand in a list of no more entries are all of its entries.
pub In-Distinct :
    {A : Type 0} (xs ys : List A)
    → Distinct xs
    → ((x : A) → In x xs → In x ys)
    → length ys ≤ length xs
    → (y : A) → In y ys
    → In y xs
In-Distinct [] (z ∷ ys) d sub h y i = omega (arith, h)
In-Distinct [] [] d sub h y i = i
In-Distinct {A = A} (x ∷ xs) ys d sub h y i =
    let w = without x ys (sub x (inl refl)) in
    let inside : (z : A) → In z xs → In z w.others = λ z j. elim (w.kept z (sub z (inr j))) [
      | inl e ↦ absurd (d.0 (subst (λ v. In v xs) e j))
      | inr k ↦ k
    ] in
    let shorter = w.shorter in
    elim (w.kept y i) [
      | inl e ↦ inl e
      | inr k ↦ inr (In-Distinct xs w.others d.1 inside (omega (arith, h, shorter)) y k)
    ]
