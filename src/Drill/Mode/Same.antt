-- ===== src/Drill/Mode/Same.antt =====
-- internal/controller/disasterdrill/backup_mode.go, `restoreModesEqual`: it compares the two maps.
use testudo_operator.Base.{
  String, ◌≡◌, refl, sym, ap, subst, ◌∙◌, inl, inr, true, none, [], ◌∷◌, arith, In, Distinct,
  In-Distinct, length, Bool-cases, Option-cases,
}
use testudo_operator.Base.Assoc.{Assoc, lookup, names, lookup-In, In-names, names-In, names-In_inv}
use testudo_operator.Drill.Types.{RestoreMode, no_mode, reuse, full_restore, resource_only, mixed}
use testudo_operator.Drill.Mode.{mode_eq, mode_of, same_modes, restore_modes_equal}

pub mode_eq_sound : (a b : RestoreMode) → mode_eq a b ≡ true → a ≡ b
mode_eq_sound no_mode no_mode h = refl
mode_eq_sound reuse reuse h = refl
mode_eq_sound full_restore full_restore h = refl
mode_eq_sound resource_only resource_only h = refl
mode_eq_sound mixed mixed h = refl
mode_eq_sound a b h = ground arith

same_modes_sound :
    (left right : Assoc RestoreMode) (name : String) (mode : RestoreMode)
    → same_modes left right ≡ true
    → In (name, mode) left
    → mode_of name right ≡ mode
unfolding same_modes
same_modes_sound [] right name mode h i = absurd i
same_modes_sound ((n, m) ∷ left) right name mode h i =
    elim (Bool-cases (mode_eq (mode_of n right) m)) [
      | inr f ↦ ground arith
      | inl t ↦ elim i [
        | inl e ↦
            ap (λ p. mode_of p.0 right) e
            ∙ mode_eq_sound (mode_of n right) m t
            ∙ sym (ap (λ p. p.1) e)
        | inr l ↦ same_modes_sound left right name mode (ground arith) l
      ]
    ]

mode_of-none : (k : String) (m : Assoc RestoreMode) → lookup k m ≡ none → mode_of k m ≡ no_mode
mode_of-none k m e = rw (mode_of, e) refl

length-names : (m : Assoc RestoreMode) → length (names m) ≡ length m
length-names [] = refl
length-names ((k, v) ∷ m) = omega (arith, length-names m)

-- Two maps that compare as equal give every name the same mode, when the names of the first are distinct
-- and none of its modes is empty.
pub restore_modes_equal_sound :
    (left right : Assoc RestoreMode) (name : String)
    → Distinct (names left)
    → ((n : String) → ¬ In (n, no_mode) left)
    → restore_modes_equal left right ≡ true
    → mode_of name left ≡ mode_of name right
unfolding restore_modes_equal
restore_modes_equal_sound left right name d filled h =
    let lengths : length left ≡ length right = ground arith in
    let same : same_modes left right ≡ true = ground arith in
    let inside : (k : String) → In k (names left) → In k (names right) = λ k i.
      let (m, j) = names-In_inv k left i in
      elim (Option-cases (lookup k right)) [
        | inl e ↦
            let empty : m ≡ no_mode =
              sym (same_modes_sound left right k m same j) ∙ mode_of-none k right e in
            absurd (filled k (subst (λ v. In (k, v) left) empty j))
        | inr (m', e) ↦ names-In k m' right (lookup-In k m' right e)
      ] in
    elim (Option-cases (lookup name left)) [
      | inr (m, e) ↦
          rw (mode_of, e) (sym (same_modes_sound left right name m same (lookup-In name m left e)))
      | inl e ↦ elim (Option-cases (lookup name right)) [
        | inl f ↦ rw (mode_of, e, f) refl
        | inr (m, f) ↦ absurd (
            In-names name left
              (In-Distinct (names left) (names right) d inside
                (omega (arith, lengths, length-names left, length-names right)) name
                (names-In name m right (lookup-In name m right f)))
              e)
      ]
    ]
