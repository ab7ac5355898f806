-- ===== src/Restore/Merge/Loop.antt =====
-- Every round of the loop of `mergeCompiledCandidates` keeps what `Holds` says.
use testudo_operator.Base.{
  reverse_onto, ◌≤ℤ◌, String, ◌≡◌, refl, subst, ◌⊎◌, inl, inr, true, Option, none, some, List, [],
  ◌∷◌, arith, ◌==◌, eq_iff, In, All-In, Bool-cases,
}
use testudo_operator.Base.Assoc.{lookup, insert}
use testudo_operator.Base.Sort.{Ordered}
use testudo_operator.Restore.Types.{Externals, SelectedPatch}
use testudo_operator.Restore.Merge.{
  MergeState, Progress, running, failed, and_then, merge_patch, meet, at_key,
}
use testudo_operator.Restore.Merge.Items.{Item, key_of, merge_items, NotAbove}
use testudo_operator.Restore.Merge.Invariant.{
  Beats, as_selected, as_item, Holds, Holds-skip, Holds-select, Holds-enter,
}

running-injective : (a b : MergeState) → running a ≡ running b → a ≡ b
running-injective a b e = cc

-- What the body does at a key that is selected already, if it goes on.
abbrev Kept : SelectedPatch → Item → MergeState → MergeState → Type 0
Kept s it st st' = (st'.selected ≡ st.selected) × (st'.order ≡ st.order) × Beats s it

abbrev Replaced : String → SelectedPatch → Item → MergeState → MergeState → Type 0
Replaced key s it st st' =
    (st'.selected ≡ insert key (as_selected it) st.selected)
    × (st'.order ≡ st.order)
    × ((it.0.is_system_protect ≡ true) ⊎ ¬ (it.0.priority ≤ℤ s.candidate.priority))

meet_cases :
    (key : String) (s : SelectedPatch) (it : Item) (st st' : MergeState)
    → meet key s it.0 it.1 st ≡ running st'
    → Kept s it st st' ⊎ Replaced key s it st st'
unfolding meet
meet_cases key s it st st' h = elim (Bool-cases (s.patch.value == it.1.value)) [
  | inl same ↦ ground (arith, eq_iff s.patch.value it.1.value)
  | inr differ ↦ ground arith
]

pub and_then-running :
    (p : Progress) (f : MergeState → Progress) {st' : MergeState}
    → and_then p f ≡ running st'
    → (st : MergeState) × (p ≡ running st) × (f st ≡ running st')
and_then-running (running st) f e = (st, refl, e)
and_then-running (failed summary x) f e = cc

module _ (ext : Externals) where
  step_at :
      (it : Item) (met : List Item) (st st' : MergeState)
      → Holds ext met st.selected st.order
      → ((x : Item) → In x met → NotAbove x it)
      → (o : Option SelectedPatch) → lookup (key_of ext it) st.selected ≡ o
      → at_key (key_of ext it) o it.0 it.1 st ≡ running st'
      → Holds ext (it ∷ met) st'.selected st'.order
  step_at it met st st' h above none fresh e =
      subst (λ t. Holds ext (it ∷ met) t.selected t.order) (running-injective _ st' e)
        (Holds-enter ext it met st.selected st.order h fresh)
  step_at it met st st' h above (some s) found e = elim (meet_cases (key_of ext it) s it st st' e) [
    | inl (same, order, beats) ↦
        rw (same, order) (Holds-skip ext it met st.selected st.order h s found beats)
    | inr (put, order, why) ↦
        rw (put, order)
          (Holds-select ext it met st.selected st.order h s found (λ x j. inr (
            inl (elim why [
              | inl protect ↦ protect
              | inr above_s ↦
                  absurd (above_s (above (as_item s) (h.chosen (key_of ext it) s found).0))
            ]))))
  ]

  pub merge_patch-Holds :
      (it : Item) (met : List Item) (st st' : MergeState)
      → Holds ext met st.selected st.order
      → ((x : Item) → In x met → NotAbove x it)
      → merge_patch ext it.0 it.1 st ≡ running st'
      → Holds ext (it ∷ met) st'.selected st'.order
  unfolding merge_patch
  merge_patch-Holds it met st st' h above e =
      step_at it met st st' h above (lookup (key_of ext it) st.selected) refl e

  pub merge_items-Holds :
      (items met : List Item) (st st' : MergeState)
      → Holds ext met st.selected st.order
      → Ordered NotAbove items
      → ((x y : Item) → In x met → In y items → NotAbove x y)
      → merge_items ext items st ≡ running st'
      → Holds ext (reverse_onto items met) st'.selected st'.order
  unfolding merge_items
  merge_items-Holds [] met st st' h o above e =
      subst (λ t. Holds ext met t.selected t.order) (running-injective st st' e) h
  merge_items-Holds (it ∷ items) met st st' h o above e =
      let (st1, first, rest) =
        and_then-running (merge_patch ext it.0 it.1 st) (merge_items ext items) e in
      merge_items-Holds items (it ∷ met) st1 st'
        (merge_patch-Holds it met st st1 h (λ x i. above x it i (inl refl)) first) o.1
        (λ x y i j. elim i [
          | inl p ↦ rw p (All-In (NotAbove it) items y o.0 j)
          | inr k ↦ above x y k (inr j)
        ])
        rest

  -- Before the loop nothing is selected.
  pub Holds-start : Holds ext [] [] []
  unfolding lookup
  Holds-start = record {
    covered = λ x i. absurd i;
    chosen = λ k s f. cc;
    listed = λ k s f. cc;
    known = λ k i. absurd i;
    distinct = tt;
  }
