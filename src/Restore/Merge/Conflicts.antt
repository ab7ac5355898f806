-- ===== src/Restore/Merge/Conflicts.antt =====
-- When `mergeCompiledCandidates` returns an error.
use testudo_operator.Base.{
  reverse_onto, In-reverse_onto, In-reverse_onto_old, String, ◌≡◌, ◌≢◌, refl, sym, ◌∙◌, ◌⊎◌, inl,
  inr, Option, none, some, List, [], ◌∷◌, eq_iff, arith, In, All-In, eqb_ℤ-eq,
}
use testudo_operator.Base.Assoc.{lookup}
use testudo_operator.Base.Sort.{Ordered, sort_stable}
use testudo_operator.Restore.Types.{
  Externals, CompiledCandidate, Summary, ModifierError, rule_conflict, err, SelectedPatch,
}
use testudo_operator.Restore.Merge.{
  MergeState, Progress, running, failed, and_then, merge_patch, meet, at_key, merge_rules,
  candidate_less, finish, start, merge_compiled_candidates,
}
use testudo_operator.Restore.Merge.Items.{
  Item, NotAbove, items_of, key_of, merge_items, merge_rules-eq, sorted_items-Ordered,
}
use testudo_operator.Restore.Merge.Invariant.{as_item, Holds}
use testudo_operator.Restore.Merge.Loop.{Holds-start, merge_patch-Holds}
use testudo_operator.Restore.Merge.Precedence.{Offered, Offered-of_met}

-- Two patches that no rule of the merge can order, and that their rules do not let pass.
pub record Conflict (first second : Item) (key : String) (x : ModifierError) : Type 0 where
  pub same_priority : first.0.priority ≡ second.0.priority
  pub same_protection : first.0.is_system_protect ≡ second.0.is_system_protect
  pub other_value : first.1.value ≢ second.1.value
  pub not_skipped : second.0.on_conflict ≢ "Skip"
  pub reported : x ≡ rule_conflict key first.0.rule_id second.0.rule_id

meet_failed :
    (key : String) (s : SelectedPatch) (it : Item) (st : MergeState) {sm : Summary}
    {x : ModifierError}
    → meet key s it.0 it.1 st ≡ failed sm x
    → Conflict (as_item s) it key x
unfolding meet
meet_failed key s it st e = ground (
  arith,
  eq_iff s.patch.value it.1.value,
  eq_iff it.0.on_conflict "Skip",
  eqb_ℤ-eq it.0.priority s.candidate.priority,
)

and_then-failed :
    (p : Progress) (f : MergeState → Progress) {sm : Summary} {x : ModifierError}
    → and_then p f ≡ failed sm x
    → (p ≡ failed sm x) ⊎ ((st : MergeState) × (p ≡ running st) × (f st ≡ failed sm x))
and_then-failed (running st) f e = inr (st, refl, e)
and_then-failed (failed sm x) f e = inl e

module _ (ext : Externals) where
  -- An item of `all` and the item `it`, with one key, that cannot be ordered.
  abbrev Clash : List Item → Item → ModifierError → Type 0
  Clash all it x =
      (first : Item) × In first all
      × (key_of ext first ≡ key_of ext it)
      × Conflict first it (key_of ext it) x

  failed_at :
      (it : Item) (met : List Item) (st : MergeState) {sm : Summary} {x : ModifierError}
      → Holds ext met st.selected st.order
      → (o : Option SelectedPatch) → lookup (key_of ext it) st.selected ≡ o
      → at_key (key_of ext it) o it.0 it.1 st ≡ failed sm x
      → Clash met it x
  failed_at it met st h none found e = cc
  failed_at it met st h (some s) found e =
      let (i, q) = h.chosen (key_of ext it) s found in
      (as_item s, i, q, meet_failed (key_of ext it) s it st e)

  patch_failed :
      (it : Item) (met : List Item) (st : MergeState) {sm : Summary} {x : ModifierError}
      → Holds ext met st.selected st.order
      → merge_patch ext it.0 it.1 st ≡ failed sm x
      → Clash met it x
  unfolding merge_patch
  patch_failed it met st h e = failed_at it met st h (lookup (key_of ext it) st.selected) refl e

  items_failed :
      (items met : List Item) (st : MergeState) {sm : Summary} {x : ModifierError}
      → Holds ext met st.selected st.order
      → Ordered NotAbove items
      → ((x y : Item) → In x met → In y items → NotAbove x y)
      → merge_items ext items st ≡ failed sm x
      → (second : Item) × In second items × Clash (reverse_onto items met) second x
  unfolding merge_items
  items_failed [] met st h o above e = cc
  items_failed (it ∷ items) met st h o above e =
      elim (and_then-failed (merge_patch ext it.0 it.1 st) (merge_items ext items) e) [
        | inl now ↦
            let (first, i, q, c) = patch_failed it met st h now in
            (it, inl refl, (first, In-reverse_onto_old first items (it ∷ met) (inr i), q, c))
        | inr (st1, first, later) ↦
            let (second, i, c) =
              items_failed items (it ∷ met) st1
                (merge_patch-Holds ext it met st st1 h (λ x i. above x it i (inl refl)) first) o.1
                (λ x y i j. elim i [
                  | inl p ↦ rw p (All-In (NotAbove it) items y o.0 j)
                  | inr k ↦ above x y k (inr j)
                ])
                later in
            (second, inr i, c)
      ]

  finish-err :
      (p : Progress) {summary' : Summary} {x : ModifierError}
      → finish p ≡ (summary', err x)
      → p ≡ failed summary' x
  unfolding finish
  finish-err (running st) e = cc
  finish-err (failed sm y) e = cc

  -- When the merge returns an error, two patches of its candidates have the same conflict key, other
  -- values, candidates of the same priority, both or neither of them protecting, of which the second
  -- is not to be skipped; the error names the key and the two candidates.
  pub merge-Conflict :
      (rules : List CompiledCandidate) (summary summary' : Summary) (x : ModifierError)
      → merge_compiled_candidates ext rules summary ≡ (summary', err x)
      → (first second : Item) × Offered rules first.0 first.1
        × Offered rules second.0 second.1
        × (key_of ext first ≡ key_of ext second)
        × Conflict first second (key_of ext second) x
  unfolding merge_compiled_candidates
  merge-Conflict [] summary summary' x e = cc
  merge-Conflict (rule ∷ rules) summary summary' x e =
      let sorted = sort_stable candidate_less (rule ∷ rules) in
      let (second, i, clash) =
        items_failed (items_of sorted) [] (start summary) (Holds-start ext)
          (sorted_items-Ordered (rule ∷ rules)) (λ x y i j. absurd i)
          (sym (merge_rules-eq ext sorted (start summary))
            ∙ finish-err (merge_rules ext sorted (start summary)) e) in
      let (first, j, q, c) = clash in
      (
        first,
        second,
        Offered-of_met ext (rule ∷ rules) first j,
        Offered-of_met ext (rule ∷ rules) second (In-reverse_onto second (items_of sorted) [] i),
        q,
        c,
      )
