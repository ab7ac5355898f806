-- ===== src/Restore/Merge/Precedence.antt =====
-- What `mergeCompiledCandidates` returns when it returns rules.
use testudo_operator.Base.{
  reverse_onto, In-reverse_onto, In-reverse_onto_inv, String, ◌≡◌, refl, sym, ap, subst, ◌∙◌, inl,
  inr, some, List, [], ◌∷◌, map, In, Distinct, In-map, In-map_inv,
}
use testudo_operator.Base.Assoc.{lookup}
use testudo_operator.Base.Sort.{sort_stable, In-sort_stable, In-sort_stable_inv}
use testudo_operator.Restore.Types.{
  JsonPatch, ResourceModifierRule, Externals, CompiledCandidate, Summary, ok, SelectedPatch,
}
use testudo_operator.Restore.Keys.{make_conflict_key}
use testudo_operator.Restore.Merge.{
  MergeState, Progress, running, failed, merge_rules, candidate_less, rule_of, or_no_patch,
  compiled_rules, finish, start, merge_compiled_candidates,
}
use testudo_operator.Restore.Merge.Items.{
  Item, items_of, key_of, merge_rules-eq, In-items_of, In-items_of_inv, sorted_items-Ordered,
}
use testudo_operator.Restore.Merge.Invariant.{Beats, as_item, Holds}
use testudo_operator.Restore.Merge.Loop.{Holds-start, merge_items-Holds}

-- The conflict key of a rule with one patch.
abbrev pub rule_key : Externals → ResourceModifierRule → String
rule_key ext rule = elim rule.patches [
  | [] ↦ ""
  | patch ∷ rest ↦ make_conflict_key ext rule.conditions patch
]

finish-ok :
    (p : Progress) {summary' : Summary} {compiled : List ResourceModifierRule}
    → finish p ≡ (summary', ok compiled)
    → (st : MergeState) × (p ≡ running st) × (compiled ≡ compiled_rules st)
unfolding finish
finish-ok (running st) e = (st, refl, cc)
finish-ok (failed summary x) e = cc

-- A candidate and one of its patches.
abbrev pub Offered : List CompiledCandidate → CompiledCandidate → JsonPatch → Type 0
Offered rules rule patch = In rule rules × In patch rule.rule.patches

module _ (ext : Externals) where
  -- The state that the loop ends in.
  merged :
      (rules : List CompiledCandidate) (summary summary' : Summary)
      {compiled : List ResourceModifierRule}
      → merge_compiled_candidates ext rules summary ≡ (summary', ok compiled)
      → (st : MergeState) × Holds ext
          (reverse_onto (items_of (sort_stable candidate_less rules)) [])
          st.selected
          st.order
        × (compiled ≡ compiled_rules st)
  unfolding merge_compiled_candidates
  merged [] summary summary' e =
      (start summary, unfold sort_stable in Holds-start ext, unfold compiled_rules in cc)
  merged (rule ∷ rules) summary summary' e =
      let sorted = sort_stable candidate_less (rule ∷ rules) in
      let (st, f, g) = finish-ok (merge_rules ext sorted (start summary)) e in
      (
        st,
        merge_items-Holds ext (items_of sorted) [] (start summary) st (Holds-start ext)
            (sorted_items-Ordered (rule ∷ rules)) (λ x y i j. absurd i)
            (sym (merge_rules-eq ext sorted (start summary)) ∙ f),
        g,
      )

  pub Offered-of_met :
      (rules : List CompiledCandidate) (it : Item)
      → In it (reverse_onto (items_of (sort_stable candidate_less rules)) [])
      → Offered rules it.0 it.1
  Offered-of_met rules it i =
      let sorted = sort_stable candidate_less rules in
      elim (In-reverse_onto_inv it (items_of sorted) [] i) [
        | inl j ↦
            let (a, b) = In-items_of_inv it sorted j in
            (In-sort_stable_inv candidate_less it.0 rules a, b)
        | inr j ↦ absurd j
      ]

  met_of_offered :
      (rules : List CompiledCandidate) (it : Item)
      → Offered rules it.0 it.1
      → In it (reverse_onto (items_of (sort_stable candidate_less rules)) [])
  met_of_offered rules it (i, j) =
      let sorted = sort_stable candidate_less rules in
      In-reverse_onto it (items_of sorted) []
        (In-items_of it.0 it.1 sorted (In-sort_stable candidate_less it.0 rules i) j)

  compiled_at :
      (st : MergeState) (k : String) (s : SelectedPatch)
      → lookup k st.selected ≡ some s
      → In k st.order
      → In (rule_of s) (compiled_rules st)
  unfolding compiled_rules
  compiled_at st k s f i =
      subst (λ r. In r (compiled_rules st)) (ap (λ o. rule_of (or_no_patch o)) f)
        (In-map (λ j. rule_of (or_no_patch (lookup j st.selected))) k st.order i)

  rule_keys :
      (st : MergeState) (ks : List String) {met : List Item}
      → Holds ext met st.selected st.order
      → ((k : String) → In k ks → In k st.order)
      → map (rule_key ext) (map (λ k. rule_of (or_no_patch (lookup k st.selected))) ks) ≡ ks
  rule_keys st [] h sub = refl
  rule_keys st (k ∷ ks) h sub =
      let (s, f) = h.known k (sub k (inl refl)) in
      cc (f, (h.chosen k s f).1, rule_keys st ks h (λ j i. sub j (inr i)))

  -- When the merge returns rules, no two of them have the same conflict key.
  pub merge-Distinct :
      (rules : List CompiledCandidate) (summary summary' : Summary)
      (compiled : List ResourceModifierRule)
      → merge_compiled_candidates ext rules summary ≡ (summary', ok compiled)
      → Distinct (map (rule_key ext) compiled)
  merge-Distinct rules summary summary' compiled e =
      let (st, h, g) = merged rules summary summary' e in
      rw g (unfold compiled_rules in rw (rule_keys st st.order h (λ k i. i)) h.distinct)

  -- When the merge returns rules, each of them is one patch of one of the candidates under the
  -- conditions of that candidate.
  pub merge_sound :
      (rules : List CompiledCandidate) (summary summary' : Summary)
      (compiled : List ResourceModifierRule)
      → merge_compiled_candidates ext rules summary ≡ (summary', ok compiled)
      → (out : ResourceModifierRule) → In out compiled
      → (winner : CompiledCandidate) × (patch : JsonPatch) × Offered rules winner patch
        × (out ≡ record { conditions = winner.rule.conditions; patches = patch ∷ [] })
  merge_sound rules summary summary' compiled e out i =
      let (st, h, g) = merged rules summary summary' e in
      let (k, q, j) =
        In-map_inv (λ k. rule_of (or_no_patch (lookup k st.selected))) out st.order
          (unfold compiled_rules in subst (In out) g i) in
      let (s, f) = h.known k j in
      (
        s.candidate,
        s.patch,
        Offered-of_met rules (as_item s) (h.chosen k s f).0,
        q ∙ ap (λ o. rule_of (or_no_patch o)) f,
      )

  -- When the merge returns rules, every patch of every candidate has a rule with its conflict key,
  -- which comes from a candidate that has the same value, or is a protecting system rule, or has at
  -- least the priority of the patch's candidate, which then does not protect.
  pub merge-precedence :
      (rules : List CompiledCandidate) (summary summary' : Summary)
      (compiled : List ResourceModifierRule)
      → merge_compiled_candidates ext rules summary ≡ (summary', ok compiled)
      → (rule : CompiledCandidate) (patch : JsonPatch) → Offered rules rule patch
      → (winner : SelectedPatch) × Offered rules winner.candidate winner.patch
        × In (rule_of winner) compiled
        × (rule_key ext (rule_of winner) ≡ key_of ext (rule, patch))
        × Beats winner (rule, patch)
  merge-precedence rules summary summary' compiled e rule patch offered =
      let (st, h, g) = merged rules summary summary' e in
      let (s, f, beats) = h.covered (rule, patch) (met_of_offered rules (rule, patch) offered) in
      let (i, q) = h.chosen (key_of ext (rule, patch)) s f in
      (
        s,
        Offered-of_met rules (as_item s) i,
        subst (In (rule_of s)) (sym g) (
            compiled_at st (key_of ext (rule, patch)) s f
              (h.listed (key_of ext (rule, patch)) s f)),
        q,
        beats,
      )
