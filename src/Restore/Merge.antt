-- ===== src/Restore/Merge.antt =====
-- `mergeCompiledCandidates` of internal/controller/restore/modifier_engine.go: candidates in order of
-- priority, one patch kept for each conflict key. The proofs are in the modules below.
pub mod Items
pub mod Invariant
pub mod Loop
pub mod Precedence
pub mod Conflicts
use testudo_operator.Base.{
  ℕ, ◌+◌, ltb_ℤ, eqb_ℤ, String, Bool, true, false, not, ◌&&◌, Option, none, some, List, [], ◌∷◌,
  ◌++◌, ◌==◌, map, length, pos, if◌then◌else◌,
}
use testudo_operator.Base.Assoc.{Assoc, lookup, insert}
use testudo_operator.Base.Sort.{sort_stable}
use testudo_operator.Base.Text.{text_lt}
use testudo_operator.Restore.Keys.{make_conflict_key}
use testudo_operator.Restore.Types.{
  Conditions, JsonPatch, ResourceModifierRule, Externals, ModifierError, rule_conflict, Result, ok,
  err, Summary, CompiledCandidate, SelectedPatch,
}

-- The order of `sort.SliceStable`: higher priority first, then the smaller rule id.
unfoldable pub candidate_less : CompiledCandidate → CompiledCandidate → Bool
candidate_less a b =
    if eqb_ℤ a.priority b.priority then text_lt a.rule_id b.rule_id else ltb_ℤ b.priority a.priority

-- The loop's variables: the map `selected`, the keys in order of their first use, the summary.
pub record MergeState : Type 0 where
  pub selected : Assoc SelectedPatch
  pub order : List String
  pub summary : Summary

-- What one round of the loop leaves: it goes on, or it returns an error.
pub data Progress : Type 0 where
  running : MergeState → Progress
  failed : Summary → ModifierError → Progress

abbrev pub skip : MergeState → Progress
skip st = running (record st {
  summary = record st.summary { skipped_rule_count = st.summary.skipped_rule_count + 1 };
})

abbrev pub select : String → SelectedPatch → MergeState → Progress
select key chosen st = running (record st { selected = insert key chosen st.selected })

-- The body of the loop at a key that is selected already.
unfoldable pub meet : String → SelectedPatch → CompiledCandidate → JsonPatch → MergeState → Progress
meet key existing rule patch st =
    let chosen : SelectedPatch = record { candidate = rule; patch = patch } in
    if existing.patch.value == patch.value
    then skip st
    else if existing.candidate.is_system_protect && not rule.is_system_protect
    then skip st
    else if rule.is_system_protect && not existing.candidate.is_system_protect
    then select key chosen st
    else if eqb_ℤ rule.priority existing.candidate.priority
    then (if rule.on_conflict == "Skip"
        then skip st
        else failed (record st.summary { conflict_count = st.summary.conflict_count + 1 })
            (rule_conflict key existing.candidate.rule_id rule.rule_id))
    else if ltb_ℤ existing.candidate.priority rule.priority
    then select key chosen st
    else skip st

-- The body of the loop at a key that is new.
abbrev pub enter : String → CompiledCandidate → JsonPatch → MergeState → Progress
enter key rule patch st = running (record st {
  selected = insert key (record { candidate = rule; patch = patch }) st.selected;
  order = st.order ++ key ∷ [];
})

abbrev pub at_key :
    String → Option SelectedPatch → CompiledCandidate → JsonPatch → MergeState → Progress
at_key key none rule patch st = enter key rule patch st
at_key key (some existing) rule patch st = meet key existing rule patch st

abbrev pub and_then : Progress → (MergeState → Progress) → Progress
and_then (running st) f = f st
and_then (failed summary e) f = failed summary e

module _ (ext : Externals) where
  -- One round of the inner loop.
  unfoldable pub merge_patch : CompiledCandidate → JsonPatch → MergeState → Progress
  merge_patch rule patch st =
      let key = make_conflict_key ext rule.rule.conditions patch in
      at_key key (lookup key st.selected) rule patch st

  -- `for _, patch := range rule.rule.Patches`.
  unfoldable pub merge_patches : CompiledCandidate → List JsonPatch → MergeState → Progress
  merge_patches rule [] st = running st
  merge_patches rule (patch ∷ patches) st =
      and_then (merge_patch rule patch st) (merge_patches rule patches)

  -- `for _, rule := range rules`.
  unfoldable pub merge_rules : List CompiledCandidate → MergeState → Progress
  merge_rules [] st = running st
  merge_rules (rule ∷ rules) st =
      and_then (merge_patches rule rule.rule.patches st) (merge_rules rules)

-- The zero values that a missing key of the map would give.
abbrev no_patch : SelectedPatch
no_patch = record {
  candidate = record {
    rule = record {
      conditions = record {
        group_resource = "";
        resource_name_regex = "";
        namespaces = [];
        label_selector = none;
      };
      patches = [];
    };
    rule_id = "";
    priority = pos 0;
    on_conflict = "";
    is_system = false;
    is_system_protect = false;
  };
  patch = record { operation = ""; path = ""; value = ""; from = "" };
}

abbrev pub or_no_patch : Option SelectedPatch → SelectedPatch
or_no_patch none = no_patch
or_no_patch (some s) = s

-- The rule that the last loop of the function builds for a selected patch.
abbrev pub rule_of : SelectedPatch → ResourceModifierRule
rule_of s = record { conditions = s.candidate.rule.conditions; patches = s.patch ∷ [] }

unfoldable pub compiled_rules : MergeState → List ResourceModifierRule
compiled_rules st = map (λ key. rule_of (or_no_patch (lookup key st.selected))) st.order

unfoldable pub finish : Progress → Summary × Result (List ResourceModifierRule)
finish (failed summary e) = (summary, err e)
finish (running st) =
    (record st.summary { applied_rule_count = length st.order }, ok (compiled_rules st))

abbrev pub start : Summary → MergeState
start summary = record { selected = []; order = []; summary = summary }

unfoldable pub merge_compiled_candidates :
    Externals → List CompiledCandidate → Summary → Summary × Result (List ResourceModifierRule)
merge_compiled_candidates ext [] summary = (summary, ok [])
merge_compiled_candidates ext (rule ∷ rules) summary =
    finish (merge_rules ext (sort_stable candidate_less (rule ∷ rules)) (start summary))
