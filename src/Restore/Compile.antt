-- ===== src/Restore/Compile.antt =====
-- `compileModifierRulesForInstance` of internal/controller/restore/modifier_engine.go, with
-- internal/controller/restore/modifier_snapshot.go. The proofs are in the modules below.
pub mod Candidates
pub mod Governed
pub mod Protected
use testudo_operator.Base.{
  ℕ, ◌+◌, String, Bool, true, false, not, ◌&&◌, ◌||◌, Option, none, some, List, [], ◌∷◌, ◌++◌, ◌==◌,
  length, is_empty, if◌then◌else◌,
}
use testudo_operator.Base.Text.{trim_space}
use testudo_operator.Restore.Types.{
  ResourceModifierRule, RestoreModifierRule, BulkModifierAction, RestorePolicy, Externals, Options,
  ModifierError, rule_rejected, feature_disabled, Result, ok, err, Flow, DirectionSource, Summary,
  CompiledCandidate,
}
use testudo_operator.Restore.Governance.{validate_rule_count_limit}
use testudo_operator.Restore.Flow.{resolve_modifier_flow, takes_part}
use testudo_operator.Restore.Candidate.{
  normalize_on_conflict, normalized_rule_id, compile_one_modifier_rule,
  compile_system_rule_candidates,
}
use testudo_operator.Restore.Merge.{merge_compiled_candidates}

-- What the compiler reads of a `DisasterInstance`.
pub record Instance : Type 0 where
  pub restore_policy : Option RestorePolicy
  pub primary_cluster : String
  pub secondary_cluster : String

-- The function counts in a summary while it runs, and returns it beside the rules or the error.
abbrev pub Compiling : Type 0 → Type 0
Compiling A = Summary → Summary × Result A

infixl 5 ◌>>=◌ ◌>>◌
abbrev pub continue : {A B : Type 0} → Result A → (A → Compiling B) → Compiling B
continue (ok a) f summary = f a summary
continue (err e) f summary = (summary, err e)

abbrev pub ◌>>=◌ : {A B : Type 0} → Compiling A → (A → Compiling B) → Compiling B
◌>>=◌ m f summary = let (summary', r) = m summary in continue r f summary'

abbrev pub ◌>>◌ : {B : Type 0} → Compiling (Unit {0}) → Compiling B → Compiling B
m >> k = m >>= λ _. k

abbrev pub pure : {A : Type 0} → A → Compiling A
pure a summary = (summary, ok a)

-- An error that is returned without a count.
abbrev pub lift : {A : Type 0} → Result A → Compiling A
lift r summary = (summary, r)

-- An error that is counted as a rejected rule.
abbrev pub rejecting : {A : Type 0} → Result A → Compiling A
rejecting (ok a) summary = (summary, ok a)
rejecting (err e) summary =
    (record summary { rejected_rule_count = summary.rejected_rule_count + 1 }, err e)

abbrev pub skipped : Compiling (Unit {0})
skipped summary = (record summary { skipped_rule_count = summary.skipped_rule_count + 1 }, ok tt)

abbrev pub directed : Flow × DirectionSource → Compiling (Unit {0})
directed (flow, source) summary =
    (record summary { flow = some flow; direction_source = some source }, ok tt)

unfoldable pub bulk_modifier_action_enabled : BulkModifierAction → Bool
bulk_modifier_action_enabled action = elim action.enabled [ none ↦ true | some b ↦ b ]

-- An enabled action other than `rewriteImage`.
unfoldable pub has_snapshot_bulk_modifier_actions : List BulkModifierAction → Bool
unfolding bulk_modifier_action_enabled
has_snapshot_bulk_modifier_actions [] = false
has_snapshot_bulk_modifier_actions (action ∷ actions) =
    let rest = has_snapshot_bulk_modifier_actions actions in
    if bulk_modifier_action_enabled action && not (action.action == "rewriteImage")
    then true
    else rest

-- The rules to compile; the flag that tells whether they are the snapshot changes nothing.
unfoldable pub effective_modifier_rule_input : RestorePolicy → Result (List RestoreModifierRule)
effective_modifier_rule_input policy =
    if not (has_snapshot_bulk_modifier_actions policy.bulk_modifier_actions)
    then ok policy.modifier_rules
    else if is_empty policy.modifier_rule_snapshot
    then err rule_rejected
    else if trim_space policy.modifier_rule_snapshot_hash == ""
    then err rule_rejected
    else ok policy.modifier_rule_snapshot

unfoldable pub has_new_dsl_rules : RestorePolicy → Bool
has_new_dsl_rules policy =
    has_snapshot_bulk_modifier_actions policy.bulk_modifier_actions
    || not (is_empty policy.modifier_rules)

unfoldable pub is_unified_direction_resolver_enabled : RestorePolicy → Bool
is_unified_direction_resolver_enabled policy = elim policy.use_unified_direction_resolver [
  | none ↦ false
  | some b ↦ b
]

-- `instance == nil || instance.Spec.RestorePolicy == nil`, or the two.
unfoldable pub policy_of : Option Instance → Option (Instance × RestorePolicy)
policy_of none = none
policy_of (some instance') = elim instance'.restore_policy [
  | none ↦ none
  | some policy ↦ some (instance', policy)
]

-- The direction, from the baseline and from the roles in the instance's status.
abbrev pub direction_of : Instance → Options → Compiling (Flow × DirectionSource)
direction_of instance' options = lift (
    resolve_modifier_flow options.baseline_source_cluster options.baseline_target_cluster
      instance'.primary_cluster instance'.secondary_cluster)

abbrev pub rule_count : Options → List RestoreModifierRule → ℕ
rule_count options input =
    length options.system_rules
    + length options.system_protect_rules
    + length options.runtime_modifier_rules
    + length input

module _ (ext : Externals) where
  -- The two loops over the runtime rules and over the rules of the policy, from index `idx` on.
  unfoldable pub add_rules :
      Options
      → Flow
      → ℕ
      → List RestoreModifierRule
      → List CompiledCandidate
      → Compiling (List CompiledCandidate)
  add_rules options flow idx [] rules = pure rules
  add_rules options flow idx (rule ∷ rest) rules =
      let omitted = skipped >> add_rules options flow (idx + 1) rest rules in
      let added = rejecting (compile_one_modifier_rule ext rule flow options) >>= λ candidate.
      add_rules options flow (idx + 1) rest (
        rules
        ++ record candidate {
          priority = rule.priority;
          rule_id = normalized_rule_id rule idx;
          on_conflict = normalize_on_conflict rule.on_conflict;
        }
          ∷ []) in
      if takes_part rule options.apply_target flow then added else omitted

  unfoldable pub merge : List CompiledCandidate → Compiling (List ResourceModifierRule)
  merge rules = merge_compiled_candidates ext rules

  -- What follows when the unified direction resolver may run.
  unfoldable pub compile_directed :
      Instance
      → Options
      → List RestoreModifierRule
      → List CompiledCandidate
      → Compiling (List ResourceModifierRule)
  unfolding merge
  compile_directed instance' options input rules =
      if is_empty input && is_empty options.runtime_modifier_rules then merge rules else (do
        direction ← direction_of instance' options
        directed direction
        with_runtime ← add_rules options direction.0 0 options.runtime_modifier_rules rules
        with_input ← add_rules options direction.0 0 input with_runtime
        merge with_input)

  unfoldable pub compile_policy :
      Instance
      → RestorePolicy
      → Options
      → List CompiledCandidate
      → Compiling (List ResourceModifierRule)
  unfolding compile_directed
  compile_policy instance' policy options rules = do
    input ← rejecting (effective_modifier_rule_input policy)
    rejecting (validate_rule_count_limit (rule_count options input))
    if is_unified_direction_resolver_enabled policy
        then compile_directed instance' options input rules
        else if has_new_dsl_rules policy
        then lift (err feature_disabled)
        else if is_empty options.runtime_modifier_rules
        then merge rules
        else compile_directed instance' options input rules

  unfoldable pub compile_for : Option Instance → Options → Compiling (List ResourceModifierRule)
  unfolding policy_of compile_policy
  compile_for instance' options = do
    rules ← rejecting (compile_system_rule_candidates ext options)
    elim (policy_of instance') [
      | none ↦ merge rules
      | some (inst, policy) ↦ compile_policy inst policy options rules
    ]

abbrev empty_summary : Summary
empty_summary = record {
  flow = none;
  direction_source = none;
  applied_rule_count = 0;
  skipped_rule_count = 0;
  rejected_rule_count = 0;
  conflict_count = 0;
}

unfoldable pub compile_modifier_rules_for_instance :
    Externals → Option Instance → Options → Summary × Result (List ResourceModifierRule)
unfolding compile_for
compile_modifier_rules_for_instance ext instance' options =
    compile_for ext instance' options empty_summary
