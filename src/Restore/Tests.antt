-- ===== src/Restore/Tests.antt =====
-- Runs of the modifier compiler.
use testudo_operator.Base.{
  ℕ, String, ◌≡◌, refl, true, false, none, some, [], ◌∷◌, pos, inl, In, Distinct, map, All, ◌⊎◌,
}
use testudo_operator.Restore.Types.{
  Conditions, JsonPatch, ResourceModifierRule, RestoreModifierRule, Pair, Externals, Options,
  Summary, ok, err, CompiledCandidate, SelectedPatch, forward, reverse, rule_conflict,
  runtime_status,
}
use testudo_operator.Base.Text.{
  apart, trim_space, to_lower, join, has_prefix, has_suffix, split, contains, equal_fold,
}
use testudo_operator.Base.Sort.{sort_stable}
use testudo_operator.Base.Assoc.{lookup, insert}
use testudo_operator.Restore.Governance.{
  validate_rule_count_limit, validate_patch_governance, validate_conditions_governance,
  validate_resource_modifier_rule_complexity, json_pointer_depth, parse_group_resource,
  compile_resource_name_regex, under,
}
use testudo_operator.Restore.Candidate.{
  compile_one_modifier_rule, compile_system_rule_candidates, compile_velero_native_rule,
  compile_system_rules, governed_patches, normalize_mode, normalize_on_conflict, normalized_rule_id,
}
use testudo_operator.Restore.Namespaces.{
  is_member, allowed_names, check_names, validate_rule_namespace_scope, effective_rule_namespaces,
}
use testudo_operator.Restore.Namespaces.Scope.{Names, effective_rule_namespaces-Names}
use testudo_operator.Restore.Keys.{make_conflict_key}
use testudo_operator.Restore.Flow.{
  modifier_rule_enabled, modifier_rule_applies_to_target, normalize_direction_policy,
  direction_policy_allows, takes_part, resolve_modifier_flow, resolve_modifier_flow-swap,
}
use testudo_operator.Restore.Merge.Items.{Item, key_of}
use testudo_operator.Restore.Merge.Invariant.{Beats}
use testudo_operator.Restore.Merge.Precedence.{
  Offered, rule_key, merge-Distinct, merge_sound, merge-precedence,
}
use testudo_operator.Restore.Merge.Conflicts.{Conflict, merge-Conflict}
use testudo_operator.Restore.Compile.Governed.{GovernedPatch, compiled-Governed}
use testudo_operator.Restore.Compile.Protected.{compiled-protects}
use testudo_operator.Restore.Merge.{
  rule_of, candidate_less, meet, merge_patch, merge_patches, merge_rules, compiled_rules, finish,
  merge_compiled_candidates,
}
use testudo_operator.Restore.Compile.{
  Instance, add_rules, merge, compile_directed, compile_policy, compile_for, policy_of,
  effective_modifier_rule_input, has_new_dsl_rules, is_unified_direction_resolver_enabled,
  has_snapshot_bulk_modifier_actions, compile_modifier_rules_for_instance,
}

-- No label selectors, and every regular expression has a small program.
abbrev externals : Externals
externals = record {
  selector_text = λ s. some "";
  regex_program_size = λ s. some 1;
  is_print = λ c. true;
}

abbrev on_services : Conditions
on_services = record {
  group_resource = "services";
  resource_name_regex = "^web$";
  namespaces = "shop" ∷ [];
  label_selector = none;
}

abbrev sets : String → JsonPatch
sets v = record { operation = "replace"; path = "/spec/type"; value = v; from = "" }

abbrev fixed : ResourceModifierRule
fixed = record { conditions = on_services; patches = sets "ClusterIP" ∷ [] }

abbrev wanted : RestoreModifierRule
wanted = record {
  id = "expose";
  mode = "veleroNative";
  enabled = none;
  apply_to = [];
  priority = pos 900;
  conditions = on_services;
  velero_rule =
      some (record { patches = sets "NodePort" ∷ []; merge_patches = []; strategic_patches = [] });
  pair = none;
  direction_policy = "Both";
  on_conflict = "Fail";
}

abbrev options : Options
options = record {
  baseline_source_cluster = "a";
  baseline_target_cluster = "b";
  apply_target = "DisasterRecovery";
  system_rules = [];
  system_protect_rules = fixed ∷ [];
  runtime_modifier_rules = [];
}

abbrev shop : Instance
shop = record {
  restore_policy = some (record {
    bulk_modifier_actions = [];
    modifier_rules = wanted ∷ [];
    modifier_rule_snapshot = [];
    modifier_rule_snapshot_hash = "";
    use_unified_direction_resolver = some true;
  });
  primary_cluster = "a";
  secondary_cluster = "b";
}

abbrev counts : Summary
counts = record {
  flow = some forward;
  direction_source = some runtime_status;
  applied_rule_count = 1;
  skipped_rule_count = 0;
  rejected_rule_count = 0;
  conflict_count = 0;
}

compiled :
    compile_modifier_rules_for_instance externals (some shop) options ≡ (counts, ok (fixed ∷ []))
unfolding compile_modifier_rules_for_instance validate_rule_count_limit resolve_modifier_flow
    takes_part compile_one_modifier_rule compile_system_rule_candidates compile_velero_native_rule
    compile_system_rules governed_patches validate_patch_governance validate_conditions_governance
    validate_resource_modifier_rule_complexity merge_compiled_candidates make_conflict_key
    trim_space to_lower join sort_stable has_prefix has_suffix split contains json_pointer_depth
    normalize_mode normalize_on_conflict normalized_rule_id effective_modifier_rule_input
    has_new_dsl_rules is_unified_direction_resolver_enabled has_snapshot_bulk_modifier_actions
    modifier_rule_enabled modifier_rule_applies_to_target direction_policy_allows
    parse_group_resource compile_resource_name_regex insert lookup add_rules merge compile_directed
    compile_policy compile_for policy_of candidate_less meet merge_patch merge_patches merge_rules
    compiled_rules finish under normalize_direction_policy equal_fold
compiled = refl

compiled-protects_example :
    (winner : ResourceModifierRule) × (kept : JsonPatch) × In winner (fixed ∷ [])
    × (winner.patches ≡ kept ∷ [])
    × (rule_key externals winner ≡ make_conflict_key externals on_services (sets "ClusterIP"))
    × ((kept.value ≡ "ClusterIP")
        ⊎ ((guard : ResourceModifierRule) × In guard (fixed ∷ []) × In kept guard.patches))
compiled-protects_example =
    compiled-protects externals (some shop) options counts (fixed ∷ []) compiled fixed
      (sets "ClusterIP") (inl refl) (inl refl)

compiled-Governed_example : All (λ rule. All GovernedPatch rule.patches) (fixed ∷ [])
compiled-Governed_example =
    compiled-Governed externals (some shop) options counts (fixed ∷ []) compiled

abbrev candidate : String → ℕ → String → CompiledCandidate
candidate id priority v = record {
  rule = record { conditions = on_services; patches = sets v ∷ [] };
  rule_id = id;
  priority = pos priority;
  on_conflict = "Fail";
  is_system = false;
  is_system_protect = false;
}

abbrev no_counts : Summary
no_counts = record {
  flow = none;
  direction_source = none;
  applied_rule_count = 0;
  skipped_rule_count = 0;
  rejected_rule_count = 0;
  conflict_count = 0;
}

abbrev low : CompiledCandidate
low = candidate "low" 10 "ClusterIP"

abbrev high : CompiledCandidate
high = candidate "high" 20 "NodePort"

abbrev other : CompiledCandidate
other = candidate "other" 10 "NodePort"

abbrev merged_counts : Summary
merged_counts = record no_counts { applied_rule_count = 1; skipped_rule_count = 1 }

merged :
    merge_compiled_candidates externals (low ∷ high ∷ []) no_counts
    ≡ (merged_counts, ok (high.rule ∷ []))
unfolding merge_compiled_candidates merge_rules merge_patches merge_patch meet candidate_less finish
    compiled_rules make_conflict_key lookup insert sort_stable trim_space to_lower join
merged = refl

merge-Distinct_example : Distinct (map (rule_key externals) (high.rule ∷ []))
merge-Distinct_example =
    merge-Distinct externals (low ∷ high ∷ []) no_counts merged_counts (high.rule ∷ []) merged

merge_sound_example :
    (winner : CompiledCandidate) × (patch : JsonPatch) × Offered (low ∷ high ∷ []) winner patch
    × (high.rule ≡ record { conditions = winner.rule.conditions; patches = patch ∷ [] })
merge_sound_example =
    merge_sound externals (low ∷ high ∷ []) no_counts merged_counts (high.rule ∷ []) merged
      high.rule (inl refl)

merge-precedence_example :
    (winner : SelectedPatch) × Offered (low ∷ high ∷ []) winner.candidate winner.patch
    × In (rule_of winner) (high.rule ∷ [])
    × (rule_key externals (rule_of winner) ≡ key_of externals (low, sets "ClusterIP"))
    × Beats winner (low, sets "ClusterIP")
merge-precedence_example =
    merge-precedence externals (low ∷ high ∷ []) no_counts merged_counts (high.rule ∷ []) merged low
      (sets "ClusterIP") (inl refl, inl refl)

clashed : merge_compiled_candidates externals (low ∷ other ∷ []) no_counts ≡ (
  record no_counts { conflict_count = 1 },
  err (rule_conflict (make_conflict_key externals on_services (sets "NodePort")) "low" "other"),
)
unfolding merge_compiled_candidates merge_rules merge_patches merge_patch meet candidate_less finish
    compiled_rules make_conflict_key lookup insert sort_stable trim_space to_lower join
clashed = refl

merge-Conflict_example :
    (first second : Item) × Offered (low ∷ other ∷ []) first.0 first.1
    × Offered (low ∷ other ∷ []) second.0 second.1
    × (key_of externals first ≡ key_of externals second)
    × Conflict first second
        (key_of externals second)
        (rule_conflict (make_conflict_key externals on_services (sets "NodePort")) "low" "other")
merge-Conflict_example =
    merge-Conflict externals (low ∷ other ∷ []) no_counts (record no_counts { conflict_count = 1 })
      (rule_conflict (make_conflict_key externals on_services (sets "NodePort")) "low" "other")
      clashed

abbrev ports : Pair
ports = record { path = "/spec/type"; source_value = "NodePort"; target_value = "ClusterIP" }

resolve_modifier_flow-swap_example :
    resolve_modifier_flow "a" "b" " b" "a" ≡ ok (reverse, runtime_status)
unfolding resolve_modifier_flow trim_space
resolve_modifier_flow-swap_example =
    resolve_modifier_flow-swap "a" "b" "a" " b" forward
      (apart (trim_space "a") (trim_space "b") refl) (apart (trim_space "a") "" refl) refl

effective_rule_namespaces-Names_example :
    Distinct (effective_rule_namespaces (" shop" ∷ "shop" ∷ []) ("mail" ∷ "shop" ∷ []))
    × All
        (λ name. Names name ("mail" ∷ "shop" ∷ []))
        (effective_rule_namespaces (" shop" ∷ "shop" ∷ []) ("mail" ∷ "shop" ∷ []))
unfolding allowed_names validate_rule_namespace_scope check_names is_member trim_space
effective_rule_namespaces-Names_example =
    effective_rule_namespaces-Names (" shop" ∷ "shop" ∷ []) ("mail" ∷ "shop" ∷ []) refl refl
