-- ===== src/Restore/Candidate.antt =====
-- The compilation of one rule: `compileOneModifierRule`, `compileVeleroNativeRule`,
-- `compileReversibleRule` and `compileSystemRuleCandidates` of
-- internal/controller/restore/modifier_engine.go.
pub mod Reversible
use testudo_operator.Base.{
  ℕ, ◌+◌, ℤ, pos, numbered, String, Bool, true, false, not, ◌&&◌, ◌||◌, Option, none, some, List,
  [], ◌∷◌, ◌++◌, ◌==◌, is_empty, if◌then◌else◌,
}
use testudo_operator.Base.Text.{trim_space, has_suffix}
use testudo_operator.Restore.Types.{
  JsonPatch, Conditions, ResourceModifierRule, VeleroRule, Pair, RestoreModifierRule, Externals,
  Options, ModifierError, rule_rejected, rule_not_reversible, Result, ok, err, ◌>>=◌, ◌>>◌,
  reject_if, Flow, CompiledCandidate,
}
use testudo_operator.Restore.Governance.{
  validate_conditions_governance, validate_resource_modifier_rule_complexity,
  validate_patch_governance,
}
use testudo_operator.Restore.Pair.{resolve_pair_value, encode_pair_value_for_velero_path}

unfoldable pub normalize_mode : String → String
normalize_mode mode =
    let mode' = trim_space mode in
    if mode' == "veleroNative"
    then "veleroNative"
    else if mode' == "reversible"
    then "reversible"
    else mode

unfoldable pub normalize_on_conflict : String → String
normalize_on_conflict policy = if trim_space policy == "Skip" then "Skip" else "Fail"

unfoldable pub normalized_rule_id : RestoreModifierRule → ℕ → String
normalized_rule_id rule idx =
    if trim_space rule.id == "" then numbered "rule" idx else trim_space rule.id

-- `for _, patch := range patches { validate; append }`: the patches, if all of them pass.
unfoldable pub governed_patches : Conditions → Bool → List JsonPatch → Result (List JsonPatch)
governed_patches conditions from_system_rule [] = ok []
governed_patches conditions from_system_rule (patch ∷ patches) = do
  validate_patch_governance conditions patch from_system_rule
  rest ← governed_patches conditions from_system_rule patches
  ok (patch ∷ rest)

-- `compiledCandidate{rule: …}`, the other fields zero.
abbrev pub bare_candidate : Conditions → List JsonPatch → CompiledCandidate
bare_candidate conditions patches = record {
  rule = record { conditions = conditions; patches = patches };
  rule_id = "";
  priority = pos 0;
  on_conflict = "";
  is_system = false;
  is_system_protect = false;
}

unfoldable pub compile_velero_native_rule :
    RestoreModifierRule → Option VeleroRule → Result CompiledCandidate
compile_velero_native_rule rule none = err rule_rejected
compile_velero_native_rule rule (some velero) = do
  reject_if (not (is_empty velero.merge_patches) || not (is_empty velero.strategic_patches))
      rule_rejected
  reject_if (is_empty velero.patches) rule_rejected
  patches ← governed_patches rule.conditions false velero.patches
  ok (bare_candidate rule.conditions patches)

module _ (ext : Externals) where
  abbrev pub reversible_patch : String → String → JsonPatch
  reversible_patch path value = record {
    operation = "add";
    path = path;
    value = encode_pair_value_for_velero_path ext path value;
    from = "";
  }

  unfoldable pub compile_reversible_rule :
      RestoreModifierRule → Option Pair → Flow → Options → Result CompiledCandidate
  compile_reversible_rule rule none flow options = err rule_not_reversible
  compile_reversible_rule rule (some pair) flow options =
      let path = trim_space pair.path in
      do
        reject_if (path == "") rule_not_reversible
        reject_if (has_suffix path "/-") rule_not_reversible
        value ← resolve_pair_value (some pair) flow options
        validate_patch_governance rule.conditions (reversible_patch path value) false
        ok (bare_candidate rule.conditions (reversible_patch path value ∷ []))

  unfoldable pub compile_one_modifier_rule :
      RestoreModifierRule → Flow → Options → Result CompiledCandidate
  compile_one_modifier_rule rule flow options =
      let mode = normalize_mode rule.mode in
      do
        validate_conditions_governance ext rule.conditions
        if mode == "veleroNative"
            then compile_velero_native_rule rule rule.velero_rule
            else if mode == "reversible"
            then compile_reversible_rule rule rule.pair flow options
            else err rule_rejected

  -- The closure `compile` of `compileSystemRuleCandidates`, from the rule of index `idx` on.
  unfoldable pub compile_system_rules :
      String → Bool → ℕ → List ResourceModifierRule → Result (List CompiledCandidate)
  compile_system_rules prefix protect idx [] = ok []
  compile_system_rules prefix protect idx (rule ∷ rules) = do
    validate_resource_modifier_rule_complexity ext rule
    reject_if (is_empty rule.patches) rule_rejected
    patches ← governed_patches rule.conditions true rule.patches
    rest ← compile_system_rules prefix protect (idx + 1) rules
    ok (
        record {
          rule = record { conditions = rule.conditions; patches = patches };
          rule_id = numbered prefix idx;
          priority = pos 0;
          on_conflict = "Fail";
          is_system = true;
          is_system_protect = protect;
        }
        ∷ rest)

  unfoldable pub compile_system_rule_candidates : Options → Result (List CompiledCandidate)
  compile_system_rule_candidates options = do
    system ← compile_system_rules "system" false 0 options.system_rules
    protect ← compile_system_rules "system-protect" true 0 options.system_protect_rules
    ok (system ++ protect)
