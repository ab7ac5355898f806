-- ===== src/Restore/Compile/Governed.antt =====
-- No rule that the compiler returns patches what governance forbids.
use testudo_operator.Base.{
  ℕ, ◌≤◌, String, ◌≡◌, ◌≢◌, refl, ◌⊎◌, Bool, true, false, Option, none, some, List, [], ◌∷◌, ◌++◌,
  arith, eq_iff, All, All-In, In-All, All-append, ◌==◌, not, is_empty, ◌||◌, ◌+◌,
}
use testudo_operator.Base.Text.{trim_space, to_lower, has_suffix}
use testudo_operator.Restore.Types.{
  Conditions, JsonPatch, ResourceModifierRule, VeleroRule, Pair, RestoreModifierRule, Externals,
  Options, ok, Gives, Gives-bind, Gives-ok, Gives-err, Gives-any, Gives-if, rule_not_reversible,
  reject_if, rule_rejected, Flow, Summary, CompiledCandidate,
}
use testudo_operator.Restore.Governance.{
  max_json_pointer_depth, json_pointer_depth, under, is_trafficless_owner_reference_exception,
  validate_patch_governance, validate_conditions_governance,
  validate_resource_modifier_rule_complexity, is_empty_json_array_literal,
}
use testudo_operator.Restore.Pair.{resolve_pair_value}
use testudo_operator.Restore.Candidate.{
  governed_patches, compile_one_modifier_rule, compile_velero_native_rule, compile_reversible_rule,
  compile_system_rules, compile_system_rule_candidates, reversible_patch, bare_candidate,
  normalize_mode,
}
use testudo_operator.Restore.Merge.Precedence.{merge_sound}
use testudo_operator.Restore.Compile.{Instance, compile_modifier_rules_for_instance}
use testudo_operator.Restore.Compile.Candidates.{completed, compiled-Merged}

-- The operation takes the owner references away, or replaces them by an empty list.
abbrev pub ClearsOwners : JsonPatch → Type 0
ClearsOwners patch =
    (to_lower (trim_space patch.operation) ≡ "remove")
    ⊎ ((to_lower (trim_space patch.operation) ≡ "add")
        × (is_empty_json_array_literal patch.value ≡ true))

pub record GovernedPatch (patch : JsonPatch) : Type 0 where
  pub named : trim_space patch.path ≢ ""
  pub shallow : json_pointer_depth (trim_space patch.path) ≤ max_json_pointer_depth
  pub no_status : under (trim_space patch.path) "/status" ≡ false
  pub no_finalizers : under (trim_space patch.path) "/metadata/finalizers" ≡ false
  pub owners :
      (under (trim_space patch.path) "/metadata/ownerReferences" ≡ false) ⊎ ClearsOwners patch

exception-clears :
    (conditions : Conditions) (patch : JsonPatch)
    → is_trafficless_owner_reference_exception conditions patch ≡ true
    → ClearsOwners patch
unfolding is_trafficless_owner_reference_exception
exception-clears conditions patch h =
    let op = to_lower (trim_space patch.operation) in
    ground (arith, eq_iff op "remove", eq_iff op "add")

validate-GovernedPatch :
    (conditions : Conditions) (patch : JsonPatch) (system : Bool) (u : Unit {0})
    → validate_patch_governance conditions patch system ≡ ok u
    → GovernedPatch patch
unfolding validate_patch_governance
validate-GovernedPatch conditions patch system u h =
    ground (arith, eq_iff (trim_space patch.path) "", exception-clears conditions patch)

abbrev pub AllGoverned : List JsonPatch → Type 0
AllGoverned patches = All GovernedPatch patches

validate-Gives :
    (conditions : Conditions) (patch : JsonPatch) (system : Bool)
    → Gives (λ u. GovernedPatch patch) (validate_patch_governance conditions patch system)
validate-Gives conditions patch system = record {
  at = validate-GovernedPatch conditions patch system;
}

governed_patches-Gives :
    (conditions : Conditions) (system : Bool) (patches : List JsonPatch)
    → Gives AllGoverned (governed_patches conditions system patches)
unfolding governed_patches
governed_patches-Gives conditions system [] = Gives-ok [] tt
governed_patches-Gives conditions system (patch ∷ patches) =
    Gives-bind (λ u. GovernedPatch patch) (validate_patch_governance conditions patch system) _
      (validate-Gives conditions patch system)
      (λ u g.
        Gives-bind AllGoverned (governed_patches conditions system patches) _
          (governed_patches-Gives conditions system patches)
          (λ rest gs. Gives-ok (patch ∷ rest) (g, gs)))

-- A candidate of a rule of the policy or of the runtime: it does not protect.
abbrev pub IsUser : CompiledCandidate → Type 0
IsUser candidate = AllGoverned candidate.rule.patches × (candidate.is_system_protect ≡ false)

abbrev IsGoverned : CompiledCandidate → Type 0
IsGoverned candidate = AllGoverned candidate.rule.patches

compile_velero_native_rule-Gives :
    (rule : RestoreModifierRule) (velero : Option VeleroRule)
    → Gives IsUser (compile_velero_native_rule rule velero)
unfolding compile_velero_native_rule
compile_velero_native_rule-Gives rule none = Gives-err _
compile_velero_native_rule-Gives rule (some velero) =
    Gives-bind (λ u. Unit {0})
      (reject_if (not (is_empty velero.merge_patches) || not (is_empty velero.strategic_patches))
        rule_rejected)
      _ (Gives-any _)
      (λ u a.
        Gives-bind (λ u. Unit {0}) (reject_if (is_empty velero.patches) rule_rejected) _
          (Gives-any _)
          (λ v b.
            Gives-bind AllGoverned (governed_patches rule.conditions false velero.patches) _
              (governed_patches-Gives rule.conditions false velero.patches)
              (λ patches gs. Gives-ok (bare_candidate rule.conditions patches) (gs, refl))))

module _ (ext : Externals) where
  compile_reversible_rule-Gives :
      (rule : RestoreModifierRule) (pair : Option Pair) (flow : Flow) (options : Options)
      → Gives IsUser (compile_reversible_rule ext rule pair flow options)
  unfolding compile_reversible_rule
  compile_reversible_rule-Gives rule none flow options = Gives-err _
  compile_reversible_rule-Gives rule (some pair) flow options =
      let path = trim_space pair.path in
      Gives-bind (λ u. Unit {0}) (reject_if (path == "") rule_not_reversible) _ (Gives-any _)
        (λ u a.
          Gives-bind (λ u. Unit {0}) (reject_if (has_suffix path "/-") rule_not_reversible) _
            (Gives-any _)
            (λ v b.
              Gives-bind (λ value. Unit {0}) (resolve_pair_value (some pair) flow options) _
                (Gives-any _)
                (λ value c.
                  Gives-bind (λ w. GovernedPatch (reversible_patch ext path value))
                    (validate_patch_governance rule.conditions (reversible_patch ext path value)
                      false)
                    _ (validate-Gives rule.conditions (reversible_patch ext path value) false)
                    (λ w g.
                      Gives-ok
                        (bare_candidate rule.conditions (reversible_patch ext path value ∷ []))
                        ((g, tt), refl)))))

  pub compile_one_modifier_rule-Gives :
      (rule : RestoreModifierRule) (flow : Flow) (options : Options)
      → Gives IsUser (compile_one_modifier_rule ext rule flow options)
  unfolding compile_one_modifier_rule
  compile_one_modifier_rule-Gives rule flow options =
      Gives-bind (λ u. Unit {0}) (validate_conditions_governance ext rule.conditions) _
        (Gives-any _)
        (λ u a.
          Gives-if (normalize_mode rule.mode == "veleroNative") _ _
            (λ native. compile_velero_native_rule-Gives rule rule.velero_rule)
            (λ other.
              Gives-if (normalize_mode rule.mode == "reversible") _ _
                (λ reversible. compile_reversible_rule-Gives rule rule.pair flow options)
                (λ neither. Gives-err _)))

  compile_system_rules-Gives :
      (prefix : String) (protect : Bool) (idx : ℕ) (rules : List ResourceModifierRule)
      → Gives (All IsGoverned) (compile_system_rules ext prefix protect idx rules)
  unfolding compile_system_rules
  compile_system_rules-Gives prefix protect idx [] = Gives-ok [] tt
  compile_system_rules-Gives prefix protect idx (rule ∷ rules) =
      Gives-bind (λ u. Unit {0}) (validate_resource_modifier_rule_complexity ext rule) _
        (Gives-any _)
        (λ u a.
          Gives-bind (λ u. Unit {0}) (reject_if (is_empty rule.patches) rule_rejected) _
            (Gives-any _)
            (λ v b.
              Gives-bind AllGoverned (governed_patches rule.conditions true rule.patches) _
                (governed_patches-Gives rule.conditions true rule.patches)
                (λ patches gs.
                  Gives-bind (All IsGoverned)
                    (compile_system_rules ext prefix protect (idx + 1) rules) _
                    (compile_system_rules-Gives prefix protect (idx + 1) rules)
                    (λ rest hs. Gives-ok _ (gs, hs)))))

  compile_system_rule_candidates-Gives :
      (options : Options) → Gives (All IsGoverned) (compile_system_rule_candidates ext options)
  unfolding compile_system_rule_candidates
  compile_system_rule_candidates-Gives options =
      Gives-bind (All IsGoverned) (compile_system_rules ext "system" false 0 options.system_rules) _
        (compile_system_rules-Gives "system" false 0 options.system_rules)
        (λ system gs.
          Gives-bind (All IsGoverned)
            (compile_system_rules ext "system-protect" true 0 options.system_protect_rules) _
            (compile_system_rules-Gives "system-protect" true 0 options.system_protect_rules)
            (λ protect hs.
              Gives-ok (system ++ protect) (All-append IsGoverned system protect gs hs)))

  -- When the compiler returns rules, every patch of every rule has a path, of at most 32 tokens,
  -- outside `/status` and `/metadata/finalizers`; and one in `/metadata/ownerReferences` is a removal,
  -- or an addition of a value that is read as an empty JSON array, which `null` is too.
  pub compiled-Governed :
      (instance' : Option Instance) (options : Options) (s : Summary)
      (out : List ResourceModifierRule)
      → compile_modifier_rules_for_instance ext instance' options ≡ (s, ok out)
      → All (λ rule. All GovernedPatch rule.patches) out
  compiled-Governed instance' options s out e =
      let (rules, governed, s1, s2, m) =
        compiled-Merged ext options (All IsGoverned)
          (compile_system_rule_candidates-Gives options).at
          (λ rules rule flow idx c q h.
            All-append IsGoverned rules (completed rule idx c ∷ []) h
              (((compile_one_modifier_rule-Gives rule flow options).at c q).0, tt))
          instance' s out e in
      In-All (λ rule. All GovernedPatch rule.patches) out
        (λ rule i.
          let (winner, patch, offered, q) = merge_sound ext rules s1 s2 out m rule i in
          rw q (
            All-In GovernedPatch winner.rule.patches patch
                (All-In IsGoverned rules winner governed offered.0) offered.1,
            tt,
          ))
