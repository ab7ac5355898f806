-- ===== src/Restore/Flow.antt =====
-- internal/controller/restore/modifier_engine.go: the direction of a restore, and the tests that let
-- a rule take part in it.
use testudo_operator.Base.{
  String, ◌≡◌, ◌≢◌, Bool, true, false, ◌&&◌, ◌||◌, none, some, List, [], ◌∷◌, ◌==◌, eq_iff, arith,
  is_empty, if◌then◌else◌,
}
use testudo_operator.Base.Text.{trim_space}
use testudo_operator.Restore.Types.{
  RestoreModifierRule, direction_resolve_failed, Result, ok, err, Flow, forward, reverse,
  DirectionSource, runtime_status, baseline_fallback,
}

unfoldable pub resolve_modifier_flow :
    String → String → String → String → Result (Flow × DirectionSource)
resolve_modifier_flow baseline_source baseline_target runtime_primary runtime_secondary =
    let source = trim_space baseline_source in
    let target = trim_space baseline_target in
    let primary = trim_space runtime_primary in
    let secondary = trim_space runtime_secondary in
    if primary == "" && secondary == ""
    then ok (forward, baseline_fallback)
    else if primary == "" || secondary == ""
    then err direction_resolve_failed
    else if source == "" || target == ""
    then err direction_resolve_failed
    else if primary == source && secondary == target
    then ok (forward, runtime_status)
    else if primary == target && secondary == source
    then ok (reverse, runtime_status)
    else err direction_resolve_failed

unfoldable pub modifier_rule_enabled : RestoreModifierRule → Bool
modifier_rule_enabled rule = elim rule.enabled [ none ↦ true | some b ↦ b ]

has_target : List String → String → Bool
has_target [] target = false
has_target (t ∷ ts) target = if t == target then true else has_target ts target

unfoldable pub modifier_rule_applies_to_target : RestoreModifierRule → String → Bool
unfolding has_target
modifier_rule_applies_to_target rule target =
    if target == "" || is_empty rule.apply_to then true else has_target rule.apply_to target

pub data DirectionPolicy : Type 0 where
  auto forward_only reverse_only : DirectionPolicy

unfoldable pub normalize_direction_policy : String → DirectionPolicy
normalize_direction_policy policy =
    let policy' = trim_space policy in
    if policy' == "ForwardOnly"
    then forward_only
    else if policy' == "ReverseOnly"
    then reverse_only
    else auto

allows : DirectionPolicy → Flow → Bool
allows forward_only forward = true
allows forward_only reverse = false
allows reverse_only forward = false
allows reverse_only reverse = true
allows auto flow = true

unfoldable pub direction_policy_allows : String → Flow → Bool
unfolding allows normalize_direction_policy
direction_policy_allows policy flow = allows (normalize_direction_policy policy) flow

-- The three tests with which `compileModifierRulesForInstance` skips a rule, in its order.
unfoldable pub takes_part : RestoreModifierRule → String → Flow → Bool
takes_part rule target flow =
    modifier_rule_enabled rule
    && modifier_rule_applies_to_target rule target
    && direction_policy_allows rule.direction_policy flow

abbrev pub opposite : Flow → Flow
opposite forward = reverse
opposite reverse = forward

-- When the source and the target differ, and the direction is resolved from the two roles in the
-- status, of which the primary is named, then with the two roles exchanged it is resolved from the
-- status too, to the opposite flow.
pub resolve_modifier_flow-swap :
    (source target primary secondary : String) (flow : Flow)
    → trim_space source ≢ trim_space target
    → trim_space primary ≢ ""
    → resolve_modifier_flow source target primary secondary ≡ ok (flow, runtime_status)
    → resolve_modifier_flow source target secondary primary ≡ ok (opposite flow, runtime_status)
unfolding resolve_modifier_flow
resolve_modifier_flow-swap source target primary secondary flow distinct named h =
    let s = trim_space source in
    let t = trim_space target in
    let p = trim_space primary in
    let q = trim_space secondary in
    ground (
      arith,
      eq_iff p "",
      eq_iff q "",
      eq_iff s "",
      eq_iff t "",
      eq_iff p s,
      eq_iff q t,
      eq_iff p t,
      eq_iff q s,
    )
