-- ===== src/Restore/Types.antt =====
-- The data of restore modifiers: pkg/apis/disaster/v1/disasterinstance_types.go, apprestore_types.go
-- and the types of internal/controller/restore/modifier_engine.go. A pointer that may be nil is an
-- `Option`. An error keeps its code and the rule ids it names; its text is left out.
pub use testudo_operator.Base.Outcome.{
  ok, err, ◌>>=◌, ◌>>◌, reject_if, Gives, Gives-bind, Gives-ok, Gives-err, Gives-any, Gives-if,
}
use testudo_operator.Base.Outcome.{Outcome}
use testudo_operator.Base.{ℕ, ℤ, String, Bool, Option, List}

-- `metav1.LabelSelector`: labels, and expressions of key, operator and values.
pub record LabelSelector : Type 0 where
  pub match_labels : List (String × String)
  pub match_expressions : List (String × String × List String)

pub record Conditions : Type 0 where
  pub group_resource : String
  pub resource_name_regex : String
  pub namespaces : List String
  pub label_selector : Option LabelSelector

pub record JsonPatch : Type 0 where
  pub operation : String
  pub path : String
  pub value : String
  pub from : String

pub record ResourceModifierRule : Type 0 where
  pub conditions : Conditions
  pub patches : List JsonPatch

pub record VeleroRule : Type 0 where
  pub patches : List JsonPatch
  pub merge_patches : List String
  pub strategic_patches : List String

pub record Pair : Type 0 where
  pub path : String
  pub source_value : String
  pub target_value : String

pub record RestoreModifierRule : Type 0 where
  pub id : String
  pub mode : String
  pub enabled : Option Bool
  pub apply_to : List String
  pub priority : ℤ
  pub conditions : Conditions
  pub velero_rule : Option VeleroRule
  pub pair : Option Pair
  pub direction_policy : String
  pub on_conflict : String

-- The fields of `BulkModifierAction` that decide whether the snapshot is required.
pub record BulkModifierAction : Type 0 where
  pub action : String
  pub enabled : Option Bool

pub record RestorePolicy : Type 0 where
  pub bulk_modifier_actions : List BulkModifierAction
  pub modifier_rules : List RestoreModifierRule
  pub modifier_rule_snapshot : List RestoreModifierRule
  pub modifier_rule_snapshot_hash : String
  pub use_unified_direction_resolver : Option Bool

-- The error codes, with what decides the branch of a conflict.
pub data ModifierError : Type 0 where
  direction_resolve_failed rule_rejected rule_not_reversible feature_disabled : ModifierError
  rule_conflict : String → String → String → ModifierError

abbrev pub Result : Type 0 → Type 0
Result = Outcome ModifierError

pub data Flow : Type 0 where
  forward reverse : Flow

pub data DirectionSource : Type 0 where
  runtime_status baseline_fallback : DirectionSource

-- `ModifierCompileSummary`; `none` stands for an empty `Flow` or `DirectionSource`.
pub record Summary : Type 0 where
  pub flow : Option Flow
  pub direction_source : Option DirectionSource
  pub applied_rule_count : ℕ
  pub skipped_rule_count : ℕ
  pub rejected_rule_count : ℕ
  pub conflict_count : ℕ

pub record CompiledCandidate : Type 0 where
  pub rule : ResourceModifierRule
  pub rule_id : String
  pub priority : ℤ
  pub on_conflict : String
  pub is_system : Bool
  pub is_system_protect : Bool

pub record SelectedPatch : Type 0 where
  pub candidate : CompiledCandidate
  pub patch : JsonPatch

-- `ApplyInstanceRestorePolicyOptions`, without the override that `policy.go` applies before.
pub record Options : Type 0 where
  pub baseline_source_cluster : String
  pub baseline_target_cluster : String
  pub apply_target : String
  pub system_rules : List ResourceModifierRule
  pub system_protect_rules : List ResourceModifierRule
  pub runtime_modifier_rules : List RestoreModifierRule

-- What the compiler calls and this repository does not define: the text of a label selector
-- (`metav1.LabelSelectorAsSelector`, `none` on its error), the size of a compiled regular expression
-- (`none` on a syntax error), and Unicode's printable characters beyond ASCII.
pub record Externals : Type 0 where
  pub selector_text : LabelSelector → Option String
  pub regex_program_size : String → Option ℕ
  pub is_print : ℕ → Bool
