-- ===== src/Restore/Keys.antt =====
-- The conflict key of a patch: `makeConflictKey` and `normalizedConditions` of
-- internal/controller/restore/modifier_engine.go.
use Prim.Native.String.{◌++◌}
use testudo_operator.Base.{String, none, some}
use testudo_operator.Base.Sort.{sort_stable}
use testudo_operator.Base.Text.{trim_space, to_lower, join, text_lt}
use testudo_operator.Restore.Types.{Conditions, JsonPatch, Externals}

module _ (ext : Externals) where
  -- The text of the selector; empty where there is none and where it does not compile.
  selector_key : Conditions → String
  selector_key conditions = elim conditions.label_selector [
    | none ↦ ""
    | some selector ↦ elim (ext.selector_text selector) [ none ↦ "" | some text ↦ text ]
  ]

  normalized_conditions : Conditions → String
  unfolding selector_key
  normalized_conditions conditions =
      "groupResource="
      ++ trim_space conditions.group_resource
      ++ "|resourceNameRegex="
      ++ trim_space conditions.resource_name_regex
      ++ "|namespaces="
      ++ join "," (sort_stable text_lt conditions.namespaces)
      ++ "|labelSelector="
      ++ selector_key conditions

  unfoldable pub make_conflict_key : Conditions → JsonPatch → String
  unfolding normalized_conditions
  make_conflict_key conditions patch =
      normalized_conditions conditions
      ++ "|"
      ++ to_lower (trim_space patch.operation)
      ++ "|"
      ++ trim_space patch.path
