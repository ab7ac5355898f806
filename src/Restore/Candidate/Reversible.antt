-- ===== src/Restore/Candidate/Reversible.antt =====
-- A reversible rule has the same effect in both directions, but for the value.
use testudo_operator.Base.{false, [], ◌∷◌, ◌==◌}
use testudo_operator.Base.Text.{trim_space, has_suffix}
use testudo_operator.Restore.Types.{
  Pair, RestoreModifierRule, Externals, Options, Result, ok, reject_if, rule_not_reversible, ◌>>◌,
  Flow, CompiledCandidate,
}
use testudo_operator.Restore.Governance.{validate_patch_governance}
use testudo_operator.Restore.Pair.{selected_value}
use testudo_operator.Restore.Candidate.{bare_candidate, reversible_patch}

module _ (ext : Externals) (rule : RestoreModifierRule) (pair : Pair) (options : Options) where
  -- The candidate that carries the value of one side.
  abbrev pub side : Flow → CompiledCandidate
  side flow =
      bare_candidate rule.conditions
        (reversible_patch ext (trim_space pair.path) (selected_value pair flow) ∷ [])

  checks : Flow → CompiledCandidate → Result CompiledCandidate
  checks flow c =
      reject_if (trim_space pair.path == "") rule_not_reversible
      >> (reject_if (has_suffix (trim_space pair.path) "/-") rule_not_reversible
          >> (validate_patch_governance rule.conditions
                (reversible_patch ext (trim_space pair.path) (selected_value pair flow)) false
              >> ok c))
