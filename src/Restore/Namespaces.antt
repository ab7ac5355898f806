-- ===== src/Restore/Namespaces.antt =====
-- `validateRuleNamespaceScope` and `effectiveRuleNamespaces` of
-- internal/controller/restore/modifier_submission_validation.go. A set of names is a list.
pub mod Scope
use testudo_operator.Base.{
  String, Bool, true, false, not, ◌||◌, List, [], ◌∷◌, ◌++◌, ◌==◌, is_empty, if◌then◌else◌,
}
use testudo_operator.Base.Text.{trim_space}
use testudo_operator.Restore.Types.{rule_rejected, Result, ok, err}

-- `_, ok := set[name]`.
unfoldable pub is_member : String → List String → Bool
is_member name [] = false
is_member name (n ∷ ns) = if n == name then true else is_member name ns

-- The names of `allowed`: trimmed, and not blank.
unfoldable pub allowed_names : List String → List String
allowed_names [] = []
allowed_names (n ∷ ns) =
    let rest = allowed_names ns in if trim_space n == "" then rest else trim_space n ∷ rest

unfoldable pub check_names : List String → List String → Result (Unit {0})
check_names allowed [] = ok tt
check_names allowed (n ∷ ns) =
    let rest = check_names allowed ns in
    if trim_space n == ""
    then rest
    else if is_member (trim_space n) allowed
    then rest
    else err rule_rejected

unfoldable pub validate_rule_namespace_scope : List String → List String → Result (Unit {0})
validate_rule_namespace_scope rule_namespaces instance_namespaces =
    if is_empty rule_namespaces || is_empty instance_namespaces
    then ok tt
    else if is_empty (allowed_names instance_namespaces)
    then ok tt
    else check_names (allowed_names instance_namespaces) rule_namespaces

-- One round of the closure `appendAll`; `seen` has the names of `out`.
unfoldable pub append_name : List String → String → List String
append_name out item =
    if trim_space item == "" || is_member (trim_space item) out
    then out
    else out ++ trim_space item ∷ []

unfoldable pub append_all : List String → List String → List String
append_all out [] = out
append_all out (item ∷ items) = append_all (append_name out item) items

unfoldable pub effective_rule_namespaces : List String → List String → List String
effective_rule_namespaces rule_namespaces default_namespaces =
    if not (is_empty (append_all [] rule_namespaces))
    then append_all [] rule_namespaces
    else append_all (append_all [] rule_namespaces) default_namespaces
