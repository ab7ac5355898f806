-- ===== src/Restore/Governance.antt =====
-- internal/controller/restore/modifier_governance_limits.go, and the governance of patches in
-- modifier_engine.go: which conditions and paths a rule may have.
use Prim.Native.Char.{code}
use Prim.Native.String.{len, ◌++◌}
use testudo_operator.Base.{
  ℕ, suc, String, Bool, true, false, not, ◌&&◌, ◌||◌, none, some, List, [], ◌∷◌, ◌≡◌, refl, ◌==◌,
  ltb, nat_eq, length, if◌then◌else◌,
}
use testudo_operator.Base.Text.{
  trim_space, has_prefix, strip_prefix, split, join, to_lower, equal_fold,
}
use testudo_operator.Restore.Types.{
  Conditions, JsonPatch, ResourceModifierRule, Externals, rule_rejected, Result, ok, err, ◌>>=◌,
  ◌>>◌, reject_if,
}

abbrev pub max_modifier_rules_per_instance : ℕ
max_modifier_rules_per_instance = 1000

abbrev pub max_patches_per_rule : ℕ
max_patches_per_rule = 50

abbrev pub max_json_pointer_depth : ℕ
max_json_pointer_depth = 32

abbrev pub max_resource_name_regex_length : ℕ
max_resource_name_regex_length = 256

abbrev pub max_resource_name_regex_program_size : ℕ
max_resource_name_regex_program_size = 1024

unfoldable pub validate_rule_count_limit : ℕ → Result (Unit {0})
validate_rule_count_limit total =
    reject_if (ltb max_modifier_rules_per_instance total) rule_rejected

-- The group and the resource of a trimmed text. `strings.Split` never returns an empty list.
group_resource_of : List String → Result (String × String)
group_resource_of [] = err rule_rejected
group_resource_of (part ∷ parts) =
    let resource = trim_space part in
    if resource == "" then err rule_rejected else ok (trim_space (join "." parts), resource)

unfoldable pub parse_group_resource : String → Result (String × String)
unfolding group_resource_of
parse_group_resource raw =
    let raw' = trim_space raw in
    if raw' == "" then err rule_rejected else group_resource_of (split b'.' raw')

module _ (ext : Externals) where
  -- The program sizes of `regexp.Compile` and of `syntax.Compile` fail on the same texts.
  unfoldable pub compile_resource_name_regex : String → Result (Unit {0})
  compile_resource_name_regex raw =
      let raw' = trim_space raw in
      if raw' == ""
      then ok tt
      else if ltb max_resource_name_regex_length (len raw')
      then err rule_rejected
      else elim (ext.regex_program_size raw') [
        | none ↦ err rule_rejected
        | some size ↦ reject_if (ltb max_resource_name_regex_program_size size) rule_rejected
      ]

  validate_label_selector : Conditions → Result (Unit {0})
  validate_label_selector conditions = elim conditions.label_selector [
    | none ↦ ok tt
    | some selector ↦ elim (ext.selector_text selector) [
      | none ↦ err rule_rejected
      | some text ↦ ok tt
    ]
  ]

  unfoldable pub validate_conditions_governance : Conditions → Result (Unit {0})
  unfolding validate_label_selector
  validate_conditions_governance conditions = do
    parsed ← parse_group_resource conditions.group_resource
    validate_label_selector conditions
    compile_resource_name_regex conditions.resource_name_regex

  unfoldable pub validate_resource_modifier_rule_complexity :
      ResourceModifierRule → Result (Unit {0})
  validate_resource_modifier_rule_complexity rule = do
    validate_conditions_governance rule.conditions
    reject_if (ltb max_patches_per_rule (length rule.patches)) rule_rejected

count_tokens : List String → ℕ
count_tokens [] = 0
count_tokens (token ∷ tokens) =
    let rest = count_tokens tokens in if token == "" then rest else suc rest

unfoldable pub json_pointer_depth : String → ℕ
unfolding count_tokens
json_pointer_depth path =
    let path' = trim_space path in
    if path' == "" || path' == "/"
    then 0
    else elim (strip_prefix path' "/") [ none ↦ 0 | some rest ↦ count_tokens (split b'/' rest) ]

-- The white space of JSON, then the bracket that closes an array.
closes_array : String → Bool
closes_array String.[] = false
closes_array (String.◌∷◌ c s) =
    let rest = closes_array s in
    if nat_eq (code c) 32 || nat_eq (code c) 9 || nat_eq (code c) 10 || nat_eq (code c) 13
    then rest
    else nat_eq (code c) b']' && s == ""

-- What `json.Unmarshal` takes for a list with no items: `[ ]`, and `null`, which leaves the list nil.
unfoldable pub is_empty_json_array_literal : String → Bool
unfolding closes_array
is_empty_json_array_literal raw =
    let raw' = trim_space raw in
    if raw' == ""
    then false
    else elim (strip_prefix raw' "[") [ none ↦ raw' == "null" | some rest ↦ closes_array rest ]

unfoldable pub is_trafficless_owner_reference_exception : Conditions → JsonPatch → Bool
is_trafficless_owner_reference_exception conditions patch =
    let op = to_lower (trim_space patch.operation) in
    if not (trim_space patch.path == "/metadata/ownerReferences")
    then false
    else if not (equal_fold (trim_space conditions.group_resource) "pods")
    then false
    else if op == "remove"
    then true
    else if op == "add"
    then is_empty_json_array_literal patch.value
    else false

-- A path that stands at `root` or below it.
abbrev pub under : String → String → Bool
under path root = path == root || has_prefix path (root ++ "/")

unfoldable pub validate_patch_governance : Conditions → JsonPatch → Bool → Result (Unit {0})
validate_patch_governance conditions patch from_system_rule =
    let path = trim_space patch.path in
    do
      reject_if (path == "") rule_rejected
      reject_if (ltb max_json_pointer_depth (json_pointer_depth path)) rule_rejected
      reject_if (under path "/status") rule_rejected
      reject_if (under path "/metadata/finalizers") rule_rejected
      reject_if
          (under path "/metadata/ownerReferences"
            && not (from_system_rule && is_trafficless_owner_reference_exception conditions patch))
          rule_rejected

depth_example : json_pointer_depth "/spec//template/0" ≡ 3
unfolding json_pointer_depth trim_space strip_prefix split
depth_example = refl

null_is_empty :
    (is_empty_json_array_literal " null" ≡ true) × (is_empty_json_array_literal "[\n]" ≡ true)
unfolding is_empty_json_array_literal trim_space strip_prefix
null_is_empty = (refl, refl)
