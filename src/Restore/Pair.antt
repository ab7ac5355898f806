-- ===== src/Restore/Pair.antt =====
-- The value of a reversible rule: `resolvePairValue` and `renderRestrictedPairValue` of
-- internal/controller/restore/modifier_engine.go, and the encoding of
-- internal/controller/restore/velero_value_semantics.go.
use Prim.Native.Char.{Char, code}
use Prim.Native.String.{count, ◌++◌}
use testudo_operator.Base.{
  ℕ, zero, suc, ◌-◌, String, Bool, true, false, ◌&&◌, ◌||◌, Option, none, some, List, [], ◌∷◌, ◌==◌,
  leb, ltb, nat_eq, hex, if◌then◌else◌,
}
use testudo_operator.Base.Text.{trim_space, strip_prefix, contains, split}
use testudo_operator.Restore.Types.{
  Pair, Externals, Options, direction_resolve_failed, rule_rejected, rule_not_reversible, Result,
  ok, err, ◌>>◌, reject_if, Flow, forward, reverse,
}

pub data Placeholder : Type 0 where
  source_cluster target_cluster flow : Placeholder

-- `\s*` of a regular expression.
skip_regex_space : String → String
skip_regex_space String.[] = String.[]
skip_regex_space (String.◌∷◌ c s) =
    let rest = skip_regex_space s in
    if nat_eq (code c) 32
      || nat_eq (code c) 9
      || nat_eq (code c) 10
      || nat_eq (code c) 12
      || nat_eq (code c) 13
    then rest
    else String.◌∷◌ c s

placeholder_name : String → Option (Placeholder × String)
placeholder_name s = elim (strip_prefix s "SourceCluster") [
  | some rest ↦ some (source_cluster, rest)
  | none ↦ elim (strip_prefix s "TargetCluster") [
    | some rest ↦ some (target_cluster, rest)
    | none ↦ elim (strip_prefix s "Flow") [ some rest ↦ some (flow, rest) | none ↦ none ]
  ]
]

-- `pairPlaceholderPattern` at the beginning of a text, with what follows the match.
match_placeholder : String → Option (Placeholder × String)
unfolding skip_regex_space placeholder_name
match_placeholder s = elim (strip_prefix s "{{") [
  | none ↦ none
  | some opened ↦ elim (strip_prefix (skip_regex_space opened) ".") [
    | none ↦ none
    | some dotted ↦ elim (placeholder_name dotted) [
      | none ↦ none
      | some (name, named) ↦ elim (strip_prefix (skip_regex_space named) "}}") [
        | none ↦ none
        | some rest ↦ some (name, rest)
      ]
    ]
  ]
]

-- `ReplaceAllStringFunc`, walking by characters: `skip` of them belong to the match before.
replace_placeholders : (Placeholder → String) → ℕ → String → String
unfolding match_placeholder
replace_placeholders value skip String.[] = String.[]
replace_placeholders value (suc skip) (String.◌∷◌ c s) = replace_placeholders value skip s
replace_placeholders value zero (String.◌∷◌ c s) = elim (match_placeholder (String.◌∷◌ c s)) [
  | none ↦ String.◌∷◌ c (replace_placeholders value zero s)
  | some (name, rest) ↦ value name ++ replace_placeholders value (count s - count rest) s
]

flow_text : Flow → String
flow_text forward = "forward"
flow_text reverse = "reverse"

placeholder_value : Options → Flow → Placeholder → String
unfolding flow_text
placeholder_value options f source_cluster = options.baseline_source_cluster
placeholder_value options f target_cluster = options.baseline_target_cluster
placeholder_value options f flow = flow_text f

unfoldable pub render_restricted_pair_value : String → Flow → Options → Result String
unfolding replace_placeholders placeholder_value
render_restricted_pair_value raw f options =
    if contains raw "{{"
    then (do
      reject_if
          (trim_space options.baseline_source_cluster == ""
            || trim_space options.baseline_target_cluster == "")
          direction_resolve_failed
      let rendered = replace_placeholders (placeholder_value options f) zero raw
      reject_if (contains rendered "{{" || contains rendered "}}") rule_rejected
      ok rendered)
    else ok raw

-- The side of the pair that the flow selects.
abbrev pub selected_value : Pair → Flow → String
selected_value pair forward = trim_space pair.target_value
selected_value pair reverse = trim_space pair.source_value

unfoldable pub resolve_pair_value : Option Pair → Flow → Options → Result String
resolve_pair_value none f options = err rule_not_reversible
resolve_pair_value (some pair) f options = do
  reject_if (selected_value pair f == "") rule_not_reversible
  render_restricted_pair_value (selected_value pair f) f options

-- `decodeJSONPointerToken`.
decode_json_pointer_token : String → Option String
decode_json_pointer_token String.[] = some String.[]
decode_json_pointer_token (String.◌∷◌ c String.[]) =
    if nat_eq (code c) b'~' then none else some (String.◌∷◌ c String.[])
decode_json_pointer_token (String.◌∷◌ c (String.◌∷◌ d s)) =
    let escaped = decode_json_pointer_token s in
    let plain = decode_json_pointer_token (String.◌∷◌ d s) in
    if nat_eq (code c) b'~'
    then (if nat_eq (code d) b'0'
        then elim escaped [ none ↦ none | some t ↦ some ("~" ++ t) ]
        else if nat_eq (code d) b'1'
        then elim escaped [ none ↦ none | some t ↦ some ("/" ++ t) ]
        else none)
    else elim plain [ none ↦ none | some t ↦ some (String.◌∷◌ c t) ]

decode_tokens : List String → Option (List String)
unfolding decode_json_pointer_token
decode_tokens [] = some []
decode_tokens (raw ∷ raws) = elim (decode_json_pointer_token raw) [
  | none ↦ none
  | some token ↦ elim (decode_tokens raws) [ none ↦ none | some tokens ↦ some (token ∷ tokens) ]
]

-- `decodeJSONPointerPath`; `none` stands for its errors.
unfoldable pub decode_json_pointer_path : String → Option (List String)
unfolding decode_tokens
decode_json_pointer_path path =
    let path' = trim_space path in
    if path' == "" || path' == "/"
    then none
    else elim (strip_prefix path' "/") [ none ↦ none | some rest ↦ decode_tokens (split b'/' rest) ]

-- `metadata`, then `annotations` or `labels`, then at least one token more.
has_metadata_map : List String → Bool
has_metadata_map (a ∷ b ∷ c ∷ rest) =
    let later = has_metadata_map (b ∷ c ∷ rest) in
    if a == "metadata" && (b == "annotations" || b == "labels") then true else later
has_metadata_map tokens = false

unfoldable pub path_uses_string_preserving_metadata_map : String → Bool
unfolding has_metadata_map
path_uses_string_preserving_metadata_map path = elim (decode_json_pointer_path path) [
  | none ↦ false
  | some tokens ↦ has_metadata_map tokens
]

module _ (ext : Externals) where
  -- One character of `strconv.Quote`.
  quote_char : Char → String
  quote_char c =
      let n = code c in
      if nat_eq n b'"'
      then "\\\""
      else if nat_eq n 92
      then "\\\\"
      else if (leb 32 n && leb n 126) || (leb 128 n && ext.is_print n)
      then String.◌∷◌ c String.[]
      else if nat_eq n 7
      then "\\a"
      else if nat_eq n 8
      then "\\b"
      else if nat_eq n 12
      then "\\f"
      else if nat_eq n 10
      then "\\n"
      else if nat_eq n 13
      then "\\r"
      else if nat_eq n 9
      then "\\t"
      else if nat_eq n 11
      then "\\v"
      else if ltb n 32 || nat_eq n 127
      then "\\x" ++ hex 2 n
      else if ltb n 0x10000
      then "\\u" ++ hex 4 n
      else "\\U" ++ hex 8 n

  quote_chars : String → String
  unfolding quote_char
  quote_chars String.[] = "\""
  quote_chars (String.◌∷◌ c s) = quote_char c ++ quote_chars s

  unfoldable pub encode_pair_value_for_velero_path : String → String → String
  unfolding quote_chars
  encode_pair_value_for_velero_path path raw_value =
      if path_uses_string_preserving_metadata_map path
      then "\"" ++ quote_chars raw_value
      else raw_value
