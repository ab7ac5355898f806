-- ===== src/ImageMapping/Registry.antt =====
-- internal/controller/imagemapping/imagemapping.go: `RewriteImage` and `normalizeRegistry`.
use Prim.Native.String.{len, ◌++◌}
use testudo_operator.Base.{
  String, ◌≡◌, refl, Bool, true, false, ◌||◌, Option, none, some, List, [], ◌∷◌, ◌==◌, ltb,
  if◌then◌else◌,
}
use testudo_operator.Base.Text.{trim_space, trim_suffix, strip_prefix, has_prefix}

pub record RegistryMapping : Type 0 where
  pub source_alias : String
  pub source_registry : String
  pub target_alias : String
  pub target_registry : String

unfoldable pub normalize_registry : String → String
normalize_registry registry = trim_suffix (trim_space registry) "/"

-- The test of the loop: the image is the registry, or stands below it.
unfoldable pub matches : String → RegistryMapping → Bool
matches current mapping =
    let source = normalize_registry mapping.source_registry in
    if source == "" then false else current == source || has_prefix current (source ++ "/")

-- `len(source) > bestPrefixLen`, which starts at -1.
abbrev pub longer : RegistryMapping → Option RegistryMapping → Bool
longer mapping none = true
longer mapping (some best) =
    ltb (len (normalize_registry best.source_registry))
      (len (normalize_registry mapping.source_registry))

-- The loop over the mappings; the index of the best one is the mapping itself.
unfoldable pub best_mapping :
    String → Option RegistryMapping → List RegistryMapping → Option RegistryMapping
best_mapping current best [] = best
best_mapping current best (mapping ∷ mappings) =
    best_mapping current
      (if matches current mapping
        then (if longer mapping best then some mapping else best)
        else best)
      mappings

-- `strings.TrimPrefix`.
abbrev pub trim_prefix : String → String → String
trim_prefix s t = elim (strip_prefix s t) [ none ↦ s | some rest ↦ rest ]

abbrev pub rewritten_by : String → RegistryMapping → String
rewritten_by current mapping =
    let source = normalize_registry mapping.source_registry in
    let target = normalize_registry mapping.target_registry in
    if current == source then target else target ++ trim_prefix current source

-- The returned image, and whether it was rewritten.
abbrev pub outcome : String → Option RegistryMapping → String × Bool
outcome image none = (image, false)
outcome image (some mapping) = (rewritten_by (trim_space image) mapping, true)

unfoldable pub rewrite_image : String → List RegistryMapping → String × Bool
rewrite_image image mappings =
    let current = trim_space image in
    if current == "" then (image, false) else outcome image (best_mapping current none mappings)

abbrev hub : RegistryMapping
hub = record {
  source_alias = "hub";
  source_registry = "reg.io/";
  target_alias = "far";
  target_registry = "far.io/m";
}

abbrev team : RegistryMapping
team = record {
  source_alias = "team";
  source_registry = "reg.io/team";
  target_alias = "near";
  target_registry = "near.io/";
}

longest_wins : rewrite_image " reg.io/team/app:1" (hub ∷ team ∷ hub ∷ []) ≡ ("near.io/app:1", true)
unfolding rewrite_image best_mapping matches normalize_registry trim_space trim_suffix strip_prefix
    has_prefix
longest_wins = refl

no_partial_match : rewrite_image "reg.iox/app" (hub ∷ team ∷ []) ≡ ("reg.iox/app", false)
unfolding rewrite_image best_mapping matches normalize_registry trim_space trim_suffix strip_prefix
    has_prefix
no_partial_match = refl
