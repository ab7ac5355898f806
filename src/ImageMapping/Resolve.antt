-- ===== src/ImageMapping/Resolve.antt =====
-- internal/controller/imagemapping/imagemapping.go: `ResolveRegistryMappings` and
-- `buildRegistryAliasMap`.
pub mod Sound
use testudo_operator.Base.{
  ℕ, String, ◌≡◌, ◌≢◌, refl, sym, ap, ◌∙◌, ◌⊎◌, inl, inr, Bool, true, false, ◌||◌, Option, none,
  some, List, [], ◌∷◌, ◌==◌, eq_iff, arith, In, length, is_empty, Bool-cases, Option-cases,
  if◌then◌else◌,
}
use testudo_operator.Base.Outcome.{Outcome, ok, err, ◌>>=◌}
use testudo_operator.Base.Assoc.{Assoc, lookup, insert, has_key, lookup-insert_cases}
use testudo_operator.Base.Text.{trim_space}
use testudo_operator.ImageMapping.Registry.{RegistryMapping, normalize_registry}

pub data UnmatchedPolicy : Type 0 where
  fail keep : UnmatchedPolicy

pub record ImageSource : Type 0 where
  pub name : String
  pub registry : String

-- What is read of a `Cluster`.
pub record SourceCluster : Type 0 where
  pub name : String
  pub image_sources : List ImageSource

pub record ConfiguredPair : Type 0 where
  pub source_image_source : String
  pub target_image_source : String

pub record ImageRewriteConfig : Type 0 where
  pub enabled : Bool
  pub apply_to : List String
  pub unmatched_policy : String
  pub mappings : List ConfiguredPair

pub data ResolveError : Type 0 where
  mappings_empty cluster_missing alias_blank pair_not_found : ResolveError
  alias_duplicate source_duplicate : String → ResolveError

abbrev pub Resolved : Type 0 → Type 0
Resolved = Outcome ResolveError

-- The loop of `buildRegistryAliasMap` over the sources, with the map that it fills.
add_aliases : Assoc String → List ImageSource → Resolved (Assoc String)
add_aliases aliases [] = ok aliases
add_aliases aliases (source ∷ sources) =
    let alias = trim_space source.name in
    let registry = normalize_registry source.registry in
    let skipped = add_aliases aliases sources in
    let added = add_aliases (insert alias registry aliases) sources in
    if alias == "" || registry == ""
    then skipped
    else if has_key alias aliases
    then err (alias_duplicate alias)
    else added

unfoldable pub build_registry_alias_map : List ImageSource → Resolved (Assoc String)
unfolding add_aliases
build_registry_alias_map sources = add_aliases [] sources

-- The pair in the configured direction, or else the exchanged pair.
choose :
    Assoc String
    → Assoc String
    → String
    → String
    → Option String
    → Option String
    → Resolved RegistryMapping
choose source_map target_map source_alias target_alias (some source) (some target) = ok (record {
  source_alias = source_alias;
  source_registry = source;
  target_alias = target_alias;
  target_registry = target;
})
choose source_map target_map source_alias target_alias s t = elim (lookup target_alias source_map) [
  | none ↦ err pair_not_found
  | some source ↦ elim (lookup source_alias target_map) [
    | none ↦ err pair_not_found
    | some target ↦ ok (record {
      source_alias = target_alias;
      source_registry = source;
      target_alias = source_alias;
      target_registry = target;
    })
  ]
]

-- The loop over the configured pairs; `seen` is the set `seenSourceAlias`.
resolve_pairs :
    Assoc String
    → Assoc String
    → Assoc (Unit {0})
    → List ConfiguredPair
    → Resolved (List RegistryMapping)
unfolding choose
resolve_pairs source_map target_map seen [] = ok []
resolve_pairs source_map target_map seen (item ∷ items) =
    let source_alias = trim_space item.source_image_source in
    let target_alias = trim_space item.target_image_source in
    let rest = resolve_pairs source_map target_map (insert source_alias tt seen) items in
    if source_alias == "" || target_alias == ""
    then err alias_blank
    else if has_key source_alias seen
    then err (source_duplicate source_alias)
    else choose source_map target_map source_alias target_alias (lookup source_alias source_map)
        (lookup target_alias target_map)
      >>= λ mapping. rest >>= λ mappings. ok (mapping ∷ mappings)

has_target : List String → String → Bool
has_target [] target = false
has_target (t ∷ ts) target = if t == target then true else has_target ts target

resolve_clusters :
    Option SourceCluster
    → Option SourceCluster
    → List ConfiguredPair
    → Resolved (Bool × List RegistryMapping)
unfolding build_registry_alias_map resolve_pairs
resolve_clusters (some source) (some target) mappings =
    build_registry_alias_map source.image_sources >>= λ source_map.
    build_registry_alias_map target.image_sources >>= λ target_map.
    resolve_pairs source_map target_map [] mappings >>= λ result. ok (true, result)
resolve_clusters source target mappings = err cluster_missing

resolve_config :
    Option SourceCluster
    → Option SourceCluster
    → ImageRewriteConfig
    → String
    → Resolved (Bool × List RegistryMapping)
unfolding has_target resolve_clusters
resolve_config source target cfg apply_target =
    if cfg.enabled
    then (if is_empty cfg.apply_to || has_target cfg.apply_to apply_target
        then (if is_empty cfg.mappings
            then err mappings_empty
            else resolve_clusters source target cfg.mappings)
        else ok (false, []))
    else ok (false, [])

abbrev policy_of : ImageRewriteConfig → UnmatchedPolicy
policy_of cfg = if cfg.unmatched_policy == "Keep" then keep else fail

-- The policy, and either an error or whether the rewrite is on, with its mappings.
unfoldable pub resolve_registry_mappings :
    Option SourceCluster
    → Option SourceCluster
    → Option ImageRewriteConfig
    → String
    → UnmatchedPolicy × Resolved (Bool × List RegistryMapping)
unfolding resolve_config
resolve_registry_mappings source target none apply_target = (fail, ok (false, []))
resolve_registry_mappings source target (some cfg) apply_target =
    (policy_of cfg, resolve_config source target cfg apply_target)
