-- ===== src/ImageMapping/Tests.antt =====
-- Runs of the image mapping.
use testudo_operator.Base.{All, String, ◌≡◌, ◌↔◌, refl, true, false, some, List, [], ◌∷◌, ◌⊎◌}
use testudo_operator.Base.Outcome.{ok}
use testudo_operator.Base.Text.{apart, trim_space, trim_suffix, strip_prefix, has_prefix}
use testudo_operator.Base.Assoc.{lookup, insert, has_key}
use testudo_operator.ImageMapping.Registry.{
  RegistryMapping, normalize_registry, matches, best_mapping, rewrite_image,
}
use testudo_operator.ImageMapping.Rewrite.{
  Rewritten, target_of, rewrite_image-longest, rewrite_image-unmatched,
}
use testudo_operator.ImageMapping.Roundtrip.{exchanged, rewrite_image-roundtrip}
use testudo_operator.ImageMapping.Resolve.{
  fail, keep, SourceCluster, ConfiguredPair, ImageRewriteConfig, build_registry_alias_map,
  resolve_registry_mappings,
}
use testudo_operator.ImageMapping.Resolve.Sound.{ResolvedFor, resolve_registry_mappings_sound}
use testudo_operator.ImageMapping.Workloads.{Workload, build_rules_from_workloads}
use testudo_operator.ImageMapping.Workloads.Unmatched.{
  AllCovered, build_rules_from_workloads-unmatched,
}

abbrev hub : RegistryMapping
hub = record {
  source_alias = "hub";
  source_registry = "reg.io/";
  target_alias = "far";
  target_registry = "far.io/m";
}

abbrev team : RegistryMapping
team = record {
  source_alias = "team";
  source_registry = "reg.io/team";
  target_alias = "near";
  target_registry = "near.io/";
}

rewrite_image-longest_example : Rewritten "reg.io/team/app:1" "near.io/app:1" (hub ∷ team ∷ [])
unfolding rewrite_image best_mapping matches normalize_registry trim_space trim_suffix strip_prefix
    has_prefix
rewrite_image-longest_example =
    rewrite_image-longest "reg.io/team/app:1" "near.io/app:1" (hub ∷ team ∷ []) refl

abbrev foreign : String
foreign = "reg.iox/app"

rewrite_image-unmatched_example :
    (foreign ≡ foreign)
    × ((trim_space foreign ≡ "")
        ⊎ All (λ m. matches (trim_space foreign) m ≡ false) (hub ∷ team ∷ []))
unfolding rewrite_image best_mapping matches normalize_registry trim_space trim_suffix strip_prefix
    has_prefix
rewrite_image-unmatched_example = rewrite_image-unmatched foreign foreign (hub ∷ team ∷ []) refl

rewrite_image-roundtrip_example :
    rewrite_image "far.io/m/app:1" (exchanged hub ∷ []) ≡ (trim_space " reg.io/app:1", true)
unfolding rewrite_image best_mapping matches normalize_registry trim_space trim_suffix strip_prefix
    has_prefix
rewrite_image-roundtrip_example =
    rewrite_image-roundtrip " reg.io/app:1" "far.io/m/app:1" hub refl
      (apart (target_of hub) "" refl) refl

abbrev east : SourceCluster
east = record { name = "east"; image_sources = record { name = "hub"; registry = "reg.io" } ∷ [] }

abbrev west : SourceCluster
west = record { name = "west"; image_sources = record { name = "far"; registry = "far.io/m" } ∷ [] }

abbrev hub_to_far : ConfiguredPair
hub_to_far = record { source_image_source = "hub"; target_image_source = "far" }

abbrev config : ImageRewriteConfig
config = record {
  enabled = true;
  apply_to = [];
  unmatched_policy = "Keep";
  mappings = hub_to_far ∷ [];
}

abbrev resolved : List RegistryMapping
resolved =
    record {
      source_alias = "hub";
      source_registry = "reg.io";
      target_alias = "far";
      target_registry = "far.io/m";
    }
    ∷ []

resolution :
    resolve_registry_mappings (some east) (some west) (some config) "Drill"
    ≡ (keep, ok (true, resolved))
unfolding resolve_registry_mappings build_registry_alias_map lookup insert has_key trim_space
    normalize_registry trim_suffix
resolution = refl

resolve_registry_mappings_sound_example :
    ResolvedFor (some east) (some west) (hub_to_far ∷ []) (true, resolved)
resolve_registry_mappings_sound_example =
    resolve_registry_mappings_sound (some east) (some west) config "Drill" keep (true, resolved)
      resolution

abbrev web : Workload
web = record {
  namespace = "shop";
  name = "web";
  containers = "reg.io/app:1" ∷ "other.io/log" ∷ [];
  init_containers = [];
}

build_rules_from_workloads-unmatched_example :
    ((build_rules_from_workloads (web ∷ []) [] (hub ∷ []) fail).1 ≡ [])
    ↔ (AllCovered (hub ∷ []) (web ∷ []) × AllCovered (hub ∷ []) [])
build_rules_from_workloads-unmatched_example =
    build_rules_from_workloads-unmatched (web ∷ []) [] (hub ∷ [])
