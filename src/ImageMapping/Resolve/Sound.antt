-- ===== src/ImageMapping/Resolve/Sound.antt =====
-- The mappings that `ResolveRegistryMappings` returns come from the image sources of the clusters.
use testudo_operator.Base.{
  String, ◌≡◌, ◌≢◌, refl, sym, ap, ◌∙◌, ◌⊎◌, inl, inr, Bool, true, false, ◌||◌, Option, some, List,
  [], ◌∷◌, ◌==◌, eq_iff, arith, In, is_empty,
}
use testudo_operator.Base.Outcome.{ok, Gives, Gives-bind, Gives-ok, Gives-err, Gives-if}
use testudo_operator.Base.Assoc.{Assoc, lookup, insert, has_key, lookup-insert_cases}
use testudo_operator.Base.Text.{trim_space}
use testudo_operator.ImageMapping.Registry.{RegistryMapping, normalize_registry}
use testudo_operator.ImageMapping.Resolve.{
  ImageSource, SourceCluster, ConfiguredPair, ImageRewriteConfig, UnmatchedPolicy, add_aliases,
  build_registry_alias_map, choose, resolve_pairs, resolve_clusters, resolve_config,
  resolve_registry_mappings, has_target,
}

-- An image source with this alias and this registry, neither of them blank.
abbrev pub Names : String → String → ImageSource → Type 0
Names alias registry source =
    (trim_space source.name ≡ alias)
    × (normalize_registry source.registry ≡ registry)
    × (alias ≢ "")
    × (registry ≢ "")

abbrev pub Offers : List ImageSource → String → String → Type 0
Offers sources alias registry =
    (source : ImageSource) × In source sources × Names alias registry source

-- Every entry of the alias map comes from a source.
abbrev Backed : List ImageSource → Assoc String → Type 0
Backed sources aliases =
    (alias registry : String) → lookup alias aliases ≡ some registry → Offers sources alias registry

add_aliases-Backed :
    (all rest : List ImageSource) (aliases : Assoc String)
    → ((s : ImageSource) → In s rest → In s all)
    → Backed all aliases
    → Gives (Backed all) (add_aliases aliases rest)
unfolding add_aliases
add_aliases-Backed all [] aliases sub h = Gives-ok aliases h
add_aliases-Backed all (source ∷ rest) aliases sub h =
    let alias = trim_space source.name in
    let registry = normalize_registry source.registry in
    Gives-if (alias == "" || registry == "") _ _
      (λ blank. add_aliases-Backed all rest aliases (λ s i. sub s (inr i)) h)
      (λ named.
        Gives-if (has_key alias aliases) _ _ (λ again. Gives-err _)
          (λ new.
            add_aliases-Backed all rest (insert alias registry aliases) (λ s i. sub s (inr i))
              (λ a r f. elim (lookup-insert_cases alias a registry aliases) [
                | inl (e, g) ↦ (
                  source,
                  sub source (inl refl),
                  (
                    e,
                    cc (g, f),
                    (λ b. ground (arith, eq_iff alias "", e ∙ b)),
                    (λ b. ground (arith, eq_iff registry "", g, f, b)),
                  ),
                )
                | inr (e, g) ↦ h a r (sym g ∙ f)
              ])))

build-Backed :
    (sources : List ImageSource) → Gives (Backed sources) (build_registry_alias_map sources)
unfolding build_registry_alias_map lookup
build-Backed sources = add_aliases-Backed sources sources [] (λ s i. i) (λ a r f. cc)

-- The aliases of a mapping are those of the configured pair, in its order or exchanged.
abbrev pub Orients : ConfiguredPair → RegistryMapping → Type 0
Orients item m =
    ((m.source_alias ≡ trim_space item.source_image_source)
      × (m.target_alias ≡ trim_space item.target_image_source))
    ⊎ ((m.source_alias ≡ trim_space item.target_image_source)
        × (m.target_alias ≡ trim_space item.source_image_source))

abbrev Located : Assoc String → Assoc String → ConfiguredPair → RegistryMapping → Type 0
Located source_map target_map item m =
    (lookup m.source_alias source_map ≡ some m.source_registry)
    × (lookup m.target_alias target_map ≡ some m.target_registry)
    × Orients item m

choose-Located :
    (source_map target_map : Assoc String) (item : ConfiguredPair) (s t : Option String)
    → lookup (trim_space item.source_image_source) source_map ≡ s
    → lookup (trim_space item.target_image_source) target_map ≡ t
    → Gives (Located source_map target_map item) (
        choose source_map target_map
          (trim_space item.source_image_source)
          (trim_space item.target_image_source)
          s
          t)
unfolding choose
choose-Located source_map target_map item (some s) (some t) f g =
    Gives-ok _ (f, g, inl (refl, refl))
choose-Located source_map target_map item s t f g = record { at = λ m h. ground arith }

-- One mapping for each configured pair, in order.
abbrev Aligned :
    (ConfiguredPair → RegistryMapping → Type 0)
    → List ConfiguredPair
    → List RegistryMapping
    → Type 0
Aligned P [] [] = Unit
Aligned P [] (m ∷ ms) = ⊥
Aligned P (item ∷ items) [] = ⊥
Aligned P (item ∷ items) (m ∷ ms) = P item m × Aligned P items ms

Aligned-map :
    (P Q : ConfiguredPair → RegistryMapping → Type 0)
    → ((item : ConfiguredPair) (m : RegistryMapping) → P item m → Q item m)
    → (items : List ConfiguredPair) (ms : List RegistryMapping) → Aligned P items ms
    → Aligned Q items ms
Aligned-map P Q f [] [] h = tt
Aligned-map P Q f [] (m ∷ ms) h = h
Aligned-map P Q f (item ∷ items) [] h = h
Aligned-map P Q f (item ∷ items) (m ∷ ms) h = (f item m h.0, Aligned-map P Q f items ms h.1)

resolve_pairs-Aligned :
    (source_map target_map : Assoc String) (seen : Assoc (Unit {0})) (items : List ConfiguredPair)
    → Gives
        (Aligned (Located source_map target_map) items)
        (resolve_pairs source_map target_map seen items)
unfolding resolve_pairs
resolve_pairs-Aligned source_map target_map seen [] = Gives-ok [] tt
resolve_pairs-Aligned source_map target_map seen (item ∷ items) =
    let a = trim_space item.source_image_source in
    let b = trim_space item.target_image_source in
    Gives-if (a == "" || b == "") _ _ (λ blank. Gives-err _)
      (λ named.
        Gives-if (has_key a seen) _ _ (λ again. Gives-err _)
          (λ new.
            Gives-bind (Located source_map target_map item)
              (choose source_map target_map a b (lookup a source_map) (lookup b target_map)) _
              (choose-Located source_map target_map item (lookup a source_map) (lookup b target_map)
                refl refl)
              (λ m located.
                Gives-bind (Aligned (Located source_map target_map) items)
                  (resolve_pairs source_map target_map (insert a tt seen) items) _
                  (resolve_pairs-Aligned source_map target_map (insert a tt seen) items)
                  (λ ms h. Gives-ok (m ∷ ms) (located, h)))))

-- Both registries are those that the clusters give the aliases.
abbrev pub FromClusters : SourceCluster → SourceCluster → ConfiguredPair → RegistryMapping → Type 0
FromClusters source target item m =
    Offers source.image_sources m.source_alias m.source_registry
    × Offers target.image_sources m.target_alias m.target_registry
    × Orients item m

-- When the rewrite is on, both clusters are there and each configured pair has its mapping.
abbrev pub ResolvedFor :
    Option SourceCluster
    → Option SourceCluster
    → List ConfiguredPair
    → Bool × List RegistryMapping
    → Type 0
ResolvedFor source target items (false, ms) = ms ≡ []
ResolvedFor source target items (true, ms) =
    (s : SourceCluster) × (t : SourceCluster) × (source ≡ some s)
    × (target ≡ some t)
    × Aligned (FromClusters s t) items ms

resolve_clusters-ResolvedFor :
    (source target : Option SourceCluster) (items : List ConfiguredPair)
    → Gives (ResolvedFor source target items) (resolve_clusters source target items)
unfolding resolve_clusters
resolve_clusters-ResolvedFor (some s) (some t) items =
    Gives-bind (Backed s.image_sources) (build_registry_alias_map s.image_sources) _
      (build-Backed s.image_sources)
      (λ source_map hs.
        Gives-bind (Backed t.image_sources) (build_registry_alias_map t.image_sources) _
          (build-Backed t.image_sources)
          (λ target_map ht.
            Gives-bind (Aligned (Located source_map target_map) items)
              (resolve_pairs source_map target_map [] items) _
              (resolve_pairs-Aligned source_map target_map [] items)
              (λ ms h.
                Gives-ok (true, ms)
                  (
                    s,
                    t,
                    refl,
                    refl,
                    Aligned-map (Located source_map target_map) (FromClusters s t)
                        (λ item m l. (
                          hs m.source_alias m.source_registry l.0,
                          ht m.target_alias m.target_registry l.1,
                          l.2,
                        ))
                        items ms h,
                  ))))
resolve_clusters-ResolvedFor source target items = record { at = λ a h. cc }

-- When the resolution succeeds with the rewrite on, both clusters are there, and there is one mapping
-- for each configured pair, in order, whose aliases are those of the pair or the exchanged ones, and
-- whose registries the image sources of the source and of the target cluster give these aliases; with
-- the rewrite off there is no mapping.
pub resolve_registry_mappings_sound :
    (source target : Option SourceCluster) (cfg : ImageRewriteConfig) (apply_target : String)
    (policy : UnmatchedPolicy) (result : Bool × List RegistryMapping)
    → resolve_registry_mappings source target (some cfg) apply_target ≡ (policy, ok result)
    → ResolvedFor source target cfg.mappings result
unfolding resolve_registry_mappings resolve_config
resolve_registry_mappings_sound source target cfg apply_target policy result e =
    (Gives-if cfg.enabled _ _
        (λ on.
          Gives-if (is_empty cfg.apply_to || has_target cfg.apply_to apply_target) _ _
            (λ applies.
              Gives-if (is_empty cfg.mappings) _ _ (λ none. Gives-err _)
                (λ some_pair. resolve_clusters-ResolvedFor source target cfg.mappings))
            (λ elsewhere. Gives-ok (false, []) refl))
        (λ off. Gives-ok (false, []) refl)).at
      result (ap (λ r. r.1) e)
