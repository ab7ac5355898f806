-- ===== src/ImageMapping/Workloads.antt =====
-- internal/controller/imagemapping/imagemapping.go: `BuildRulesFromWorkloads` and
-- `buildWorkloadImagePatches`.
pub mod Unmatched
use Prim.Native.Char.{Char, code}
use Prim.Native.String.{char_at}
use testudo_operator.Base.{
  ℕ, ◌+◌, decimal, String, ◌≡◌, refl, Bool, true, false, not, ◌||◌, Option, none, List, [], ◌∷◌,
  ◌++◌, ◌==◌, nat_eq, is_empty, if◌then◌else◌,
}
use testudo_operator.Base.Assoc.{Assoc, insert}
use testudo_operator.Base.Sort.{sort_stable}
use testudo_operator.Base.Text.{trim_space, join, text_lt}
use testudo_operator.Restore.Types.{JsonPatch, Conditions, ResourceModifierRule}
use testudo_operator.ImageMapping.Registry.{RegistryMapping, rewrite_image}
use testudo_operator.ImageMapping.Resolve.{UnmatchedPolicy, fail, keep}

-- What is read of a Deployment or a StatefulSet: the images of its containers, by kind.
pub record Workload : Type 0 where
  pub namespace : String
  pub name : String
  pub containers : List String
  pub init_containers : List String

-- The variables that the closure `appendPatches` writes: the patches, and the set of unmatched keys.
pub record PatchState : Type 0 where
  pub patches : List JsonPatch
  pub unmatched : Assoc (Unit {0})

backslash : Char
backslash = char_at "\\" 0

quote_meta_char : ℕ → Bool
quote_meta_char c =
    nat_eq c 92
    || nat_eq c b'.'
    || nat_eq c b'+'
    || nat_eq c b'*'
    || nat_eq c b'?'
    || nat_eq c b'('
    || nat_eq c b')'
    || nat_eq c b'|'
    || nat_eq c b'['
    || nat_eq c b']'
    || nat_eq c b'{'
    || nat_eq c b'}'
    || nat_eq c b'^'
    || nat_eq c b'$'

-- `regexp.QuoteMeta`.
quote_meta : String → String
unfolding backslash quote_meta_char
quote_meta String.[] = String.[]
quote_meta (String.◌∷◌ c s) =
    let rest = quote_meta s in
    if quote_meta_char (code c) then String.◌∷◌ backslash (String.◌∷◌ c rest) else String.◌∷◌ c rest

exact_resource_regex : String → String
unfolding quote_meta
exact_resource_regex name = join "" ("^" ∷ quote_meta name ∷ "$" ∷ [])

pub image_patch : String → ℕ → String → JsonPatch
image_patch path_prefix idx rewritten = record {
  operation = "replace";
  path = join "" (path_prefix ∷ "/" ∷ decimal idx ∷ "/image" ∷ []);
  value = rewritten;
  from = "";
}

pub unmatched_key : String → String → String → ℕ → String → String
unmatched_key namespace name kind idx original =
    join "" (namespace ∷ "/" ∷ name ∷ " " ∷ kind ∷ "[" ∷ decimal idx ∷ "]=" ∷ original ∷ [])

module _ (namespace name : String) (mappings : List RegistryMapping) (policy : UnmatchedPolicy)
    (kind path_prefix : String) where
  -- The body of the loop at an image that is not blank.
  patch_image : ℕ → String → String × Bool → PatchState → PatchState
  patch_image idx original (rewritten, true) st =
      if rewritten == original
      then st
      else record st { patches = st.patches ++ image_patch path_prefix idx rewritten ∷ [] }
  patch_image idx original (rewritten, false) st = elim policy [
    | fail ↦ record st {
      unmatched = insert (unmatched_key namespace name kind idx original) tt st.unmatched;
    }
    | keep ↦ st
  ]

  -- The body of the loop.
  visit_image : ℕ → String → PatchState → PatchState
  unfolding patch_image
  visit_image idx image st =
      let original = trim_space image in
      if original == "" then st else patch_image idx original (rewrite_image original mappings) st

  append_patches : ℕ → List String → PatchState → PatchState
  unfolding visit_image
  append_patches idx [] st = st
  append_patches idx (image ∷ images) st =
      append_patches (idx + 1) images (visit_image idx image st)

build_workload_image_patches :
    Workload → List RegistryMapping → UnmatchedPolicy → Assoc (Unit {0}) → PatchState
unfolding append_patches
build_workload_image_patches workload mappings policy unmatched =
    append_patches workload.namespace workload.name mappings policy "initContainers"
      "/spec/template/spec/initContainers" 0 workload.init_containers
      (append_patches workload.namespace workload.name mappings policy "containers"
        "/spec/template/spec/containers" 0 workload.containers
        (record { patches = []; unmatched = unmatched }))

-- The rules so far, and the set of unmatched keys.
pub record RuleState : Type 0 where
  pub rules : List ResourceModifierRule
  pub unmatched : Assoc (Unit {0})

module _ (group_resource : String) (mappings : List RegistryMapping)
    (policy : UnmatchedPolicy) where
  -- One of the two loops, over the workloads of one kind.
  add_workloads : List Workload → RuleState → RuleState
  unfolding build_workload_image_patches exact_resource_regex
  add_workloads [] st = st
  add_workloads (workload ∷ workloads) st =
      let built = build_workload_image_patches workload mappings policy st.unmatched in
      add_workloads workloads (record {
        rules =
            if is_empty built.patches
            then st.rules
            else st.rules
              ++ record {
                conditions = record {
                  group_resource = group_resource;
                  resource_name_regex = exact_resource_regex workload.name;
                  namespaces = [];
                  label_selector = none;
                };
                patches = built.patches;
              }
                ∷ [];
        unmatched = built.unmatched;
      })

abbrev pub keys : Assoc (Unit {0}) → List String
keys [] = []
keys ((k, u) ∷ m) = k ∷ keys m

unfoldable pub build_rules_from_workloads :
    List Workload
    → List Workload
    → List RegistryMapping
    → UnmatchedPolicy
    → List ResourceModifierRule × List String
unfolding add_workloads
build_rules_from_workloads deployments stateful_sets mappings policy =
    let built = add_workloads "statefulsets.apps" mappings policy stateful_sets (
      add_workloads "deployments.apps" mappings policy deployments
        (record { rules = []; unmatched = [] })) in
    (built.rules, sort_stable text_lt (keys built.unmatched))
