-- ===== src/ImageMapping/Workloads/Unmatched.antt =====
-- Under the policy `Fail`, `BuildRulesFromWorkloads` reports an image exactly if none of the mappings
-- fits it.
use testudo_operator.Base.{
  ℕ, ◌+◌, String, ◌≡◌, ◌≢◌, refl, subst, ◌⊎◌, inl, inr, ◌↔◌, Bool, true, false, List, [], ◌∷◌, ◌==◌,
  eq_iff, arith, All, In, Bool-cases,
}
use testudo_operator.Base.Assoc.{Assoc, insert}
use testudo_operator.Base.Sort.{sort_stable, In-sort_stable}
use testudo_operator.Base.Text.{trim_space, text_lt}
use testudo_operator.ImageMapping.Registry.{RegistryMapping, rewrite_image}
use testudo_operator.ImageMapping.Resolve.{fail}
use testudo_operator.ImageMapping.Workloads.{
  Workload, PatchState, RuleState, patch_image, visit_image, append_patches, unmatched_key,
  build_workload_image_patches, add_workloads, keys, build_rules_from_workloads,
}

-- The image is blank, or one of the mappings fits it.
abbrev pub IsCovered : List RegistryMapping → String → Type 0
IsCovered mappings image =
    (trim_space image ≡ "") ⊎ ((rewrite_image (trim_space image) mappings).1 ≡ true)

abbrev pub AllCovered : List RegistryMapping → List Workload → Type 0
AllCovered mappings workloads =
    All (λ w. All (IsCovered mappings) w.containers × All (IsCovered mappings) w.init_containers)
      workloads

insert-ne-nil : (k : String) (m : Assoc (Unit {0})) → insert k tt m ≢ []
unfolding insert
insert-ne-nil k [] e = cc
insert-ne-nil k ((j, u) ∷ m) e = ground arith

module _ (namespace name : String) (mappings : List RegistryMapping)
    (kind path_prefix : String) where
  round_iff :
      (idx : ℕ) (original : String) (r : String × Bool) (st : PatchState)
      → ((patch_image namespace name mappings fail kind path_prefix idx original r st).unmatched
          ≡ [])
        ↔ ((st.unmatched ≡ []) × (r.1 ≡ true))
  unfolding patch_image
  round_iff idx original (rewritten, true) st = elim (Bool-cases (rewritten == original)) [
    | inl same ↦ rw same ((λ h. (h, refl)), (λ h. h.0))
    | inr other ↦ rw other ((λ h. (h, refl)), (λ h. h.0))
  ]
  round_iff idx original (rewritten, false) st = (
    (λ h. absurd (insert-ne-nil (unmatched_key namespace name kind idx original) st.unmatched h)),
    (λ h. cc (h.1)),
  )

  visit_iff :
      (idx : ℕ) (image : String) (st : PatchState)
      → ((visit_image namespace name mappings fail kind path_prefix idx image st).unmatched ≡ [])
        ↔ ((st.unmatched ≡ []) × IsCovered mappings image)
  unfolding visit_image
  visit_iff idx image st = elim (Bool-cases (trim_space image == "")) [
    | inl blank ↦
        rw (blank, visit_image)
          ((λ h. (h, inl ((eq_iff (trim_space image) "").0 blank))), (λ h. h.0))
    | inr named ↦
        let r = rewrite_image (trim_space image) mappings in
        let (into, back) = round_iff idx (trim_space image) r st in
        rw (named, visit_image)
          (
            (λ h. let (a, b) = into h in (a, inr b)),
            (λ h. back (
              h.0,
              (elim (h.1) [
                | inl blank ↦ ground (arith, eq_iff (trim_space image) "")
                | inr fits ↦ fits
              ]),
            )),
          )
  ]

  append_patches_iff :
      (idx : ℕ) (images : List String) (st : PatchState)
      → ((append_patches namespace name mappings fail kind path_prefix idx images st).unmatched
          ≡ [])
        ↔ ((st.unmatched ≡ []) × All (IsCovered mappings) images)
  unfolding append_patches
  append_patches_iff idx [] st = ((λ h. (h, tt)), (λ h. h.0))
  append_patches_iff idx (image ∷ images) st =
      let next = visit_image namespace name mappings fail kind path_prefix idx image st in
      let (into, back) = append_patches_iff (idx + 1) images next in
      let (first, last) = visit_iff idx image st in
      (
        (λ h. let (a, b) = into h in let (c, d) = first a in (c, (d, b))),
        (λ h. back (last (h.0, h.1.0), h.1.1)),
      )

module _ (mappings : List RegistryMapping) where
  build_iff :
      (w : Workload) (unmatched : Assoc (Unit {0}))
      → ((build_workload_image_patches w mappings fail unmatched).unmatched ≡ []) ↔ (
          (unmatched ≡ [])
          × All (IsCovered mappings) w.containers
          × All (IsCovered mappings) w.init_containers)
  unfolding build_workload_image_patches
  build_iff w unmatched =
      let start : PatchState = record { patches = []; unmatched = unmatched } in
      let (into, back) =
        append_patches_iff w.namespace w.name mappings "containers" "/spec/template/spec/containers"
          0 w.containers start in
      let middle =
        append_patches w.namespace w.name mappings fail "containers"
          "/spec/template/spec/containers" 0 w.containers start in
      let (into', back') =
        append_patches_iff w.namespace w.name mappings "initContainers"
          "/spec/template/spec/initContainers" 0 w.init_containers middle in
      (
        (λ h. let (a, b) = into' h in let (c, d) = into a in (c, d, b)),
        (λ h. back' (back (h.0, h.1), h.2)),
      )

  add_workloads_iff :
      (group_resource : String) (workloads : List Workload) (st : RuleState)
      → ((add_workloads group_resource mappings fail workloads st).unmatched ≡ [])
        ↔ ((st.unmatched ≡ []) × AllCovered mappings workloads)
  unfolding add_workloads
  add_workloads_iff group_resource [] st = ((λ h. (h, tt)), (λ h. h.0))
  add_workloads_iff group_resource (w ∷ ws) st =
      let (into, back) = build_iff w st.unmatched in
      let (first, last) = add_workloads_iff group_resource ws _ in
      (
        (λ h. let (a, b) = first h in let (c, d, e) = into a in (c, ((d, e), b))),
        (λ h. last (back (h.0, h.1.0.0, h.1.0.1), h.1.1)),
      )

keys-nil : (m : Assoc (Unit {0})) → keys m ≡ [] → m ≡ []
keys-nil [] e = refl
keys-nil ((k, u) ∷ m) e = cc

sort_stable-nil : (xs : List String) → sort_stable text_lt xs ≡ [] → xs ≡ []
sort_stable-nil [] e = refl
sort_stable-nil (x ∷ xs) e = absurd (subst (In x) e (In-sort_stable text_lt x (x ∷ xs) (inl refl)))

-- Under the policy `Fail` no image is reported as unmatched exactly if every image of every container
-- and init container of the workloads is blank or fits one of the mappings.
pub build_rules_from_workloads-unmatched :
    (deployments stateful_sets : List Workload) (mappings : List RegistryMapping)
    → ((build_rules_from_workloads deployments stateful_sets mappings fail).1 ≡ [])
      ↔ (AllCovered mappings deployments × AllCovered mappings stateful_sets)
unfolding build_rules_from_workloads
build_rules_from_workloads-unmatched deployments stateful_sets mappings =
    let start : RuleState = record { rules = []; unmatched = [] } in
    let first = add_workloads "deployments.apps" mappings fail deployments start in
    let (into, back) = add_workloads_iff mappings "deployments.apps" deployments start in
    let (into', back') = add_workloads_iff mappings "statefulsets.apps" stateful_sets first in
    let last = add_workloads "statefulsets.apps" mappings fail stateful_sets first in
    (
      (λ h.
          let (a, b) = into' (keys-nil last.unmatched (sort_stable-nil (keys last.unmatched) h)) in
          ((into a).1, b)),
      (λ h.
          let e : last.unmatched ≡ [] = back' (back (refl, h.0), h.1) in
          rw e (unfold sort_stable in refl)),
    )
