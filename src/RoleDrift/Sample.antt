-- ===== src/RoleDrift/Sample.antt =====
-- internal/controller/disasterinstance/role_drift.go, `sampleClusterReplicaRole`: what the sample of a
-- cluster is in terms of the workloads that the cluster lists.
use testudo_operator.Base.{
  ℕ, suc, ◌+◌, ◌%◌, String, true, false, ◌≡◌, refl, sym, ap, ◌∙◌, Option, none, some, List, [], ◌∷◌,
  ◌++◌, ltb, if◌then◌else◌, length, arith, ◌⊎◌, ◌<◌, Bool-cases, inl, inr, subst,
}
use testudo_operator.RoleDrift.{
  SampledClusterRole, active, standby, unknown, ClusterReplicaSample, Api, is_positive, replicas_of,
  add_workload, add_workloads, Sampled, add_listed, sample_namespaces, classify, classified,
  empty_sample, namespace_scopes, sample_cluster_replica_role,
}

abbrev pub joined : Option (List (Option ℕ)) → Option (List (Option ℕ)) → Option (List (Option ℕ))
joined none ys = none
joined (some xs) none = none
joined (some xs) (some ys) = some (xs ++ ys)

-- The workloads of the namespaces, `none` if one of the requests fails.
unfoldable pub listed : Api → String → List String → Option (List (Option ℕ))
listed api cluster [] = some []
listed api cluster (n ∷ ns) =
    if api.selector_compiles
    then joined (api.deployments cluster n)
        (joined (api.stateful_sets cluster n) (listed api cluster ns))
    else none

-- How many of the workloads want a replica, and how many replicas are wanted together.
unfoldable pub running : List (Option ℕ) → ℕ
running [] = 0
running (r ∷ rs) = if is_positive (replicas_of r) then suc (running rs) else running rs

unfoldable pub stopped : List (Option ℕ) → ℕ
stopped [] = 0
stopped (r ∷ rs) = if is_positive (replicas_of r) then stopped rs else suc (stopped rs)

unfoldable pub wanted : List (Option ℕ) → ℕ
wanted [] = 0
wanted (r ∷ rs) = replicas_of r + wanted rs

-- A cluster is active if a workload of it runs, and standby if it has workloads and none runs.
unfoldable pub role_of : List (Option ℕ) → SampledClusterRole
unfolding running
role_of [] = unknown
role_of (r ∷ rs) = if ltb 0 (running (r ∷ rs)) then active else standby

unfoldable pub summary : String → List (Option ℕ) → ClusterReplicaSample
unfolding role_of
summary cluster rs = record {
  cluster_name = cluster;
  role = role_of rs;
  workload_count = length rs;
  non_zero_replica_workload_count = running rs;
  zero_replica_workload_count = stopped rs;
  desired_replicas_total = wanted rs % 4294967296;
}

abbrev counted : String → SampledClusterRole → ℕ → ℕ → ℕ → ℕ → ClusterReplicaSample
counted c role' w n z t = record {
  cluster_name = c;
  role = role';
  workload_count = w;
  non_zero_replica_workload_count = n;
  zero_replica_workload_count = z;
  desired_replicas_total = t;
}

add_workloads-append :
    (s : ClusterReplicaSample) (xs ys : List (Option ℕ))
    → add_workloads s (xs ++ ys) ≡ add_workloads (add_workloads s xs) ys
unfolding add_workloads
add_workloads-append s [] ys = refl
add_workloads-append s (x ∷ xs) ys = add_workloads-append (add_workload s (replicas_of x)) xs ys

-- A list that is read and the rest of the loop.
add_listed-listed :
    (o rest : Option (List (Option ℕ))) (s : ClusterReplicaSample)
    (next : ClusterReplicaSample → Sampled)
    → ((t : ClusterReplicaSample) (rs : List (Option ℕ))
        → rest ≡ some rs
        → next t ≡ (add_workloads t rs, false))
    → (rs : List (Option ℕ)) → joined o rest ≡ some rs
    → add_listed o s next ≡ (add_workloads s rs, false)
add_listed-listed none rest s next k rs h = cc
add_listed-listed (some xs) none s next k rs h = cc
add_listed-listed (some xs) (some ys) s next k rs h =
    let e : rs ≡ xs ++ ys = cc in
    k (add_workloads s xs) ys refl
    ∙ ap (λ t. (t, false)) (sym (add_workloads-append s xs ys) ∙ ap (add_workloads s) (sym e))

add_listed-failed :
    (o rest : Option (List (Option ℕ))) (s : ClusterReplicaSample)
    (next : ClusterReplicaSample → Sampled)
    → ((t : ClusterReplicaSample) → rest ≡ none → (next t).1 ≡ true)
    → joined o rest ≡ none
    → (add_listed o s next).1 ≡ true
add_listed-failed none rest s next k h = refl
add_listed-failed (some xs) none s next k h = k (add_workloads s xs) refl
add_listed-failed (some xs) (some ys) s next k h = cc

classified-failed : (s : Sampled) → s.1 ≡ true → (classified s).1 ≡ true
classified-failed (s, true) h = refl
classified-failed (s, false) h = h

module _ (api : Api) (cluster : String) where
  sample_namespaces-listed :
      (ns : List String) (s : ClusterReplicaSample) (rs : List (Option ℕ))
      → listed api cluster ns ≡ some rs
      → sample_namespaces api cluster ns s ≡ (add_workloads s rs, false)
  unfolding sample_namespaces listed add_workloads
  sample_namespaces-listed [] s [] h = refl
  sample_namespaces-listed [] s (r ∷ rs) h = cc
  sample_namespaces-listed (n ∷ ns) s rs h = elim (Bool-cases api.selector_compiles) [
    | inl e ↦ rw e (
        add_listed-listed _ _ s _
          (λ t qs k. add_listed-listed _ _ t _ (λ u ps j. sample_namespaces-listed ns u ps j) qs k)
          rs
          (subst
            (λ b.
              (if b
                then joined (api.deployments cluster n)
                    (joined (api.stateful_sets cluster n) (listed api cluster ns))
                else none)
              ≡ some rs)
            e h))
    | inr e ↦ ground arith
  ]

  sample_namespaces-failed :
      (ns : List String) (s : ClusterReplicaSample)
      → listed api cluster ns ≡ none
      → (sample_namespaces api cluster ns s).1 ≡ true
  unfolding sample_namespaces listed
  sample_namespaces-failed [] s h = cc
  sample_namespaces-failed (n ∷ ns) s h = elim (Bool-cases api.selector_compiles) [
    | inl e ↦ rw e (
        add_listed-failed _ _ s _
          (λ t k. add_listed-failed _ _ t _ (λ u j. sample_namespaces-failed ns u j) k)
          (subst
            (λ b.
              (if b
                then joined (api.deployments cluster n)
                    (joined (api.stateful_sets cluster n) (listed api cluster ns))
                else none)
              ≡ none)
            e h))
    | inr e ↦ rw e refl
  ]

same_counts :
    (c : String) (role' : SampledClusterRole) {w w' n n' z z' t t' : ℕ}
    → w ≡ w'
    → n ≡ n'
    → z ≡ z'
    → t ≡ t'
    → counted c role' w n z t ≡ counted c role' w' n' z' t'
same_counts c role' p q r u = λ i. counted c role' (p i) (q i) (r i) (u i)

-- The sample after some workloads.
add_workloads-counts :
    (c : String) (role' : SampledClusterRole) (w n z t : ℕ) (rs : List (Option ℕ))
    → t < 4294967296
    → add_workloads (counted c role' w n z t) rs
      ≡ counted c role'
          (w + length rs)
          (n + running rs)
          (z + stopped rs)
          ((t + wanted rs) % 4294967296)
unfolding add_workloads add_workload running stopped wanted
add_workloads-counts c role' w n z t [] h =
    same_counts c role' (omega arith) (omega arith) (omega arith) (omega (arith, h))
add_workloads-counts c role' w n z t (r ∷ rs) h = elim (Bool-cases (is_positive (replicas_of r))) [
  | inl e ↦ rw e (
      add_workloads-counts c role' (w + 1) (n + 1) z ((t + replicas_of r) % 4294967296) rs
        (omega arith)
      ∙ same_counts c role' (omega arith) (omega arith) (omega arith) (omega arith))
  | inr e ↦ rw e (
      add_workloads-counts c role' (w + 1) n (z + 1) ((t + replicas_of r) % 4294967296) rs
        (omega arith)
      ∙ same_counts c role' (omega arith) (omega arith) (omega arith) (omega arith))
]

classify-summary :
    (c : String) (rs : List (Option ℕ))
    → classify (counted c unknown (length rs) (running rs) (stopped rs) (wanted rs % 4294967296))
      ≡ summary c rs
unfolding summary role_of
classify-summary c [] = refl
classify-summary c (r ∷ rs) = ground arith

add_workloads-empty_sample :
    (c : String) (rs : List (Option ℕ))
    → add_workloads (empty_sample c) rs
      ≡ counted c unknown (length rs) (running rs) (stopped rs) (wanted rs % 4294967296)
add_workloads-empty_sample c rs =
    add_workloads-counts c unknown 0 0 0 0 rs (omega arith)
    ∙ same_counts c unknown (omega arith) (omega arith) (omega arith) (omega arith)

-- When a client for the cluster can be had and all lists of all namespaces in scope can be read, the
-- sample is the one that the listed workloads have by their numbers alone: all of them, those with a
-- positive number of replicas, the others, the sum modulo 2 ^ 32, and the role: active with a running
-- workload, standby with workloads but no running one, and unknown without workloads.
pub sample_cluster_replica_role-summary :
    (api : Api) (namespaces : List String) (cluster : String) (rs : List (Option ℕ))
    → api.has_client cluster ≡ true
    → listed api cluster (namespace_scopes namespaces) ≡ some rs
    → sample_cluster_replica_role api namespaces cluster ≡ (summary cluster rs, false)
unfolding sample_cluster_replica_role
sample_cluster_replica_role-summary api namespaces cluster rs hc hl =
    rw
      (
        hc,
        sample_namespaces-listed api cluster (namespace_scopes namespaces) (empty_sample cluster) rs
            hl,
        add_workloads-empty_sample cluster rs,
      )
      (ap (λ s. (s, false)) (classify-summary cluster rs))

-- Without a client or without one of the lists the sampling fails.
pub sample_cluster_replica_role-failed :
    (api : Api) (namespaces : List String) (cluster : String)
    → (api.has_client cluster ≡ false) ⊎ (listed api cluster (namespace_scopes namespaces) ≡ none)
    → (sample_cluster_replica_role api namespaces cluster).1 ≡ true
unfolding sample_cluster_replica_role
sample_cluster_replica_role-failed api namespaces cluster (inl h) = rw h refl
sample_cluster_replica_role-failed api namespaces cluster (inr h) =
    let e =
      sample_namespaces-failed api cluster (namespace_scopes namespaces) (empty_sample cluster) h in
    ground (
      arith,
      classified-failed
          (sample_namespaces api cluster (namespace_scopes namespaces) (empty_sample cluster)) e,
    )
