-- ===== src/RoleDrift/Judged.antt =====
-- internal/controller/disasterinstance/role_drift.go: the roles of two samples, in terms of the workloads
-- that the clusters list.
use testudo_operator.Base.{
  ℕ, String, Bool, true, false, ◌≡◌, ◌≢◌, refl, Option, none, some, List, [], ◌∷◌, arith,
  Bool-cases, inl, inr, if◌then◌else◌,
}
use testudo_operator.RoleDrift.{
  SampledClusterRole, active, standby, unknown, Api, Sampled, namespace_scopes,
  sample_cluster_replica_role, judge, evaluation_of, ConditionStatus, DriftReason,
}
use testudo_operator.RoleDrift.Sample.{
  listed, running, role_of, summary, sample_cluster_replica_role-summary,
  sample_cluster_replica_role-failed,
}

-- The workloads that a cluster lists in the namespaces of the instance, `none` if they cannot be had.
unfoldable pub workloads_of : Api → List String → String → Option (List (Option ℕ))
workloads_of api namespaces cluster =
    if api.has_client cluster then listed api cluster (namespace_scopes namespaces) else none

pub sample-listed :
    (api : Api) (namespaces : List String) (cluster : String) (rs : List (Option ℕ))
    → workloads_of api namespaces cluster ≡ some rs
    → sample_cluster_replica_role api namespaces cluster ≡ (summary cluster rs, false)
unfolding workloads_of
sample-listed api namespaces cluster rs h = elim (Bool-cases (api.has_client cluster)) [
  | inl e ↦ sample_cluster_replica_role-summary api namespaces cluster rs e (ground arith)
  | inr e ↦ ground arith
]

pub sample-unlisted :
    (api : Api) (namespaces : List String) (cluster : String)
    → workloads_of api namespaces cluster ≡ none
    → (sample_cluster_replica_role api namespaces cluster).1 ≡ true
unfolding workloads_of
sample-unlisted api namespaces cluster h = elim (Bool-cases (api.has_client cluster)) [
  | inl e ↦ sample_cluster_replica_role-failed api namespaces cluster (inr (ground arith))
  | inr e ↦ sample_cluster_replica_role-failed api namespaces cluster (inl e)
]

pub role_of-standby : (rs : List (Option ℕ)) → rs ≢ [] → running rs ≡ 0 → role_of rs ≡ standby
unfolding role_of
role_of-standby [] n h = absurd (n refl)
role_of-standby (r ∷ rs) n h = rw h refl

pub role_of-standby_inv :
    (rs : List (Option ℕ)) → role_of rs ≡ standby → (rs ≢ []) × (running rs ≡ 0)
unfolding role_of
role_of-standby_inv [] h = cc
role_of-standby_inv (r ∷ rs) h = ((λ e. cc), ground arith)

pub role_of-unknown_inv : (rs : List (Option ℕ)) → role_of rs ≢ unknown → rs ≢ []
unfolding role_of
role_of-unknown_inv rs h e = h (rw e refl)

pub role_of-known : (rs : List (Option ℕ)) → rs ≢ [] → role_of rs ≢ unknown
unfolding role_of
role_of-known [] n e = n refl
role_of-known (r ∷ rs) n e = ground arith

abbrev pub hard_of : ConditionStatus × DriftReason × Bool → Bool
hard_of (c, r, h) = h

unfoldable pub judge_hard : SampledClusterRole → SampledClusterRole → Bool
judge_hard p s = hard_of (judge p s)

pub judge-hard : (p s : SampledClusterRole) → judge_hard p s ≡ true → (p ≡ standby) × (s ≢ unknown)
unfolding judge judge_hard
judge-hard active active h = cc
judge-hard active standby h = cc
judge-hard active unknown h = cc
judge-hard standby active h = (refl, (λ e. cc))
judge-hard standby standby h = (refl, (λ e. cc))
judge-hard standby unknown h = cc
judge-hard unknown s h = cc

pub judge-soft : (s : SampledClusterRole) → s ≢ unknown → judge_hard standby s ≡ true
unfolding judge judge_hard
judge-soft active h = refl
judge-soft standby h = refl
judge-soft unknown h = absurd (h refl)

pub evaluation_of-hard :
    (p s : Sampled)
    → (evaluation_of p s).hard_failure ≡ true
    → (p.1 ≡ false) × (s.1 ≡ false) × (judge_hard p.0.role s.0.role ≡ true)
unfolding judge_hard
evaluation_of-hard (p, true) (s, b) h = cc
evaluation_of-hard (p, false) (s, true) h = cc
evaluation_of-hard (p, false) (s, false) h = (refl, refl, h)
