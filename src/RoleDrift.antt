-- ===== src/RoleDrift.antt =====
-- internal/controller/disasterinstance/role_drift.go: whether the clusters of an instance have the
-- roles that its status says. The proofs are in the modules below.
pub mod Sample
pub mod Judged
pub mod Verdict
mod Tests
use testudo_operator.Base.{
  ℕ, ◌+◌, ◌%◌, String, Bool, true, false, not, ◌&&◌, ◌||◌, Option, none, some, List, [], ◌∷◌, ◌==◌,
  ltb, nat_eq, if◌then◌else◌,
}
use testudo_operator.Base.Text.{trim_space}

pub data SampledClusterRole : Type 0 where
  active standby unknown : SampledClusterRole

-- Replica numbers are int32, kept as their bit patterns below 2 ^ 32.
pub record ClusterReplicaSample : Type 0 where
  pub cluster_name : String
  pub role : SampledClusterRole
  pub workload_count : ℕ
  pub non_zero_replica_workload_count : ℕ
  pub zero_replica_workload_count : ℕ
  pub desired_replicas_total : ℕ

-- `replicas > 0` on an int32.
abbrev pub is_positive : ℕ → Bool
is_positive replicas = ltb 0 replicas && ltb replicas 2147483648

unfoldable pub add_workload : ClusterReplicaSample → ℕ → ClusterReplicaSample
add_workload s replicas =
    let t = record s {
      workload_count = s.workload_count + 1;
      desired_replicas_total = (s.desired_replicas_total + replicas) % 4294967296;
    } in
    if is_positive replicas
    then record t { non_zero_replica_workload_count = s.non_zero_replica_workload_count + 1 }
    else record t { zero_replica_workload_count = s.zero_replica_workload_count + 1 }

-- What the clusters answer: whether a client can be had, whether the label selector compiles, and the
-- `spec.replicas` of the listed workloads of a cluster and namespace, `none` on an error.
pub record Api : Type 0 where
  pub has_client : String → Bool
  pub selector_compiles : Bool
  pub deployments : String → String → Option (List (Option ℕ))
  pub stateful_sets : String → String → Option (List (Option ℕ))

abbrev pub replicas_of : Option ℕ → ℕ
replicas_of none = 1
replicas_of (some n) = n

unfoldable pub add_workloads : ClusterReplicaSample → List (Option ℕ) → ClusterReplicaSample
unfolding add_workload
add_workloads s [] = s
add_workloads s (replicas ∷ rest) = add_workloads (add_workload s (replicas_of replicas)) rest

-- The sample, and whether the sampling failed; a failure leaves the sample as it is then.
abbrev pub Sampled : Type 0
Sampled = ClusterReplicaSample × Bool

-- One of the two lists, and what follows if it can be had.
abbrev pub add_listed :
    Option (List (Option ℕ)) → ClusterReplicaSample → (ClusterReplicaSample → Sampled) → Sampled
add_listed none s next = (s, true)
add_listed (some items) s next = next (add_workloads s items)

module _ (api : Api) (cluster : String) where
  -- The loop over the namespaces.
  unfoldable pub sample_namespaces : List String → ClusterReplicaSample → Sampled
  sample_namespaces [] s = (s, false)
  sample_namespaces (namespace ∷ namespaces) s =
      if api.selector_compiles
      then add_listed (api.deployments cluster namespace) s
          (λ t. add_listed (api.stateful_sets cluster namespace) t (sample_namespaces namespaces))
      else (s, true)

abbrev pub classify : ClusterReplicaSample → ClusterReplicaSample
classify s =
    if nat_eq s.workload_count 0
    then record s { role = unknown }
    else if ltb 0 s.non_zero_replica_workload_count
    then record s { role = active }
    else record s { role = standby }

abbrev pub classified : Sampled → Sampled
classified (s, true) = (s, true)
classified (s, false) = (classify s, false)

abbrev pub empty_sample : String → ClusterReplicaSample
empty_sample cluster = record {
  cluster_name = cluster;
  role = unknown;
  workload_count = 0;
  non_zero_replica_workload_count = 0;
  zero_replica_workload_count = 0;
  desired_replicas_total = 0;
}

-- All namespaces, where the instance names none.
abbrev pub namespace_scopes : List String → List String
namespace_scopes [] = "" ∷ []
namespace_scopes (n ∷ ns) = n ∷ ns

unfoldable pub sample_cluster_replica_role : Api → List String → String → Sampled
sample_cluster_replica_role api namespaces cluster =
    if api.has_client cluster
    then classified
        (sample_namespaces api cluster (namespace_scopes namespaces) (empty_sample cluster))
    else (empty_sample cluster, true)

pub data ConditionStatus : Type 0 where
  condition_true condition_false condition_unknown : ConditionStatus

pub data DriftReason : Type 0 where
  expected_role_matched both_active_observed role_reversed both_standby check_failed
        no_workload_observed :
      DriftReason

-- `roleDriftEvaluation` without its message; `none` for a sample that was not taken.
pub record RoleDriftEvaluation : Type 0 where
  pub condition_status : ConditionStatus
  pub reason : DriftReason
  pub hard_failure : Bool
  pub primary_sample : Option ClusterReplicaSample
  pub secondary_sample : Option ClusterReplicaSample

-- The status, the reason and the hard failure for two sampled roles.
unfoldable pub judge :
    SampledClusterRole → SampledClusterRole → ConditionStatus × DriftReason × Bool
judge active standby = (condition_false, expected_role_matched, false)
judge active active = (condition_false, both_active_observed, false)
judge standby active = (condition_true, role_reversed, true)
judge standby standby = (condition_true, both_standby, true)
judge unknown secondary = (condition_unknown, no_workload_observed, false)
judge primary unknown = (condition_unknown, no_workload_observed, false)

abbrev pub evaluation_of : Sampled → Sampled → RoleDriftEvaluation
evaluation_of (p, p_failed) (s, s_failed) =
    let (status, reason, hard) = judge p.role s.role in
    if p_failed || s_failed
    then record {
      condition_status = condition_unknown;
      reason = check_failed;
      hard_failure = false;
      primary_sample = some p;
      secondary_sample = some s;
    }
    else record {
      condition_status = status;
      reason = reason;
      hard_failure = hard;
      primary_sample = some p;
      secondary_sample = some s;
    }

-- What is read and written of an instance. `status_error` is the reason of `SetStatusError`.
pub record InstanceStatus : Type 0 where
  pub primary_cluster : String
  pub secondary_cluster : String
  pub namespaces : List String
  pub fsm_state : String
  pub status_reason : String
  pub available_operations : List String
  pub role_drift : Option (ConditionStatus × DriftReason)

unfoldable pub evaluate_role_drift : Api → InstanceStatus → RoleDriftEvaluation
evaluate_role_drift api instance' =
    let primary = trim_space instance'.primary_cluster in
    let secondary = trim_space instance'.secondary_cluster in
    if primary == "" || secondary == ""
    then record {
      condition_status = condition_unknown;
      reason = check_failed;
      hard_failure = false;
      primary_sample = none;
      secondary_sample = none;
    }
    else evaluation_of (sample_cluster_replica_role api instance'.namespaces primary)
        (sample_cluster_replica_role api instance'.namespaces secondary)

-- The instance after the guard, and whether the reconciliation ends with it.
unfoldable pub guard_by_role_drift : Api → InstanceStatus → InstanceStatus × Bool
guard_by_role_drift api instance' =
    let evaluation = evaluate_role_drift api instance' in
    let noted = record instance' {
      role_drift = some (evaluation.condition_status, evaluation.reason);
    } in
    if evaluation.hard_failure
    then (
      record noted {
        fsm_state = "Failed";
        status_reason = "RoleDriftDetected";
        available_operations = [];
      },
      true,
    )
    else (noted, false)
