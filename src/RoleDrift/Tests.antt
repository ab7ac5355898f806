-- ===== src/RoleDrift/Tests.antt =====
-- Runs of the guard against role drift.
use testudo_operator.Base.{
  ℕ, String, ◌≡◌, ◌↔◌, refl, true, false, Option, none, some, List, [], ◌∷◌, ◌==◌, if◌then◌else◌,
}
use testudo_operator.RoleDrift.{
  Api, InstanceStatus, sample_cluster_replica_role, guard_by_role_drift,
}
use testudo_operator.RoleDrift.Sample.{listed, summary, sample_cluster_replica_role-summary}
use testudo_operator.RoleDrift.Verdict.{PrimaryIsStopped, guard_by_role_drift-stops}

-- East has stopped, west runs.
abbrev clusters : Api
clusters = record {
  has_client = λ c. true;
  selector_compiles = true;
  deployments = deployments_of;
  stateful_sets = λ c n. some [];
}
  where
    deployments_of : String → String → Option (List (Option ℕ))
    deployments_of cluster namespace =
        if cluster == "east" then some (some 0 ∷ some 0 ∷ []) else some (none ∷ some 3 ∷ [])

sample_cluster_replica_role-summary_example :
    sample_cluster_replica_role clusters ("shop" ∷ []) "west"
    ≡ (summary "west" (none ∷ some 3 ∷ []), false)
unfolding listed
sample_cluster_replica_role-summary_example =
    sample_cluster_replica_role-summary clusters ("shop" ∷ []) "west" (none ∷ some 3 ∷ []) refl refl

abbrev shop : InstanceStatus
shop = record {
  primary_cluster = "east";
  secondary_cluster = "west";
  namespaces = "shop" ∷ [];
  fsm_state = "Protected";
  status_reason = "";
  available_operations = [];
  role_drift = none;
}

guard_by_role_drift-stops_example :
    ((guard_by_role_drift clusters shop).1 ≡ true) ↔ PrimaryIsStopped clusters shop
guard_by_role_drift-stops_example = guard_by_role_drift-stops clusters shop
