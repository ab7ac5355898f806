-- ===== src/Operation/Samples.antt =====
-- Objects and answers of the API server for the runs of the operation controller.
use testudo_operator.Base.{
  String, true, false, none, some, List, [], ◌∷◌, ◌==◌, decimal, if◌then◌else◌,
}
use testudo_operator.Base.Outcome.{ok}
use testudo_operator.Drill.Types.{operation_running, found, not_found, created}
use testudo_operator.Operation.Types.{
  OperationType, failover, failing_over, StepState, StepStatus, OperationSpec, OperationStatus,
  Operation, Instance, Group, Api, Clusters, Remote,
}
use testudo_operator.Operation.Children.{empty_status}

abbrev pub shop : Instance
shop = record {
  name = "shop";
  uid = "u1";
  config = "pair";
  operation_timeout_minutes = 60;
  skip_pod_ready_check = none;
  fsm_state = failing_over;
  reason = "";
  message = "";
  primary_cluster = "a";
  secondary_cluster = "b";
  data_sync_name = "shop-data";
  resource_sync_name = "";
}

abbrev pub spec_of : OperationType → OperationSpec
spec_of t = record {
  instance_name = "shop";
  group_name = "";
  operation_type = t;
  drill_config = none;
  force = false;
  skip_final_sync = false;
  skip_scale_down_source = false;
  timeout_minutes = 0;
  skip_pod_ready_check = none;
  wait_until_ready = false;
  retry_policy = some (record { max_retries = 2; retry_interval_seconds = 5 });
}

abbrev pub operation_of : OperationType → OperationStatus → Operation
operation_of t s = record {
  name = "op";
  annotations = [];
  owner_references = record { kind = "DisasterInstance"; name = "shop"; uid = "u1" } ∷ [];
  labels_current = true;
  spec = spec_of t;
  status = s;
}

abbrev pub step_in : String → StepState → StepStatus
step_in n s = record {
  name = n;
  state = s;
  start_time = some 5;
  completion_time = none;
  message = "";
}

abbrev pub running_with : List StepStatus → OperationStatus
running_with ss = record empty_status {
  state = operation_running;
  steps = ss;
  current_step = "PreCheck";
}

abbrev pub api_of : Instance → List Operation → Group → Api
api_of i os g = record {
  instance = λ n. if n == i.name then found i else not_found "no";
  latest_instance = λ n. found i;
  config = λ j. found (record { source_cluster = "a"; target_cluster = "b" });
  group = λ n. found g;
  operation = λ n. not_found "no";
  latest_operation = λ n. not_found "no";
  operations = ok os;
  data_sync = λ n. not_found "no";
  resource_sync = λ n. not_found "no";
  data_syncs = ok [];
  resource_syncs = ok [];
  instance_updated = λ j. none;
  data_sync_paused_set = λ n. none;
  resource_sync_paused_set = λ n. none;
  data_sync_triggered = λ n. none;
  resource_sync_triggered = λ n. none;
  created = λ o. created;
  cluster_error = λ c. none;
  namespace_deleting = λ c n. not_found "no";
  namespace_deleted = λ c n. none;
  now = 100;
  duration_text = decimal;
  time_text = decimal;
  time_of_text = λ t. none;
  default_timeout_minutes = 60;
  default_retry_interval = 5;
  step_start_requeue = 1;
  step_running_requeue = 3;
}

abbrev pub shops : Group
shops = record { name = "shops"; uid = "u2"; levels = ("shop" ∷ []) ∷ []; fail_policy = "Stop" }

abbrev pub succeeds : Remote
succeeds operation i step = (step.message, ok true)

abbrev pub ready_clusters : Clusters
ready_clusters = record {
  pre_check = succeeds;
  scale_down_source = succeeds;
  final_sync = succeeds;
  scale_up_target = succeeds;
  check_replicas = succeeds;
  scale_down = λ c. succeeds;
  scale_up = λ c. succeeds;
  drill_restore_resource = λ c. succeeds;
  drill_restore_data = λ c. succeeds;
  drill_scale_up = λ c m. succeeds;
}

abbrev pub api : Api
api = api_of shop [] shops

abbrev pub fresh : Operation
fresh = operation_of failover empty_status
