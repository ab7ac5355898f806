-- ===== src/Drill/Types.antt =====
-- pkg/apis/disaster/v1/disasterdrill_types.go, and what the drill controller reads of the other objects
-- and writes to the API server.
use testudo_operator.Base.{ℕ, String, Bool, false, Option, none, List, [], ◌∷◌}
use testudo_operator.Base.Assoc.{Assoc}

-- `unset` is the empty state, `other_state` any text that is none of the constants.
pub data DrillState : Type 0 where
  unset pending ready executing completed failed cleaning_up cleaned_up other_state : DrillState

-- `no_mode` is the empty text.
pub data RestoreMode : Type 0 where
  no_mode reuse full_restore resource_only mixed : RestoreMode

-- `operation_unset` is the empty state of an operation that was not reconciled yet.
pub data OperationState : Type 0 where
  operation_unset operation_pending operation_running operation_completed operation_failed :
      OperationState

-- The types that the controller tells apart.
pub data OperationType : Type 0 where
  drill_type cleanup_type other_type : OperationType

pub record DrillSpec : Type 0 where
  pub instance_name : String
  pub group_name : String
  pub target_cluster : String
  pub namespace_mapping : Assoc String
  pub skip_validation : Bool
  pub confirmed : Bool
  pub wait_until_ready : Bool
  pub clean_up : Bool

pub record StepStatus : Type 0 where
  pub step_failed : Bool
  pub step_message : String

pub record ValidationResults : Type 0 where
  pub instance_valid : Bool
  pub cluster_reachable : Bool
  pub backup_available : Bool
  pub last_data_sync_time : Option ℕ
  pub last_resource_sync_time : Option ℕ

-- Times are seconds; `group_progress` is an opaque value.
pub record DrillStatus : Type 0 where
  pub state : DrillState
  pub reason : String
  pub operation_name : String
  pub target_cluster : String
  pub restore_mode : RestoreMode
  pub instance_restore_modes : Assoc RestoreMode
  pub current_step : String
  pub steps : List StepStatus
  pub start_time : Option ℕ
  pub ready_time : Option ℕ
  pub execution_time : Option ℕ
  pub completion_time : Option ℕ
  pub message : String
  pub validation_results : Option ValidationResults
  pub group_progress : Option String

abbrev pub empty_status : DrillStatus
empty_status = record {
  state = unset;
  reason = "";
  operation_name = "";
  target_cluster = "";
  restore_mode = no_mode;
  instance_restore_modes = [];
  current_step = "";
  steps = [];
  start_time = none;
  ready_time = none;
  execution_time = none;
  completion_time = none;
  message = "";
  validation_results = none;
  group_progress = none;
}

abbrev pub empty_results : ValidationResults
empty_results = record {
  instance_valid = false;
  cluster_reachable = false;
  backup_available = false;
  last_data_sync_time = none;
  last_resource_sync_time = none;
}

-- `restart_at` is the restart annotation as a time, `none` if it is absent or no time in RFC 3339;
-- `labels_current` says that the dependency labels are those of the objects referred to.
pub record Drill : Type 0 where
  pub name : String
  pub deleting : Bool
  pub has_finalizer : Bool
  pub labels_current : Bool
  pub restart_at : Option ℕ
  pub spec : DrillSpec
  pub status : DrillStatus

pub record DrillConfig : Type 0 where
  pub config_target_cluster : String
  pub config_namespace_mapping : Assoc String
  pub config_skip_validation : Bool
  pub config_restore_mode : RestoreMode
  pub config_instance_restore_modes : Assoc RestoreMode

-- `directive_confirmed` is `none` without a directive.
pub record Operation : Type 0 where
  pub operation_name : String
  pub creation_timestamp : ℕ
  pub instance_name : String
  pub group_name : String
  pub operation_type : OperationType
  pub drill_config : DrillConfig
  pub directive_confirmed : Option Bool
  pub skip_pod_ready_check : Option Bool
  pub wait_until_ready : Bool
  pub operation_state : OperationState
  pub operation_reason : String
  pub operation_message : String
  pub operation_current_step : String
  pub operation_steps : List StepStatus
  pub operation_group_status : Option String

pub record Instance : Type 0 where
  pub name : String
  pub fsm_state : String
  pub primary_cluster : String
  pub secondary_cluster : String
  pub data_sync_name : String
  pub resource_sync_name : String
  pub last_data_sync_time : Option ℕ
  pub last_resource_sync_time : Option ℕ

-- `no_data_volumes` is the status and the reason of that condition; `history` the status of the
-- entries, the oldest first.
pub record DataSync : Type 0 where
  pub instance : String
  pub state : String
  pub last_backup_name : String
  pub no_data_volumes : Option (String × String)
  pub history : List String

pub record ResourceSync : Type 0 where
  pub instance : String
  pub state : String
  pub last_backup_name : String

-- What a request gives: an object, or an error with its text, `not_found` or another one.
pub data Answer (A : Type 0) : Type 0 where
  found : A → Answer A
  not_found failed_request : String → Answer A

pub data CreateAnswer : Type 0 where
  created already_exists create_failed : CreateAnswer

-- The API server at the time of one reconciliation, in the namespace of the drill.
pub record Api : Type 0 where
  pub instance : String → Answer Instance
  pub group_levels : String → Answer (List (List String))
  pub cluster_status : String → Answer String
  pub data_sync : String → Answer DataSync
  pub resource_sync : String → Answer ResourceSync
  pub operation : String → Answer Operation
  pub operations_of_drill : String → Option (List Operation)
  pub create : Operation → CreateAnswer
  pub now : ℕ

pub data Write : Type 0 where
  add_finalizer remove_finalizer update_labels : Write
  update_spec : DrillSpec → Write
  create_operation : Operation → Write
  update_status : DrillStatus → Write

-- What the controller returns: no new run asked for, a run at once, a run after some seconds, or an
-- error, after which the run is repeated.
pub data Answered : Type 0 where
  done requeue request_error : Answered
  requeue_after : ℕ → Answered

-- The writes of one reconciliation in their order; each is reached if those before it succeed.
abbrev pub Handled : Type 0
Handled = List Write × Answered

abbrev pub waits : Answered → Handled
waits answer = ([], answer)

abbrev pub writes_status : DrillStatus → Answered → Handled
writes_status s answer = (update_status s ∷ [], answer)
