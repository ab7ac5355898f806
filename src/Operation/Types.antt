-- ===== src/Operation/Types.antt =====
-- pkg/apis/disaster/v1/disasteroperation_types.go, and what the operation controller reads of the
-- other objects and writes to the API server.
use testudo_operator.Base.{ℕ, String, Bool, Option, List, [], ◌∷◌}
use testudo_operator.Base.Assoc.{Assoc}
use testudo_operator.Base.Outcome.{Outcome}
use testudo_operator.Drill.Types.{
  RestoreMode, OperationState, operation_unset, operation_pending, operation_running,
  operation_completed, operation_failed, Answer, CreateAnswer, Answered,
}

pub data OperationType : Type 0 where
  failover reprotect pause resume sync_once sync_data sync_resource undo cancel drill
        drill_cleanup :
      OperationType
  unknown_type : String → OperationType

-- The status of an instance's state machine; `fsm_unset` is the empty text.
pub data FsmState : Type 0 where
  fsm_unset fsm_pending initializing protected paused failing_over active failing_back config_error
        fsm_failed :
      FsmState

pub data StepState : Type 0 where
  step_unset step_pending step_running step_completed step_failed : StepState

pub data AutoCancelStatus : Type 0 where
  auto_cancel_unset not_triggered auto_cancel_running succeeded auto_cancel_failed :
      AutoCancelStatus

pub data AutoCancelMode : Type 0 where
  mode_unset direct_rollback cancel_path no_auto_cancel : AutoCancelMode

-- Times are seconds.
pub record StepStatus : Type 0 where
  pub name : String
  pub state : StepState
  pub start_time : Option ℕ
  pub completion_time : Option ℕ
  pub message : String

pub record RoleStatus : Type 0 where
  pub primary_cluster : String
  pub secondary_cluster : String

pub record RetryPolicy : Type 0 where
  pub max_retries : ℕ
  pub retry_interval_seconds : ℕ

pub record DrillConfig : Type 0 where
  pub target_cluster : String
  pub restore_mode : RestoreMode
  pub instance_restore_modes : Assoc RestoreMode
  pub namespace_mapping : Assoc String
  pub skip_validation : Bool

pub record OperationSpec : Type 0 where
  pub instance_name : String
  pub group_name : String
  pub operation_type : OperationType
  pub drill_config : Option DrillConfig
  pub force : Bool
  pub skip_final_sync : Bool
  pub skip_scale_down_source : Bool
  pub timeout_minutes : ℕ
  pub skip_pod_ready_check : Option Bool
  pub wait_until_ready : Bool
  pub retry_policy : Option RetryPolicy

-- A condition that is true has `condition_true`.
pub record Condition : Type 0 where
  pub condition_type : String
  pub condition_true : Bool
  pub condition_reason : String
  pub condition_message : String
  pub last_transition_time : ℕ

pub record OperationStatus : Type 0 where
  pub state : OperationState
  pub reason : String
  pub start_time : Option ℕ
  pub completion_time : Option ℕ
  pub current_step : String
  pub steps : List StepStatus
  pub auto_cancel_triggered : Bool
  pub auto_cancel_status : AutoCancelStatus
  pub auto_cancel_mode : AutoCancelMode
  pub auto_cancel_reason : String
  pub auto_cancel_trigger_step : String
  pub auto_cancel_current_step : String
  pub auto_cancel_steps : List StepStatus
  pub auto_cancel_triggered_at : Option ℕ
  pub auto_cancel_completion_time : Option ℕ
  pub manual_intervention_required : Bool
  pub role_status : Option RoleStatus
  pub retry_count : ℕ
  pub next_retry_time : Option ℕ
  pub message : String
  pub conditions : List Condition

pub record OwnerReference : Type 0 where
  pub kind : String
  pub name : String
  pub uid : String

-- `labels_current` says that the dependency labels are those of the objects referred to.
pub record Operation : Type 0 where
  pub name : String
  pub annotations : Assoc String
  pub owner_references : List OwnerReference
  pub labels_current : Bool
  pub spec : OperationSpec
  pub status : OperationStatus

pub record Instance : Type 0 where
  pub name : String
  pub uid : String
  pub config : String
  pub operation_timeout_minutes : ℕ
  pub skip_pod_ready_check : Option Bool
  pub fsm_state : FsmState
  pub reason : String
  pub message : String
  pub primary_cluster : String
  pub secondary_cluster : String
  pub data_sync_name : String
  pub resource_sync_name : String

-- The clusters of the configuration that an instance refers to.
pub record Config : Type 0 where
  pub source_cluster : String
  pub target_cluster : String

pub record Group : Type 0 where
  pub name : String
  pub uid : String
  pub levels : List (List String)
  pub fail_policy : String

-- `conditions` the oldest first.
pub record Sync : Type 0 where
  pub name : String
  pub instance : String
  pub paused : Bool
  pub state : String
  pub reason : String
  pub message : String
  pub last_sync_time : Option ℕ
  pub conditions : List Condition

-- The status of a `BackupRestoreStatistics`.
pub record Statistics : Type 0 where
  pub total : ℕ
  pub completed : ℕ
  pub failed : ℕ
  pub in_progress : ℕ

-- `update_status_of` and `create_operation` name another operation; `mark_task_event` sets an
-- annotation of the own one, with the time of the run. The failure of this write, of
-- `settle_instance` and of `sync_statistics` is only logged, so that the writes after it are reached
-- all the same.
pub data Write : Type 0 where
  update_instance settle_instance : Instance → Write
  update_operation : Operation → Write
  update_status : OperationStatus → Write
  update_status_of : String → OperationStatus → Write
  create_operation : Operation → Write
  pause_data_sync pause_resource_sync : String → Bool → Write
  trigger_data_sync trigger_resource_sync : String → ℕ → Write
  delete_namespace : String → String → Write
  mark_task_event : String → String → Write
  sync_statistics : String → Statistics → Write

-- The writes of one reconciliation in their order, each reached if those before it succeed, and
-- what the controller returns if they all do.
abbrev pub Handled : Type 0
Handled = List Write × Answered

-- What executing a step gives: its writes, the instance and the message of the step as it leaves
-- them, and whether the step is completed, or an error.
pub record Executed : Type 0 where
  pub writes : List Write
  pub instance : Instance
  pub step_message : String
  pub completed : Outcome String Bool

-- How one step is executed for an instance.
abbrev pub Executor : Type 0
Executor = Operation → Instance → StepStatus → Executed

-- The API server at the time of one reconciliation, in the namespace of the operation.
-- `latest_instance` and `latest_operation` are what a later `Get` of the same reconciliation gives;
-- `…_paused_set` and `…_triggered` are the errors of those updates of a data or a resource
-- synchronisation, `instance_updated` that of the update of an instance by a step, `cluster_error` that of a client of a cluster and `namespace_deleted` that of a
-- deletion, `none` if they succeed. The other updates fail as `Handled` says.
pub record Api : Type 0 where
  pub instance : String → Answer Instance
  pub latest_instance : String → Answer Instance
  pub config : Instance → Answer Config
  pub group : String → Answer Group
  pub operation : String → Answer Operation
  pub latest_operation : String → Answer Operation
  pub operations : Outcome String (List Operation)
  pub data_sync : String → Answer Sync
  pub resource_sync : String → Answer Sync
  pub data_syncs : Outcome String (List Sync)
  pub resource_syncs : Outcome String (List Sync)
  pub instance_updated : Instance → Option String
  pub data_sync_paused_set : String → Option String
  pub resource_sync_paused_set : String → Option String
  pub data_sync_triggered : String → Option String
  pub resource_sync_triggered : String → Option String
  pub created : Operation → CreateAnswer
  pub cluster_error : String → Option String
  pub namespace_deleting : String → String → Answer Bool
  pub namespace_deleted : String → String → Option String
  pub now : ℕ
  pub duration_text : ℕ → String
  pub time_text : ℕ → String
  pub time_of_text : String → Option ℕ
  pub default_timeout_minutes : ℕ
  pub default_retry_interval : ℕ
  pub step_start_requeue : ℕ
  pub step_running_requeue : ℕ

-- What the steps that work on the clusters themselves give: the message that they leave on the step,
-- and whether it is completed, or an error. What they write to the clusters is not modelled.
abbrev pub Remote : Type 0
Remote = Operation → Instance → StepStatus → String × Outcome String Bool

pub record Clusters : Type 0 where
  pub pre_check : Remote
  pub scale_down_source : Remote
  pub final_sync : Remote
  pub scale_up_target : Remote
  pub check_replicas : Remote
  pub scale_down : String → Remote
  pub scale_up : String → Remote
  pub drill_restore_resource : String → Remote
  pub drill_restore_data : String → Remote
  pub drill_scale_up : String → RestoreMode → Remote

abbrev pub waits : Answered → Handled
waits answer = ([], answer)

abbrev pub writes_status : OperationStatus → Answered → Handled
writes_status s answer = (update_status s ∷ [], answer)

-- The texts that messages show.
unfoldable pub operation_state_text : OperationState → String
operation_state_text operation_unset = ""
operation_state_text operation_pending = "Pending"
operation_state_text operation_running = "Running"
operation_state_text operation_completed = "Completed"
operation_state_text operation_failed = "Failed"

unfoldable pub operation_type_text : OperationType → String
operation_type_text failover = "failover"
operation_type_text reprotect = "reprotect"
operation_type_text pause = "pause"
operation_type_text resume = "resume"
operation_type_text sync_once = "synconce"
operation_type_text sync_data = "syncdata"
operation_type_text sync_resource = "syncresource"
operation_type_text undo = "undo"
operation_type_text cancel = "cancel"
operation_type_text drill = "drill"
operation_type_text drill_cleanup = "drill-cleanup"
operation_type_text (unknown_type t) = t

unfoldable pub fsm_state_text : FsmState → String
fsm_state_text fsm_unset = ""
fsm_state_text fsm_pending = "Pending"
fsm_state_text initializing = "Initializing"
fsm_state_text protected = "Protected"
fsm_state_text paused = "Paused"
fsm_state_text failing_over = "FailingOver"
fsm_state_text active = "Active"
fsm_state_text failing_back = "FailingBack"
fsm_state_text config_error = "ConfigError"
fsm_state_text fsm_failed = "Failed"
