-- ===== src/Operation/Failure.antt =====
-- internal/controller/disasteroperation/controller.go: the reason of a failed operation, and the
-- instance after a failed step.
use testudo_operator.Base.{
  ℕ, String, Bool, true, false, not, ◌&&◌, ◌||◌, Option, none, some, List, [], ◌∷◌, ◌==◌,
  reverse_onto, if◌then◌else◌,
}
use testudo_operator.Base.Text.{join, trim_space, contains, to_lower}
use testudo_operator.Drill.Types.{OperationState, operation_failed, Answer, found}
use testudo_operator.Operation.Types.{
  OperationType, failover, reprotect, cancel, FsmState, protected, failing_over, failing_back,
  fsm_failed, step_failed, StepStatus, Condition, OperationStatus, Instance, Write, settle_instance,
  operation_type_text, Api, AutoCancelMode, direct_rollback, cancel_path, no_auto_cancel,
}
use testudo_operator.Operation.Steps.{mark_step_failed, put_step}

unfoldable pub map_operation_failure_message_to_reason : String → String
map_operation_failure_message_to_reason message =
    if message == ""
    then ""
    else if contains message "未知的操作类型"
    then "InvalidOperationType"
    else if contains message "未找到"
    then "ResourceNotFound"
    else if contains message "超时"
    then "TimeoutExceeded"
    else if contains message "同步失败"
    then "SyncFailed"
    else if contains message "无法连接"
    then "ClusterConnectionFailed"
    else if contains message "必须在" || contains message "无法执行"
    then "InvalidState"
    else if contains message "失败" || contains (to_lower message) "failed"
    then "StepFailed"
    else ""

-- The reason of the first true condition of a list, the newest first.
unfoldable pub reason_of_conditions : List Condition → Option String
reason_of_conditions [] = none
reason_of_conditions (c ∷ cs) =
    let rest = reason_of_conditions cs in
    if c.condition_true && not (c.condition_reason == "") then some c.condition_reason else rest

abbrev pub is_failed_step : StepStatus → Bool
is_failed_step s = elim s.state [ step_failed ↦ true | _ ↦ false ]

-- The reason of the first failed step of a list, the newest first.
unfoldable pub reason_of_steps : List StepStatus → String
reason_of_steps [] = "OperationFailed"
reason_of_steps (s ∷ ss) =
    let rest = reason_of_steps ss in
    let reason = map_operation_failure_message_to_reason s.message in
    if is_failed_step s then if reason == "" then "StepFailed" else reason else rest

abbrev pub reason_of_texts : OperationStatus → String
reason_of_texts status =
    let reason = map_operation_failure_message_to_reason status.message in
    if reason == "" then reason_of_steps (reverse_onto status.steps []) else reason

abbrev pub reason_after_conditions : OperationStatus → Option String → String
reason_after_conditions status (some reason) = reason
reason_after_conditions status none = reason_of_texts status

unfoldable pub derive_operation_failure_reason : OperationStatus → String
derive_operation_failure_reason status =
    reason_after_conditions status (reason_of_conditions (reverse_onto status.conditions []))

abbrev pub is_failed : OperationState → Bool
is_failed operation_failed = true
is_failed s = false

-- The status with its reason set or cleared, and whether that changed it.
unfoldable pub normalize_operation_status_error : OperationStatus → OperationStatus × Bool
normalize_operation_status_error status =
    let reason = derive_operation_failure_reason status in
    if is_failed status.state
    then if status.reason == ""
      then (record status { reason = reason }, not (reason == ""))
      else (status, false)
    else if status.reason == ""
    then (status, false)
    else (record status { reason = "" }, true)

-- `operation.Status` after a step failed with an error, the step being replaced by its failed form.
unfoldable pub fail_operation_on_step_error :
    ℕ → OperationStatus → List StepStatus → StepStatus → List StepStatus → String → OperationStatus
fail_operation_on_step_error now status before step after e = record status {
  steps = put_step before (mark_step_failed now (join "" ("执行失败: " ∷ e ∷ [])) step) after;
  state = operation_failed;
  completion_time = some now;
  current_step = step.name;
  message = join "" ("步骤 " ∷ step.name ∷ " 执行失败: " ∷ e ∷ []);
}

unfoldable pub resolve_failover_auto_cancel_mode : String → AutoCancelMode
resolve_failover_auto_cancel_mode step_name =
    if step_name == "PreCheck"
    then direct_rollback
    else if step_name == "PauseSchedules"
        || step_name == "FinalSync"
        || step_name == "ScaleDownSource"
        || step_name == "ScaleUpTarget"
        || step_name == "CheckReplicas"
    then cancel_path
    else no_auto_cancel

abbrev pub is_direct_rollback : AutoCancelMode → Bool
is_direct_rollback direct_rollback = true
is_direct_rollback m = false

unfoldable pub should_rollback_failover_to_protected : String → Bool
should_rollback_failover_to_protected step_name =
    is_direct_rollback (resolve_failover_auto_cancel_mode step_name)

-- Whether an instance in this state is settled after a failed step: a failover and a cancellation
-- expect it to be failing over, a reprotection to be failing back.
unfoldable pub expects : OperationType → FsmState → Bool
expects failover s = elim s [ failing_over ↦ true | _ ↦ false ]
expects cancel s = elim s [ failing_over ↦ true | _ ↦ false ]
expects reprotect s = elim s [ failing_back ↦ true | _ ↦ false ]
expects t s = true

abbrev pub is_failover : OperationType → Bool
is_failover failover = true
is_failover t = false

unfoldable pub settled : OperationType → String → String → Instance → Instance
settled t step_name message i =
    if is_failover t && should_rollback_failover_to_protected step_name
    then record i { fsm_state = protected; reason = ""; message = "" }
    else record i {
      fsm_state = fsm_failed;
      reason = "StepFailed";
      message = join "" (operation_type_text t ∷ " step " ∷ step_name ∷ " failed: " ∷ message ∷ []);
    }

abbrev pub or_unknown : String → String
or_unknown message = if trim_space message == "" then "unknown error" else message

abbrev pub settle_latest : OperationType → String → String → Answer Instance → List Write
settle_latest t step_name message (found i) =
    if expects t i.fsm_state then settle_instance (settled t step_name message i) ∷ [] else []
settle_latest t step_name message answer = []

-- The write of the instance, if there is one; the function only logs its errors.
unfoldable pub settle_instance_state_on_step_failure :
    Api → OperationType → Instance → String → String → List Write
settle_instance_state_on_step_failure api t i step_name message =
    if step_name == ""
    then []
    else settle_latest t step_name (or_unknown message) (api.latest_instance i.name)
