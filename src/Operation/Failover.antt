-- ===== src/Operation/Failover.antt =====
-- internal/controller/disasteroperation/controller.go: `handleFailover`.
pub mod Roles
pub mod Repeated
pub mod Completes
use testudo_operator.Base.{
  ℕ, String, Bool, true, false, not, Option, none, some, List, [], ◌∷◌, ◌++◌, ◌==◌, is_empty, ◌&&◌,
  if◌then◌else◌,
}
use testudo_operator.Base.Assoc.{lookup, insert}
use testudo_operator.Base.Outcome.{Outcome, ok, err}
use testudo_operator.Base.Text.{join}
use testudo_operator.Drill.Types.{
  operation_completed, operation_failed, Answer, found, not_found, failed_request, done, requeue,
  request_error, requeue_after,
}
use testudo_operator.Operation.Types.{
  FsmState, protected, failing_over, active, StepStatus, OperationStatus, AutoCancelStatus,
  auto_cancel_running, Operation, Instance, update_instance, update_operation, update_status,
  Handled, Executed, Executor, Api, Clusters, waits, writes_status, fsm_state_text,
  operation_state_text,
}
use testudo_operator.Operation.Steps.{
  is_pending, Cursor, finished, at, next_step, put_step, complete_step, timed_out, elapsed_since,
  build_step_timeout_message, fails_with, with_steps, started, roles_of, after_writes,
}
use testudo_operator.Operation.Schedules.{
  execute_pause_schedules, execute_resume_schedules, executed_run, executed_remote, completes,
}
use testudo_operator.Operation.AutoCancel.{
  handle_failover_step_failure, handle_failover_auto_cancel_path,
}
use testudo_operator.Operation.InFlight.{find_other_in_flight_operation}

abbrev pub failover_step_names : List String
failover_step_names =
    "PauseSchedules" ∷ "FinalSync" ∷ "ScaleDownSource" ∷ "ScaleUpTarget" ∷ "CheckReplicas"
    ∷ "SwitchRoles" ∷ []

unfoldable pub execute_failover_step : Api → Clusters → Executor
execute_failover_step api clusters operation i step =
    if step.name == "PreCheck"
    then executed_remote i (clusters.pre_check operation i step)
    else if step.name == "PauseSchedules"
    then executed_run i step (execute_pause_schedules api i)
    else if step.name == "ScaleDownSource"
    then executed_remote i (clusters.scale_down_source operation i step)
    else if step.name == "FinalSync"
    then executed_remote i (clusters.final_sync operation i step)
    else if step.name == "ScaleUpTarget"
    then executed_remote i (clusters.scale_up_target operation i step)
    else if step.name == "CheckReplicas"
    then executed_remote i (clusters.check_replicas operation i step)
    else if step.name == "ResumeSchedules"
    then executed_run i step (execute_resume_schedules api i)
    else executed_run i step completes

abbrev pub target_primary : String
target_primary = "testudo.softcdata.com/target-primary"

abbrev pub target_secondary : String
target_secondary = "testudo.softcdata.com/target-secondary"

abbrev pub is_set : Option String → Bool
is_set none = false
is_set (some t) = not (t == "")

-- The operation with the roles that it is to bring about noted down.
unfoldable pub with_target_roles : Instance → Operation → Operation
with_target_roles i operation = record operation {
  annotations =
      insert target_secondary i.primary_cluster
        (insert target_primary i.secondary_cluster operation.annotations);
}

unfoldable pub initialize_failover_steps : Operation → Instance → Handled
initialize_failover_steps operation i =
    if is_set (lookup target_primary operation.annotations)
    then writes_status (with_steps "PreCheck" failover_step_names operation.status) requeue
    else (update_operation (with_target_roles i operation) ∷ [], requeue)

abbrev pub compensates : AutoCancelStatus → Bool
compensates auto_cancel_running = true
compensates s = false

unfoldable pub switched : Instance → Instance
switched i = record i {
  fsm_state = active;
  primary_cluster = i.secondary_cluster;
  secondary_cluster = i.primary_cluster;
}

module _ (api : Api) (operation : Operation) where
  -- The end of a failover, with the roles of the instance as they are then.
  unfoldable pub failed_over_status : Instance → OperationStatus
  failed_over_status i = record operation.status {
    state = operation_completed;
    completion_time = some api.now;
    current_step = "";
    role_status = some (roles_of i);
    message = "故障切换成功完成";
  }

  abbrev pub switch_by : Instance → FsmState → Handled
  switch_by latest failing_over = (
    update_instance (switched latest) ∷ update_status (failed_over_status (switched latest)) ∷ [],
    done,
  )
  switch_by latest active = writes_status (failed_over_status latest) done
  switch_by latest s = waits request_error

  abbrev pub switch_latest : Answer Instance → Handled
  switch_latest (found latest) = switch_by latest latest.fsm_state
  switch_latest answer = waits request_error

  unfoldable pub finish_failover : Instance → Handled
  finish_failover i = switch_latest (api.latest_instance i.name)

  module _ (before : List StepStatus) (step : StepStatus) (after : List StepStatus) where
    unfoldable pub failover_step_completed : OperationStatus
    failover_step_completed = record operation.status {
      steps = put_step before (complete_step api.now "已完成" step) after;
    }

    unfoldable pub failover_step_waits : String → Handled
    failover_step_waits step_message =
        if step_message == step.message
        then waits (requeue_after api.step_running_requeue)
        else writes_status
            (record operation.status {
              steps = put_step before (record step { message = step_message }) after;
            })
            (requeue_after api.step_running_requeue)

    abbrev pub failover_executed : Executed → Outcome String Bool → Handled
    failover_executed x (err e) =
        handle_failover_step_failure api operation x.instance before step after
          (join "" ("执行失败: " ∷ e ∷ []))
    failover_executed x (ok false) = failover_step_waits x.step_message
    failover_executed x (ok true) = writes_status failover_step_completed requeue

    unfoldable pub run_failover_step : Clusters → Instance → Handled
    run_failover_step clusters i =
        let minutes = operation.spec.timeout_minutes in
        let elapsed = elapsed_since api.now step.start_time in
        let x = execute_failover_step api clusters operation i step in
        if timed_out api.now minutes step
        then handle_failover_step_failure api operation i before step after
            (build_step_timeout_message api.duration_text elapsed minutes step)
        else after_writes x.writes (failover_executed x x.completed)

  unfoldable pub failover_at : Clusters → Instance → Cursor → Handled
  failover_at clusters i finished = finish_failover i
  failover_at clusters i (at before step after) =
      if is_pending step.state
      then writes_status (started api.now operation.status before step after)
          (requeue_after api.step_start_requeue)
      else run_failover_step before step after clusters i

  -- A failover of an instance that is failing over.
  unfoldable pub continue_failover : Clusters → Instance → Handled
  continue_failover clusters i =
      if is_empty operation.status.steps
      then initialize_failover_steps operation i
      else if compensates operation.status.auto_cancel_status
          && not (is_empty operation.status.auto_cancel_steps)
      then handle_failover_auto_cancel_path api clusters operation i
      else failover_at clusters i (next_step operation.status.steps)

  unfoldable pub invalid_state : String → Handled
  invalid_state message =
      writes_status
        (record operation.status {
          state = operation_failed;
          reason = "InvalidState";
          message = message;
          completion_time = some api.now;
        })
        done

  abbrev pub enter_failover : Clusters → Instance → FsmState → Handled
  enter_failover clusters i protected =
      let entered = record i { fsm_state = failing_over } in
      after_writes (update_instance entered ∷ []) (continue_failover clusters entered)
  enter_failover clusters i failing_over = continue_failover clusters i
  enter_failover clusters i s =
      invalid_state
        (join "" ("实例处于 " ∷ fsm_state_text s ∷ " 状态，无法执行故障切换（必须为 Protected 或 FailingOver）" ∷ []))

  abbrev pub unless_conflict : Clusters → Instance → Option Operation → Handled
  unless_conflict clusters i none = enter_failover clusters i i.fsm_state
  unless_conflict clusters i (some o) = invalid_state (
      join "" (
        "实例 "
        ∷ operation.spec.instance_name
        ∷ " 已存在进行中的 failover 操作 "
        ∷ o.name
        ∷ " (state="
        ∷ operation_state_text o.status.state
        ∷ ")，拒绝并发执行"
        ∷ []))

  abbrev pub among : Clusters → Instance → Outcome String (List Operation) → Handled
  among clusters i (err e) = waits request_error
  among clusters i (ok os) =
      unless_conflict clusters i
        (find_other_in_flight_operation operation.spec.instance_name operation.name os)

  abbrev pub failover_of : Clusters → Answer Instance → Handled
  failover_of clusters (found i) = among clusters i api.operations
  failover_of clusters (not_found e) = fails_with operation.status "DisasterInstance 未找到"
  failover_of clusters (failed_request e) = waits request_error

  unfoldable pub handle_failover : Clusters → Handled
  handle_failover clusters = failover_of clusters (api.instance operation.spec.instance_name)
