-- ===== src/Operation/AutoCancel.antt =====
-- internal/controller/disasteroperation/controller.go: what follows a failed step of a failover,
-- `handleFailoverStepFailure` and the automatic compensation by `handleFailoverAutoCancelPath`.
pub mod Settled
pub mod Classified
pub mod Ended
pub mod Terminates
use testudo_operator.Base.{
  ℕ, String, Bool, true, false, not, Option, none, some, List, [], ◌∷◌, ◌++◌, ◌==◌, is_empty,
  nat_eq, if◌then◌else◌,
}
use testudo_operator.Base.Outcome.{Outcome, ok, err}
use testudo_operator.Base.Text.{join}
use testudo_operator.Drill.Types.{
  operation_running, operation_failed, Answer, found, not_found, failed_request, done, requeue,
  request_error, requeue_after,
}
use testudo_operator.Operation.Types.{
  OperationType, failover, cancel, FsmState, protected, StepStatus, OperationStatus, Operation,
  Instance, Config, Write, update_instance, update_status, Handled, Executed, Executor, Api,
  Clusters, waits, writes_status, AutoCancelMode, direct_rollback, cancel_path, no_auto_cancel,
  not_triggered, auto_cancel_running, succeeded, auto_cancel_failed,
}
use testudo_operator.Operation.Steps.{
  is_pending, Cursor, finished, at, next_step, put_step, initial_steps, start_step, complete_step,
  mark_step_failed, timed_out, elapsed_since, build_step_timeout_message, roles_of, after_writes,
}
use testudo_operator.Operation.Failure.{
  resolve_failover_auto_cancel_mode, settle_instance_state_on_step_failure,
}
use testudo_operator.Operation.Schedules.{
  execute_resume_schedules, executed_run, executed_remote, completes,
}

abbrev pub cancel_step_names : List String
cancel_step_names = "ScaleDownTarget" ∷ "ScaleUpSource" ∷ "ResumeSchedules" ∷ []

unfoldable pub initialize_auto_cancel_steps : List StepStatus
initialize_auto_cancel_steps = initial_steps cancel_step_names

-- The steps of a failover at its failed one.
abbrev pub failed_at : ℕ → List StepStatus → StepStatus → List StepStatus → String → List StepStatus
failed_at now before step after message = put_step before (mark_step_failed now message step) after

module _ (api : Api) (operation : Operation) (i : Instance) where
  abbrev pub status : OperationStatus
  status = operation.status

  module _ (before : List StepStatus) (step : StepStatus) (after : List StepStatus)
      (e : String) where
    unfoldable pub no_auto_cancel_status : OperationStatus
    no_auto_cancel_status = record status {
      steps = failed_at api.now before step after e;
      state = operation_failed;
      completion_time = some api.now;
      current_step = step.name;
      auto_cancel_triggered = false;
      auto_cancel_status = not_triggered;
      auto_cancel_mode = no_auto_cancel;
      auto_cancel_reason = e;
      auto_cancel_trigger_step = step.name;
      auto_cancel_current_step = "";
      auto_cancel_steps = [];
      auto_cancel_triggered_at = none;
      auto_cancel_completion_time = none;
      manual_intervention_required = true;
      message = join "" ("步骤 " ∷ step.name ∷ " 失败，当前阶段不支持自动补偿，请人工介入: " ∷ e ∷ []);
    }

    unfoldable pub mark_failover_no_auto_cancel : Handled
    mark_failover_no_auto_cancel =
        after_writes (settle_instance_state_on_step_failure api failover i step.name e)
          (update_status no_auto_cancel_status ∷ [], done)

    unfoldable pub direct_rollback_status : OperationStatus
    direct_rollback_status = record status {
      steps = failed_at api.now before step after e;
      state = operation_failed;
      completion_time = some api.now;
      current_step = step.name;
      auto_cancel_triggered = true;
      auto_cancel_status = succeeded;
      auto_cancel_mode = direct_rollback;
      auto_cancel_reason = e;
      auto_cancel_trigger_step = step.name;
      auto_cancel_current_step = "";
      auto_cancel_steps = [];
      auto_cancel_triggered_at = some api.now;
      auto_cancel_completion_time = some api.now;
      manual_intervention_required = false;
      role_status = some (roles_of i);
      message = join "" ("步骤 " ∷ step.name ∷ " 失败，系统已自动补偿并将实例回置为 Protected: " ∷ e ∷ []);
    }

    unfoldable pub mark_failover_direct_rollback_success : Handled
    mark_failover_direct_rollback_success =
        after_writes (settle_instance_state_on_step_failure api failover i step.name e)
          (update_status direct_rollback_status ∷ [], done)

    unfoldable pub auto_cancel_started : OperationStatus
    auto_cancel_started = record status {
      steps = failed_at api.now before step after e;
      state = operation_running;
      completion_time = none;
      current_step = step.name;
      auto_cancel_triggered = true;
      auto_cancel_status = auto_cancel_running;
      auto_cancel_mode = cancel_path;
      auto_cancel_reason = e;
      auto_cancel_trigger_step = step.name;
      auto_cancel_current_step = "";
      auto_cancel_steps =
          if is_empty status.auto_cancel_steps
          then initialize_auto_cancel_steps
          else status.auto_cancel_steps;
      auto_cancel_triggered_at = some api.now;
      auto_cancel_completion_time = none;
      manual_intervention_required = false;
      message = join "" ("步骤 " ∷ step.name ∷ " 失败，已触发自动补偿: " ∷ e ∷ []);
    }

    unfoldable pub start_failover_auto_cancel_path : Handled
    start_failover_auto_cancel_path = (update_status auto_cancel_started ∷ [], requeue)

    abbrev pub by_mode : AutoCancelMode → Handled
    by_mode direct_rollback = mark_failover_direct_rollback_success
    by_mode cancel_path = start_failover_auto_cancel_path
    by_mode m = mark_failover_no_auto_cancel

    unfoldable pub handle_failover_step_failure : Handled
    handle_failover_step_failure = by_mode (resolve_failover_auto_cancel_mode step.name)

  module _ (before : List StepStatus) (step : StepStatus) (after : List StepStatus)
      (e : String) where
    unfoldable pub auto_cancel_failed_status : OperationStatus
    auto_cancel_failed_status = record status {
      auto_cancel_steps = failed_at api.now before step after e;
      state = operation_failed;
      completion_time = some api.now;
      current_step = status.auto_cancel_trigger_step;
      auto_cancel_status = auto_cancel_failed;
      auto_cancel_reason = e;
      auto_cancel_current_step = step.name;
      auto_cancel_completion_time = some api.now;
      manual_intervention_required = true;
      message = join "" (
          "故障切换在步骤 " ∷ status.auto_cancel_trigger_step ∷ " 失败后触发的自动补偿失败，补偿步骤 " ∷ step.name ∷ " 出错: "
          ∷ e ∷ []);
    }

    unfoldable pub fail_failover_auto_cancel : Handled
    fail_failover_auto_cancel =
        after_writes (settle_instance_state_on_step_failure api cancel i step.name e)
          (update_status auto_cancel_failed_status ∷ [], done)

  unfoldable pub compensated_status : Instance → OperationStatus
  compensated_status latest = record status {
    state = operation_failed;
    completion_time = some api.now;
    current_step = status.auto_cancel_trigger_step;
    auto_cancel_status = succeeded;
    auto_cancel_current_step = "";
    auto_cancel_completion_time = some api.now;
    manual_intervention_required = false;
    role_status = some (roles_of latest);
    message =
        join "" ("故障切换在步骤 " ∷ status.auto_cancel_trigger_step ∷ " 失败后已自动补偿，实例已恢复为 Protected" ∷ []);
  }

  abbrev pub compensate : Answer Instance → Handled
  compensate (found latest) = (
    update_instance (record latest { fsm_state = protected; reason = ""; message = "" })
        ∷ update_status (compensated_status latest)
        ∷ [],
    done,
  )
  compensate answer = waits request_error

  unfoldable pub complete_failover_auto_cancel : Handled
  complete_failover_auto_cancel = compensate (api.latest_instance i.name)

-- `executeCancelStep`, once the configuration is read.
unfoldable pub execute_configured_cancel_step :
    Api → Clusters → Operation → Instance → StepStatus → Config → Executed
execute_configured_cancel_step api clusters operation i step config =
    if step.name == "ScaleDownTarget"
    then executed_remote i (clusters.scale_down config.target_cluster operation i step)
    else if step.name == "ScaleUpSource"
    then executed_remote i (clusters.scale_up config.source_cluster operation i step)
    else if step.name == "ResumeSchedules"
    then executed_run i step (execute_resume_schedules api i)
    else executed_run i step completes

abbrev pub with_config : Instance → StepStatus → (Config → Executed) → Answer Config → Executed
with_config i step f (found config) = f config
with_config i step f (not_found e) =
    executed_run i step ([], err (join "" ("failed to get config: " ∷ e ∷ [])))
with_config i step f (failed_request e) =
    executed_run i step ([], err (join "" ("failed to get config: " ∷ e ∷ [])))

unfoldable pub execute_cancel_step : Api → Clusters → Executor
execute_cancel_step api clusters operation i step =
    with_config i step (execute_configured_cancel_step api clusters operation i step) (api.config i)

unfoldable pub effective_operation_timeout_minutes : Api → Operation → Instance → ℕ
effective_operation_timeout_minutes api operation i =
    if not (nat_eq operation.spec.timeout_minutes 0)
    then operation.spec.timeout_minutes
    else if not (nat_eq i.operation_timeout_minutes 0)
    then i.operation_timeout_minutes
    else api.default_timeout_minutes

module _ (api : Api) (operation : Operation) (i : Instance) where
  abbrev pub triggered_by : String
  triggered_by = operation.status.auto_cancel_trigger_step

  -- `operation.Status` with the message of a compensation's step.
  abbrev pub cancel_message : String → String → String
  cancel_message name what = join "" ("故障切换在步骤 " ∷ triggered_by ∷ " 失败后，自动补偿步骤 " ∷ name ∷ what ∷ [])

  module _ (before : List StepStatus) (step : StepStatus) (after : List StepStatus) where
    unfoldable pub auto_cancel_step_started : OperationStatus
    auto_cancel_step_started = record operation.status {
      auto_cancel_steps = put_step before (start_step api.now step) after;
      auto_cancel_current_step = step.name;
      message = cancel_message step.name " 已开始";
    }

    unfoldable pub auto_cancel_step_completed : OperationStatus
    auto_cancel_step_completed = record operation.status {
      auto_cancel_steps = put_step before (complete_step api.now "已完成" step) after;
      message = cancel_message step.name " 已完成";
    }

    -- The status while a step is not completed, which is written when the step's message changed.
    unfoldable pub auto_cancel_step_waits : String → Handled
    auto_cancel_step_waits step_message =
        if step_message == step.message
        then waits (requeue_after api.step_running_requeue)
        else writes_status
            (record operation.status {
              auto_cancel_steps = put_step before (record step { message = step_message }) after;
              message = cancel_message step.name (join "" (" 进行中: " ∷ step_message ∷ []));
            })
            (requeue_after api.step_running_requeue)

    abbrev pub auto_cancel_executed : Executed → Outcome String Bool → Handled
    auto_cancel_executed x (err e) =
        fail_failover_auto_cancel api operation x.instance before step after e
    auto_cancel_executed x (ok false) = auto_cancel_step_waits x.step_message
    auto_cancel_executed x (ok true) = writes_status auto_cancel_step_completed requeue

    unfoldable pub run_auto_cancel_step : Clusters → Handled
    run_auto_cancel_step clusters =
        let minutes = effective_operation_timeout_minutes api operation i in
        let elapsed = elapsed_since api.now step.start_time in
        let x = execute_cancel_step api clusters operation i step in
        if timed_out api.now minutes step
        then fail_failover_auto_cancel api operation i before step after
            (build_step_timeout_message api.duration_text elapsed minutes step)
        else after_writes x.writes (auto_cancel_executed x x.completed)

  unfoldable pub auto_cancel_at : Clusters → Cursor → Handled
  auto_cancel_at clusters finished = complete_failover_auto_cancel api operation i
  auto_cancel_at clusters (at before step after) =
      if is_pending step.state
      then writes_status (auto_cancel_step_started before step after)
          (requeue_after api.step_start_requeue)
      else run_auto_cancel_step before step after clusters

unfoldable pub handle_failover_auto_cancel_path : Api → Clusters → Operation → Instance → Handled
handle_failover_auto_cancel_path api clusters operation i =
    auto_cancel_at api operation i clusters (next_step operation.status.auto_cancel_steps)
