-- ===== src/Operation/Undo.antt =====
-- internal/controller/disasteroperation/controller.go: `handleUndo`, which gives up a failover and goes
-- back to the original cluster.
use testudo_operator.Base.{
  Option, none, String, Bool, true, false, some, List, [], ◌∷◌, ◌==◌, is_empty, if◌then◌else◌,
}
use testudo_operator.Base.Outcome.{Outcome, ok, err}
use testudo_operator.Base.Text.{join}
use testudo_operator.Drill.Types.{
  operation_completed, Answer, found, not_found, failed_request, done, requeue, request_error,
  requeue_after,
}
use testudo_operator.Operation.Types.{
  undo, FsmState, protected, failing_over, active, StepStatus, OperationStatus, Operation, Instance,
  Config, update_instance, update_status, Handled, Executed, Executor, Api, Clusters, waits,
  writes_status, fsm_state_text,
}
use testudo_operator.Operation.Steps.{
  is_pending, Cursor, finished, at, next_step, put_step, complete_step, timed_out, fails_with,
  with_steps, started, roles_of, after_writes,
}
use testudo_operator.Operation.Schedules.{
  execute_resume_schedules, executed_run, executed_remote, completes,
}
use testudo_operator.Operation.Failed.{step_timed_out, step_error}
use testudo_operator.Operation.AutoCancel.{with_config}

-- The instance with the roles of its configuration.
unfoldable pub original_roles : Config → Instance → Instance
original_roles config i = record i {
  primary_cluster = config.source_cluster;
  secondary_cluster = config.target_cluster;
}

-- The update of the instance, whose error is that of the step.
abbrev pub updated : StepStatus → Instance → Instance → Option String → Executed
updated step i changed (some e) = executed_run i step ([], err e)
updated step i changed none = record {
  writes = update_instance changed ∷ [];
  instance = changed;
  step_message = step.message;
  completed = ok true;
}

abbrev pub switch_latest : Api → StepStatus → Instance → Config → Answer Instance → Executed
switch_latest api step i config (found latest) =
    let changed = original_roles config latest in
    updated step i changed (api.instance_updated changed)
switch_latest api step i config (not_found e) = executed_run i step ([], err e)
switch_latest api step i config (failed_request e) = executed_run i step ([], err e)

unfoldable pub execute_undo_step : Api → Clusters → Executor
execute_undo_step api clusters operation i step =
    if step.name == "ScaleDownTarget"
    then executed_remote i (clusters.scale_down_source operation i step)
    else if step.name == "ScaleUpSource"
    then executed_remote i (clusters.scale_up_target operation i step)
    else if step.name == "SwitchRoles"
    then with_config i step (λ config. switch_latest api step i config (api.latest_instance i.name))
        (api.config i)
    else if step.name == "ResumeSchedules"
    then executed_run i step (execute_resume_schedules api i)
    else executed_run i step completes

abbrev pub undo_step_names : List String
undo_step_names = "ScaleUpSource" ∷ "SwitchRoles" ∷ "ResumeSchedules" ∷ []

module _ (api : Api) (operation : Operation) where
  unfoldable pub undone_status : Instance → OperationStatus
  undone_status i = record operation.status {
    state = operation_completed;
    completion_time = some api.now;
    current_step = "";
    role_status = some (roles_of i);
    message = "撤销切换成功完成 (原集群已恢复)";
  }

  abbrev pub protect_by : Instance → FsmState → Handled
  protect_by latest protected = writes_status (undone_status latest) done
  protect_by latest s = (
    update_instance (record latest { fsm_state = protected })
        ∷ update_status (undone_status latest)
        ∷ [],
    done,
  )

  abbrev pub protect_latest : Answer Instance → Handled
  protect_latest (found latest) = protect_by latest latest.fsm_state
  protect_latest answer = waits request_error

  unfoldable pub finish_undo : Instance → Handled
  finish_undo i = protect_latest (api.latest_instance i.name)

  module _ (before : List StepStatus) (step : StepStatus) (after : List StepStatus) where
    unfoldable pub undo_step_done : OperationStatus
    undo_step_done = record operation.status {
      steps = put_step before (complete_step api.now "已完成" step) after;
    }

    abbrev pub undo_executed : Executed → Outcome String Bool → Handled
    undo_executed x (err e) = step_error api operation undo x.instance before step after e
    undo_executed x (ok false) = waits (requeue_after api.step_running_requeue)
    undo_executed x (ok true) = writes_status undo_step_done requeue

    unfoldable pub run_undo_step : Clusters → Instance → Handled
    run_undo_step clusters i =
        let minutes = operation.spec.timeout_minutes in
        let x = execute_undo_step api clusters operation i step in
        if timed_out api.now minutes step
        then step_timed_out api operation undo minutes i before step after
        else after_writes x.writes (undo_executed x x.completed)

  unfoldable pub undo_at : Clusters → Instance → Cursor → Handled
  undo_at clusters i finished = finish_undo i
  undo_at clusters i (at before step after) =
      if is_pending step.state
      then writes_status (started api.now operation.status before step after)
          (requeue_after api.step_start_requeue)
      else run_undo_step before step after clusters i

  unfoldable pub continue_undo : Clusters → Instance → Handled
  continue_undo clusters i =
      if is_empty operation.status.steps
      then writes_status (with_steps "ScaleDownTarget" undo_step_names operation.status) requeue
      else undo_at clusters i (next_step operation.status.steps)

  abbrev pub enter_undo : Clusters → Instance → FsmState → Handled
  enter_undo clusters i active = continue_undo clusters i
  enter_undo clusters i failing_over = continue_undo clusters i
  enter_undo clusters i s =
      fails_with operation.status
        (join "" ("必须在 Active 或 FailingOver 状态下才能 Undo (当前: " ∷ fsm_state_text s ∷ ")" ∷ []))

  abbrev pub undo_of : Clusters → Answer Instance → Handled
  undo_of clusters (found i) = enter_undo clusters i i.fsm_state
  undo_of clusters answer = fails_with operation.status "DisasterInstance 未找到"

  unfoldable pub handle_undo : Clusters → Handled
  handle_undo clusters = undo_of clusters (api.instance operation.spec.instance_name)
