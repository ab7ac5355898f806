-- ===== src/Operation/Reprotect.antt =====
-- internal/controller/disasteroperation/controller.go: `handleReprotect`, which sets up the protection
-- in the other direction.
use testudo_operator.Base.{
  ℕ, String, Bool, true, false, Option, none, some, List, [], ◌∷◌, ◌++◌, ◌==◌, is_empty,
  if◌then◌else◌,
}
use testudo_operator.Base.Outcome.{Outcome, ok, err}
use testudo_operator.Base.Text.{join}
use testudo_operator.Drill.Types.{
  operation_completed, Answer, found, not_found, failed_request, done, requeue, request_error,
  requeue_after,
}
use testudo_operator.Operation.Types.{
  reprotect, FsmState, protected, failing_back, active, StepStatus, OperationStatus, Operation,
  Instance, Write, update_instance, update_status, trigger_data_sync, trigger_resource_sync,
  Handled, Executed, Api, Clusters, Sync, waits, writes_status, fsm_state_text,
}
use testudo_operator.Operation.Steps.{
  is_pending, Cursor, finished, at, next_step, put_step, complete_step, timed_out, fails_with,
  with_steps, started, roles_of, after_writes,
}
use testudo_operator.Operation.Schedules.{execute_resume_schedules, Run}
use testudo_operator.Operation.Failed.{step_timed_out, step_error}
use testudo_operator.Operation.Failover.{execute_failover_step}

-- The update of a synchronisation that is read before it; both errors are only logged.
abbrev pub trigger_found :
    (String → ℕ → Write) → (String → Option String) → ℕ → String → Answer Sync → List Write
trigger_found trigger error_of now name (found s) = elim (error_of name) [
  | none ↦ trigger name now ∷ []
  | some e ↦ []
]
trigger_found trigger error_of now name answer = []

unfoldable pub trigger_unless_unset :
    (String → ℕ → Write)
    → (String → Option String)
    → (String → Answer Sync)
    → ℕ
    → String
    → List Write
trigger_unless_unset trigger error_of get now name =
    if name == "" then [] else trigger_found trigger error_of now name (get name)

module _ (api : Api) (operation : Operation) where
  unfoldable pub manual_triggers : Instance → List Write
  manual_triggers i =
      if operation.spec.skip_final_sync
      then []
      else trigger_unless_unset trigger_data_sync api.data_sync_triggered api.data_sync api.now
          i.data_sync_name
        ++ trigger_unless_unset trigger_resource_sync api.resource_sync_triggered api.resource_sync
            api.now i.resource_sync_name

  unfoldable pub reprotected_status : Instance → OperationStatus
  reprotected_status i = record operation.status {
    state = operation_completed;
    completion_time = some api.now;
    current_step = "";
    role_status = some (roles_of i);
    message = "反向保护成功完成 (反向同步已建立)";
  }

  abbrev pub resumed : Instance → Run → Handled
  resumed i (ws, err e) = (ws, request_error)
  resumed i (ws, ok b) = (
    ws
        ++ manual_triggers i
        ++ update_instance (record i { fsm_state = protected })
          ∷ update_status (reprotected_status i)
          ∷ [],
    done,
  )

  unfoldable pub finish_reprotect : Instance → Handled
  finish_reprotect i = resumed i (execute_resume_schedules api i)

  module _ (before : List StepStatus) (step : StepStatus) (after : List StepStatus) where
    unfoldable pub step_done : OperationStatus
    step_done = record operation.status {
      steps = put_step before (complete_step api.now "已完成" step) after;
    }

    abbrev pub reprotect_executed : Executed → Outcome String Bool → Handled
    reprotect_executed x (err e) = step_error api operation reprotect x.instance before step after e
    reprotect_executed x (ok false) = waits (requeue_after api.step_running_requeue)
    reprotect_executed x (ok true) = writes_status step_done requeue

    unfoldable pub run_reprotect_step : Clusters → Instance → Handled
    run_reprotect_step clusters i =
        let minutes = operation.spec.timeout_minutes in
        let x = execute_failover_step api clusters operation i step in
        if timed_out api.now minutes step
        then step_timed_out api operation reprotect minutes i before step after
        else after_writes x.writes (reprotect_executed x x.completed)

  unfoldable pub reprotect_at : Clusters → Instance → Cursor → Handled
  reprotect_at clusters i finished = finish_reprotect i
  reprotect_at clusters i (at before step after) =
      if is_pending step.state
      then writes_status (started api.now operation.status before step after)
          (requeue_after api.step_start_requeue)
      else run_reprotect_step before step after clusters i

  unfoldable pub continue_reprotect : Clusters → Instance → Handled
  continue_reprotect clusters i =
      if is_empty operation.status.steps
      then writes_status (with_steps "PreCheck" ("PauseSchedules" ∷ []) operation.status) requeue
      else reprotect_at clusters i (next_step operation.status.steps)

  abbrev pub enter_reprotect : Clusters → Instance → FsmState → Handled
  enter_reprotect clusters i active =
      let entered = record i { fsm_state = failing_back } in
      after_writes (update_instance entered ∷ []) (continue_reprotect clusters entered)
  enter_reprotect clusters i failing_back = continue_reprotect clusters i
  enter_reprotect clusters i s =
      fails_with operation.status
        (join "" ("实例处于 " ∷ fsm_state_text s ∷ " 状态，无法执行回切（必须为 Active）" ∷ []))

  abbrev pub reprotect_of : Clusters → Answer Instance → Handled
  reprotect_of clusters (found i) = enter_reprotect clusters i i.fsm_state
  reprotect_of clusters (not_found e) = fails_with operation.status "DisasterInstance 未找到"
  reprotect_of clusters (failed_request e) = waits request_error

  unfoldable pub handle_reprotect : Clusters → Handled
  handle_reprotect clusters = reprotect_of clusters (api.instance operation.spec.instance_name)
