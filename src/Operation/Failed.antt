-- ===== src/Operation/Failed.antt =====
-- internal/controller/disasteroperation/controller.go: a step of a reprotection, a cancellation or an
-- undo that fails or takes too long.
use testudo_operator.Base.{ℕ, String, some, List, [], ◌∷◌}
use testudo_operator.Base.Text.{join}
use testudo_operator.Drill.Types.{operation_failed, done}
use testudo_operator.Operation.Types.{
  OperationType, StepStatus, OperationStatus, Operation, Instance, update_status, Handled, Api,
}
use testudo_operator.Operation.Steps.{
  put_step, mark_step_failed, elapsed_since, build_step_timeout_message, after_writes,
}
use testudo_operator.Operation.Failure.{
  fail_operation_on_step_error, settle_instance_state_on_step_failure,
}

module _ (api : Api) (operation : Operation) (t : OperationType) where
  unfoldable pub timed_out_status :
      List StepStatus → StepStatus → List StepStatus → String → OperationStatus
  timed_out_status before step after message = record operation.status {
    steps = put_step before (mark_step_failed api.now message step) after;
    state = operation_failed;
    completion_time = some api.now;
    message = join "" ("步骤 " ∷ step.name ∷ " 超时: " ∷ message ∷ []);
  }

  -- The branch of the step loop for a step that took longer than `minutes`.
  unfoldable pub step_timed_out :
      ℕ → Instance → List StepStatus → StepStatus → List StepStatus → Handled
  step_timed_out minutes i before step after =
      let message =
        build_step_timeout_message api.duration_text (elapsed_since api.now step.start_time) minutes
          step in
      after_writes (settle_instance_state_on_step_failure api t i step.name message)
        (update_status (timed_out_status before step after message) ∷ [], done)

  -- The branch of the step loop for a step whose execution gave an error.
  unfoldable pub step_error :
      Instance → List StepStatus → StepStatus → List StepStatus → String → Handled
  step_error i before step after e =
      after_writes (settle_instance_state_on_step_failure api t i step.name e) (
        update_status (fail_operation_on_step_error api.now operation.status before step after e)
            ∷ [],
        done,
      )
