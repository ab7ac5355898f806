-- ===== src/Operation/Cancel.antt =====
-- internal/controller/disasteroperation/controller.go: `handleCancel`, which stops a failover, and
-- `handlePause` and `handleResume`.
pub mod Protects
use testudo_operator.Base.{
  ℕ, String, Bool, true, false, not, Option, none, some, List, [], ◌∷◌, ◌++◌, ◌==◌, is_empty, ◌&&◌,
  ◌||◌, if◌then◌else◌,
}
use testudo_operator.Base.Outcome.{Outcome, ok, err}
use testudo_operator.Base.Text.{join}
use testudo_operator.Drill.Types.{
  operation_completed, Answer, found, done, requeue, request_error, requeue_after,
}
use testudo_operator.Operation.Types.{
  cancel, FsmState, protected, failing_over, fsm_failed, paused, StepState, step_unset,
  step_pending, step_running, step_completed, StepStatus, OperationStatus, Operation, Instance,
  Write, update_instance, update_status, pause_data_sync, pause_resource_sync, Handled, Executed,
  Api, Clusters, Sync, waits, writes_status, fsm_state_text,
}
use testudo_operator.Operation.Steps.{
  is_pending, Cursor, finished, at, next_step, put_step, complete_step, timed_out, fails_with,
  with_steps, started, roles_of, after_writes,
}
use testudo_operator.Operation.Schedules.{execute_resume_schedules, Run}
use testudo_operator.Operation.Failed.{step_timed_out, step_error}
use testudo_operator.Operation.AutoCancel.{
  cancel_step_names, execute_cancel_step, effective_operation_timeout_minutes,
}

unfoldable pub can_run_cancel : FsmState → Bool
can_run_cancel failing_over = true
can_run_cancel fsm_failed = true
can_run_cancel s = false

abbrev pub is_open : StepState → Bool
is_open step_unset = true
is_open step_pending = true
is_open step_running = true
is_open s = false

abbrev pub or_now : ℕ → Option ℕ → Option ℕ
or_now now none = some now
or_now now (some t) = some t

-- One of the expected steps, as an idempotent cancellation leaves it.
unfoldable pub completed_idempotently : ℕ → StepStatus → StepStatus
completed_idempotently now step = record step {
  state = if is_open step.state then step_completed else step.state;
  completion_time = or_now now step.completion_time;
}

unfoldable pub has_step : String → List StepStatus → Bool
has_step name [] = false
has_step name (s ∷ ss) = let rest = has_step name ss in s.name == name || rest

-- The last step of a name, which is the one that `stepIndex` holds, is changed.
unfoldable pub complete_last : ℕ → String → List StepStatus → List StepStatus
complete_last now name [] = []
complete_last now name (s ∷ ss) =
    let rest = complete_last now name ss in
    if s.name == name && not (has_step name ss) then completed_idempotently now s ∷ ss else s ∷ rest

abbrev pub added_step : ℕ → String → StepStatus
added_step now name = record {
  name = name;
  state = step_completed;
  start_time = none;
  completion_time = some now;
  message = "";
}

-- The loop over the expected steps; `old` are the steps that the index was made from.
unfoldable pub complete_expected :
    ℕ → List StepStatus → List String → List StepStatus → List StepStatus
complete_expected now old [] steps = steps
complete_expected now old (name ∷ names) steps =
    complete_expected now old names (
      if has_step name old then complete_last now name steps else steps ++ added_step now name ∷ [])

unfoldable pub complete_cancel_steps_for_protected_idempotency :
    ℕ → List StepStatus → List StepStatus
complete_cancel_steps_for_protected_idempotency now steps =
    complete_expected now steps cancel_step_names steps

module _ (api : Api) (operation : Operation) where
  unfoldable pub idempotent_status : Instance → OperationStatus
  idempotent_status i = record operation.status {
    steps = complete_cancel_steps_for_protected_idempotency api.now operation.status.steps;
    state = operation_completed;
    completion_time = some api.now;
    current_step = "";
    reason = "";
    message = "实例已处于 Protected，Cancel 已按幂等操作完成";
    role_status = some (roles_of i);
  }

  abbrev pub cancel_idempotently : Instance → Run → Handled
  cancel_idempotently i (ws, err e) =
      after_writes ws
        (fails_with operation.status (join "" ("实例已处于 Protected，但恢复同步调度失败: " ∷ e ∷ [])))
  cancel_idempotently i (ws, ok b) = after_writes ws (writes_status (idempotent_status i) done)

  unfoldable pub cancelled_status : Instance → OperationStatus
  cancelled_status i = record operation.status {
    state = operation_completed;
    completion_time = some api.now;
    role_status = some (roles_of i);
  }

  abbrev pub protect_cancelled : Answer Instance → Handled
  protect_cancelled (found latest) = (
    update_instance (record latest { fsm_state = protected })
        ∷ update_status (cancelled_status latest)
        ∷ [],
    done,
  )
  protect_cancelled answer = waits request_error

  unfoldable pub finish_cancel : Instance → Handled
  finish_cancel i = protect_cancelled (api.latest_instance i.name)

  module _ (before : List StepStatus) (step : StepStatus) (after : List StepStatus) where
    -- The message of the step is kept here.
    unfoldable pub cancel_step_done : String → OperationStatus
    cancel_step_done message = record operation.status {
      steps = put_step before (complete_step api.now message step) after;
    }

    abbrev pub cancel_executed : Executed → Outcome String Bool → Handled
    cancel_executed x (err e) = step_error api operation cancel x.instance before step after e
    cancel_executed x (ok false) = waits (requeue_after api.step_running_requeue)
    cancel_executed x (ok true) = writes_status (cancel_step_done x.step_message) requeue

    unfoldable pub run_cancel_step : Clusters → Instance → Handled
    run_cancel_step clusters i =
        let minutes = effective_operation_timeout_minutes api operation i in
        let x = execute_cancel_step api clusters operation i step in
        if timed_out api.now minutes step
        then step_timed_out api operation cancel minutes i before step after
        else after_writes x.writes (cancel_executed x x.completed)

  unfoldable pub cancel_at : Clusters → Instance → Cursor → Handled
  cancel_at clusters i finished = finish_cancel i
  cancel_at clusters i (at before step after) =
      if is_pending step.state
      then writes_status (started api.now operation.status before step after)
          (requeue_after api.step_start_requeue)
      else run_cancel_step before step after clusters i

  unfoldable pub continue_cancel : Clusters → Instance → Handled
  continue_cancel clusters i =
      if is_empty operation.status.steps
      then writes_status
          (with_steps "ScaleDownTarget" ("ScaleUpSource" ∷ "ResumeSchedules" ∷ []) operation.status)
          requeue
      else cancel_at clusters i (next_step operation.status.steps)

  abbrev pub unless_runnable : Clusters → Instance → Bool → Handled
  unless_runnable clusters i true = continue_cancel clusters i
  unless_runnable clusters i false = fails_with operation.status (
      join ""
        ("必须在 FailingOver 或 Failed 状态下才能 Cancel (当前: " ∷ fsm_state_text i.fsm_state ∷ ")" ∷ []))

  abbrev pub enter_cancel : Clusters → Instance → FsmState → Handled
  enter_cancel clusters i protected = cancel_idempotently i (execute_resume_schedules api i)
  enter_cancel clusters i s = unless_runnable clusters i (can_run_cancel s)

  abbrev pub cancel_of : Clusters → Answer Instance → Handled
  cancel_of clusters (found i) = enter_cancel clusters i i.fsm_state
  cancel_of clusters answer = fails_with operation.status "DisasterInstance 未找到"

  unfoldable pub handle_cancel : Clusters → Handled
  handle_cancel clusters = cancel_of clusters (api.instance operation.spec.instance_name)

  abbrev pub paused_by :
      (String → Bool → Write) → (String → Option String) → String → Answer Sync → List Write
  paused_by set error_of name (found s) = elim (error_of name) [
    | none ↦ set name true ∷ []
    | some e ↦ []
  ]
  paused_by set error_of name answer = []

  -- The update of a synchronisation of a paused instance; its errors are only logged.
  unfoldable pub pause_unless_unset :
      (String → Bool → Write)
      → (String → Option String)
      → (String → Answer Sync)
      → String
      → List Write
  pause_unless_unset set error_of get name =
      if name == "" then [] else paused_by set error_of name (get name)

  abbrev pub completes_with : String → OperationStatus
  completes_with message = record operation.status {
    state = operation_completed;
    completion_time = some api.now;
    message = message;
  }

  abbrev pub pause_of : Answer Instance → Handled
  pause_of (found i) = (
    pause_unless_unset pause_data_sync api.data_sync_paused_set api.data_sync i.data_sync_name
        ++ pause_unless_unset pause_resource_sync api.resource_sync_paused_set api.resource_sync
            i.resource_sync_name
        ++ update_instance (record i { fsm_state = paused })
          ∷ update_status (completes_with "同步已暂停")
          ∷ [],
    done,
  )
  pause_of answer = fails_with operation.status "DisasterInstance 未找到"

  unfoldable pub handle_pause : Handled
  handle_pause = pause_of (api.instance operation.spec.instance_name)

  abbrev pub resume_with : Instance → Run → Handled
  resume_with i (ws, err e) = (ws, request_error)
  resume_with i (ws, ok b) = (
    ws
        ++ update_instance (record i { fsm_state = protected })
          ∷ update_status (completes_with "同步已恢复")
          ∷ [],
    done,
  )

  abbrev pub resume_of : Answer Instance → Handled
  resume_of (found i) = resume_with i (execute_resume_schedules api i)
  resume_of answer = fails_with operation.status "DisasterInstance 未找到"

  unfoldable pub handle_resume : Handled
  handle_resume = resume_of (api.instance operation.spec.instance_name)
