-- ===== src/Operation/Course/Handlers.antt =====
-- internal/controller/disasteroperation/controller.go: the handlers of a failover, a reprotection, an
-- undo and a cancellation follow the abstract machine.
use testudo_operator.Base.{
  ◌≡◌, refl, ◌⊎◌, String, Bool, true, false, inl, inr, List, ◌==◌, if-cases, ℕ,
}
use testudo_operator.Base.Outcome.{Outcome, ok, err}
use testudo_operator.Drill.Types.{operation_failed}
use testudo_operator.Operation.Types.{
  OperationType, StepStatus, OperationStatus, Operation, Instance, Handled, Executed, Api, Clusters,
  auto_cancel_running, AutoCancelMode, mode_unset, direct_rollback, cancel_path, no_auto_cancel,
}
use testudo_operator.Operation.Steps.{
  is_pending, Cursor, finished, at, next_step, put_step, start_step, complete_step,
  mark_step_failed, timed_out, started,
}
use testudo_operator.Operation.Steps.Order.{
  Stops, AtStep, next_step-Stops, Progress, starts, completes, reports,
}
use testudo_operator.Operation.Each.{Each, Each-waits, Each-status, Each-after}
use testudo_operator.Operation.Each.Parts.{settle-All, failover_step-All}
use testudo_operator.Operation.Failure.{
  fail_operation_on_step_error, resolve_failover_auto_cancel_mode,
}
use testudo_operator.Operation.AutoCancel.{
  by_mode, handle_failover_step_failure, mark_failover_no_auto_cancel, no_auto_cancel_status,
  mark_failover_direct_rollback_success, direct_rollback_status, start_failover_auto_cancel_path,
  auto_cancel_started,
}
use testudo_operator.Operation.Failover.{
  execute_failover_step, run_failover_step, failover_executed, failover_step_waits,
  failover_step_completed,
}
use testudo_operator.Operation.Failed.{step_timed_out, step_error, timed_out_status}
use testudo_operator.Operation.Course.{
  Fails, fails, Follows, advances, stops, Next, running-of_open, pending-of_test,
}

-- Where the loop of a status stops.
pub record StopsAt (status : OperationStatus) (before : List StepStatus) (step : StepStatus)
    (after : List StepStatus) : Type 0 where
  pub on : Stops Progress status.steps before step after
  pub off : Stops Fails status.steps before step after

both-StopsAt :
    (status : OperationStatus) (c : Cursor)
    → AtStep (Stops Progress status.steps) c
    → AtStep (Stops Fails status.steps) c
    → AtStep (StopsAt status) c
both-StopsAt status finished p q = tt
both-StopsAt status (at before step after) p q = record { on = p; off = q }

pub next_step-StopsAt :
    (status : OperationStatus) → AtStep (StopsAt status) (next_step status.steps)
next_step-StopsAt status =
    both-StopsAt status _ (next_step-Stops Progress status.steps)
      (next_step-Stops Fails status.steps)

module _ (api : Api) (operation : Operation) where
  abbrev pub old : OperationStatus
  old = operation.status

  abbrev pub E : Handled → Type 0
  E = Each (Next old)

  module _ (before : List StepStatus) (step : StepStatus) (after : List StepStatus)
      (here : StopsAt old before step after) where
    pub started-Follows :
        is_pending step.state ≡ true → Follows old (started api.now old before step after)
    unfolding started start_step
    started-Follows e =
        advances (here.on.changes _ (starts (pending-of_test step.state e) refl refl)) refl

    pub failed-Follows :
        (message : String) (new : OperationStatus)
        → is_pending step.state ≡ false
        → new.steps ≡ put_step before (mark_step_failed api.now message step) after
        → (new.state ≡ operation_failed) ⊎ (new.auto_cancel_status ≡ auto_cancel_running)
        → Follows old new
    unfolding mark_step_failed
    failed-Follows message new e same stopped =
        stops
          (rw same
            (here.off.changes _ (fails (running-of_open step.state here.on.is_open e) refl refl)))
          stopped

    module _ (e : is_pending step.state ≡ false) where
      pub completed-Follows :
          (message : String)
          → Follows old
              (record old { steps = put_step before (complete_step api.now message step) after })
      unfolding complete_step
      completed-Follows message =
          advances
            (here.on.changes _ (completes (running-of_open step.state here.on.is_open e) refl refl))
            refl

      reported-Follows :
          (message : String)
          → Follows old
              (record old { steps = put_step before (record step { message = message }) after })
      reported-Follows message = advances (here.on.changes _ (reports refl refl)) refl

      by_mode-Follows :
          (i : Instance) (message : String) (m : AutoCancelMode)
          → E (by_mode api operation i before step after message m)
      unfolding mark_failover_no_auto_cancel no_auto_cancel_status
          mark_failover_direct_rollback_success direct_rollback_status
          start_failover_auto_cancel_path auto_cancel_started
      by_mode-Follows i message direct_rollback =
          Each-after _ _ _ (settle-All (Next old) api _ i step.name message (λ j t. tt))
            (Each-status _ _ _ (failed-Follows message _ e refl (inl refl)))
      by_mode-Follows i message cancel_path =
          Each-status _ _ _ (failed-Follows message _ e refl (inr refl))
      by_mode-Follows i message no_auto_cancel =
          Each-after _ _ _ (settle-All (Next old) api _ i step.name message (λ j t. tt))
            (Each-status _ _ _ (failed-Follows message _ e refl (inl refl)))
      by_mode-Follows i message mode_unset =
          Each-after _ _ _ (settle-All (Next old) api _ i step.name message (λ j t. tt))
            (Each-status _ _ _ (failed-Follows message _ e refl (inl refl)))

      failure-Follows :
          (i : Instance) (message : String)
          → E (handle_failover_step_failure api operation i before step after message)
      unfolding handle_failover_step_failure
      failure-Follows i message =
          by_mode-Follows i message (resolve_failover_auto_cancel_mode step.name)

      pub timed_out-Follows :
          (t : OperationType) (minutes : ℕ) (i : Instance)
          → E (step_timed_out api operation t minutes i before step after)
      unfolding step_timed_out timed_out_status
      timed_out-Follows t minutes i =
          Each-after _ _ _ (settle-All (Next old) api t i step.name _ (λ j m. tt))
            (Each-status _ _ _ (failed-Follows _ _ e refl (inl refl)))

      pub error-Follows :
          (t : OperationType) (i : Instance) (message : String)
          → E (step_error api operation t i before step after message)
      unfolding step_error fail_operation_on_step_error
      error-Follows t i message =
          Each-after _ _ _ (settle-All (Next old) api t i step.name message (λ j m. tt))
            (Each-status _ _ _ (failed-Follows _ _ e refl (inl refl)))

      failover_executed-Follows :
          (x : Executed) (r : Outcome String Bool)
          → E (failover_executed api operation before step after x r)
      unfolding failover_step_waits failover_step_completed
      failover_executed-Follows x (err m) = failure-Follows x.instance _
      failover_executed-Follows x (ok true) = Each-status _ _ _ (completed-Follows "已完成")
      failover_executed-Follows x (ok false) =
          if-cases E (x.step_message == step.message) _ _ (λ q. Each-waits _ _)
            (λ q. Each-status _ _ _ (reported-Follows x.step_message))

      pub run_failover-Follows :
          (clusters : Clusters) (i : Instance)
          → E (run_failover_step api operation before step after clusters i)
      unfolding run_failover_step
      run_failover-Follows clusters i =
          let x = execute_failover_step api clusters operation i step in
          if-cases E (timed_out api.now operation.spec.timeout_minutes step) _ _
            (λ q. failure-Follows i _)
            (λ q.
              Each-after (Next old) x.writes
                (failover_executed api operation before step after x x.completed)
                (failover_step-All (Next old) (λ n b. tt) (λ n b. tt) api clusters operation i step)
                (failover_executed-Follows x x.completed))
