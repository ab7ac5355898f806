-- ===== src/Operation/Course/Compensation.antt =====
-- internal/controller/disasteroperation/controller.go: the compensation of a failover leaves its own
-- steps alone.
use testudo_operator.Base.{inl, inr, refl, String, Bool, true, false, List, ◌==◌, if-cases}
use testudo_operator.Base.Outcome.{Outcome, ok, err}
use testudo_operator.Drill.Types.{Answer, found, not_found, failed_request}
use testudo_operator.Operation.Types.{
  StepStatus, Operation, Instance, Handled, Executed, Api, Clusters,
}
use testudo_operator.Operation.Steps.{is_pending, Cursor, finished, at, next_step, timed_out}
use testudo_operator.Operation.Each.{Each, Each-waits, Each-status, Each-writes, Each-after}
use testudo_operator.Operation.Each.Parts.{settle-All, cancel_step-All}
use testudo_operator.Operation.AutoCancel.{
  fail_failover_auto_cancel, auto_cancel_failed_status, complete_failover_auto_cancel, compensate,
  compensated_status, auto_cancel_step_started, auto_cancel_step_completed, auto_cancel_step_waits,
  auto_cancel_executed, run_auto_cancel_step, auto_cancel_at, handle_failover_auto_cancel_path,
  execute_cancel_step, effective_operation_timeout_minutes,
}
use testudo_operator.Operation.Course.{keeps, Next}

module _ (api : Api) (operation : Operation) (i : Instance) where
  abbrev E : Handled → Type 0
  E = Each (Next operation.status)

  fail-Follows :
      (j : Instance) (before : List StepStatus) (step : StepStatus) (after : List StepStatus)
      (message : String)
      → E (fail_failover_auto_cancel api operation j before step after message)
  unfolding fail_failover_auto_cancel auto_cancel_failed_status
  fail-Follows j before step after message =
      Each-after _ _ _ (settle-All (Next operation.status) api _ j step.name message (λ k t. tt))
        (Each-status _ _ _ (keeps refl (inr refl)))

  complete-Follows : E (complete_failover_auto_cancel api operation i)
  unfolding complete_failover_auto_cancel compensated_status
  complete-Follows = answered (api.latest_instance i.name)
    where
      answered : (a : Answer Instance) → E (compensate api operation i a)
      answered (found latest) = Each-writes _ _ _ (tt, (keeps refl (inr refl), tt))
      answered (not_found e) = Each-waits _ _
      answered (failed_request e) = Each-waits _ _

  executed-Follows :
      (before : List StepStatus) (step : StepStatus) (after : List StepStatus) (x : Executed)
      (r : Outcome String Bool)
      → E (auto_cancel_executed api operation i before step after x r)
  unfolding auto_cancel_step_waits auto_cancel_step_completed
  executed-Follows before step after x (err e) = fail-Follows x.instance before step after e
  executed-Follows before step after x (ok true) = Each-status _ _ _ (keeps refl (inl refl))
  executed-Follows before step after x (ok false) =
      if-cases E (x.step_message == step.message) _ _ (λ q. Each-waits _ _)
        (λ q. Each-status _ _ _ (keeps refl (inl refl)))

  at-Follows : (clusters : Clusters) (c : Cursor) → E (auto_cancel_at api operation i clusters c)
  unfolding auto_cancel_at run_auto_cancel_step auto_cancel_step_started
  at-Follows clusters finished = complete-Follows
  at-Follows clusters (at before step after) =
      let x = execute_cancel_step api clusters operation i step in
      if-cases E (is_pending step.state) _ _ (λ q. Each-status _ _ _ (keeps refl (inl refl)))
        (λ q.
          if-cases E (timed_out api.now (effective_operation_timeout_minutes api operation i) step)
            _ _ (λ p. fail-Follows i before step after _)
            (λ p.
              Each-after (Next operation.status) x.writes
                (auto_cancel_executed api operation i before step after x x.completed)
                (cancel_step-All (Next operation.status) (λ n b. tt) (λ n b. tt) api clusters
                  operation i step)
                (executed-Follows before step after x x.completed)))

  pub compensation-Follows :
      (clusters : Clusters) → E (handle_failover_auto_cancel_path api clusters operation i)
  unfolding handle_failover_auto_cancel_path
  compensation-Follows clusters = at-Follows clusters (next_step operation.status.auto_cancel_steps)
