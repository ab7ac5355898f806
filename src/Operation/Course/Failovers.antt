-- ===== src/Operation/Course/Failovers.antt =====
-- internal/controller/disasteroperation/controller.go: the moves of `handleFailover`.
use testudo_operator.Base.{inl, ◌≡◌, refl, true, not, ◌&&◌, List, [], ◌∷◌, is_empty, if-cases}
use testudo_operator.Base.Assoc.{lookup}
use testudo_operator.Drill.Types.{Answer, found, not_found, failed_request}
use testudo_operator.Operation.Types.{
  FsmState, failing_over, active, StepStatus, OperationStatus, Operation, Instance, Handled, Api,
  Clusters, update_operation,
}
use testudo_operator.Operation.Steps.{
  is_pending, Cursor, finished, at, next_step, with_steps, initial_steps,
}
use testudo_operator.Operation.Steps.Order.{AtStep}
use testudo_operator.Operation.Each.{Each-waits, Each-status, Each-writes}
use testudo_operator.Operation.Failover.{
  failover_at, finish_failover, switch_latest, switch_by, failed_over_status, continue_failover,
  initialize_failover_steps, is_set, target_primary, compensates, failover_step_names,
  with_target_roles,
}
use testudo_operator.Operation.Course.{keeps, begins, Next}
use testudo_operator.Operation.Course.Handlers.{
  E, StopsAt, next_step-StopsAt, started-Follows, run_failover-Follows,
}
use testudo_operator.Operation.Course.Compensation.{compensation-Follows}

pub nil-of_is_empty : (ss : List StepStatus) → is_empty ss ≡ true → ss ≡ []
nil-of_is_empty [] h = refl
nil-of_is_empty (s ∷ ss) h = absurd (cc)

module _ (api : Api) (operation : Operation) (clusters : Clusters) where
  abbrev old : OperationStatus
  old = operation.status

  abbrev M : Handled → Type 0
  M = E api operation

  -- The handlers of a failover.
  switch-Follows : (latest : Instance) (s : FsmState) → M (switch_by api operation latest s)
  unfolding failed_over_status
  switch-Follows latest failing_over = Each-writes _ _ _ (tt, (keeps refl (inl refl), tt))
  switch-Follows latest active = Each-status _ _ _ (keeps refl (inl refl))
  switch-Follows latest _ = Each-waits _ _

  finish_failover-Follows : (i : Instance) → M (finish_failover api operation i)
  unfolding finish_failover
  finish_failover-Follows i = answered (api.latest_instance i.name)
    where
      answered : (a : Answer Instance) → M (switch_latest api operation a)
      answered (found latest) = switch-Follows latest latest.fsm_state
      answered (not_found e) = Each-waits _ _
      answered (failed_request e) = Each-waits _ _

  failover_at-Follows :
      (i : Instance) (c : Cursor)
      → AtStep (StopsAt old) c
      → M (failover_at api operation clusters i c)
  unfolding failover_at
  failover_at-Follows i finished h = finish_failover-Follows i
  failover_at-Follows i (at before step after) h =
      if-cases M (is_pending step.state) _ _
        (λ e. Each-status _ _ _ (started-Follows api operation before step after h e))
        (λ e. run_failover-Follows api operation before step after h e clusters i)

  initialized-Follows : (i : Instance) → old.steps ≡ [] → M (initialize_failover_steps operation i)
  unfolding initialize_failover_steps with_steps initial_steps
  initialized-Follows i e =
      if-cases M (is_set (lookup target_primary operation.annotations)) _ _
        (λ q.
          Each-status _ (with_steps "PreCheck" failover_step_names old) _
            (begins e (refl, (refl, (refl, (refl, (refl, (refl, (refl, tt)))))))))
        (λ q.
          Each-writes (Next old) (update_operation (with_target_roles i operation) ∷ []) _ (tt, tt))

  pub continue_failover-Follows : (i : Instance) → M (continue_failover api operation clusters i)
  unfolding continue_failover
  continue_failover-Follows i =
      if-cases M (is_empty old.steps) _ _ (λ e. initialized-Follows i (nil-of_is_empty old.steps e))
        (λ e.
          if-cases M (compensates old.auto_cancel_status && not (is_empty old.auto_cancel_steps)) _
            _ (λ q. compensation-Follows api operation i clusters)
            (λ q. failover_at-Follows i (next_step old.steps) (next_step-StopsAt old)))
