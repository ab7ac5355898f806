-- ===== src/Operation/Course/Loops.antt =====
-- internal/controller/disasteroperation/controller.go: the step loops of the handlers follow the
-- abstract machine.
use testudo_operator.Base.{
  inl, ◌≡◌, refl, String, Bool, true, false, List, [], ◌∷◌, ◌++◌, All, All-append, is_empty,
  if-cases,
}
use testudo_operator.Base.Outcome.{Outcome, ok, err}
use testudo_operator.Drill.Types.{done, Answer, found, not_found, failed_request}
use testudo_operator.Operation.Types.{
  reprotect, undo, cancel, FsmState, protected, StepStatus, OperationStatus, Operation, Instance,
  Handled, Executed, Api, Clusters, Write, update_instance, update_status,
}
use testudo_operator.Operation.Steps.{
  is_pending, Cursor, finished, at, next_step, timed_out, with_steps, initial_steps,
}
use testudo_operator.Operation.Steps.Order.{AtStep}
use testudo_operator.Operation.Each.{Each-waits, Each-status, Each-writes, Each-after}
use testudo_operator.Operation.Each.Parts.{
  failover_step-All, cancel_step-All, undo_step-All, resume_schedules-All,
}
use testudo_operator.Operation.Each.Triggers.{manual_triggers-All}
use testudo_operator.Operation.Schedules.{Run, execute_resume_schedules}
use testudo_operator.Operation.AutoCancel.{execute_cancel_step, effective_operation_timeout_minutes}
use testudo_operator.Operation.Failover.{execute_failover_step}
use testudo_operator.Operation.Reprotect.{
  reprotect_at, run_reprotect_step, reprotect_executed, step_done, finish_reprotect, resumed,
  reprotected_status, manual_triggers, continue_reprotect,
}
use testudo_operator.Operation.Undo.{
  execute_undo_step, undo_at, run_undo_step, undo_executed, undo_step_done, finish_undo,
  protect_latest, protect_by, undone_status, continue_undo, undo_step_names,
}
use testudo_operator.Operation.Cancel.{
  cancel_at, run_cancel_step, cancel_executed, cancel_step_done, finish_cancel, protect_cancelled,
  cancelled_status, continue_cancel,
}
use testudo_operator.Operation.Course.{keeps, begins, Next}
use testudo_operator.Operation.Course.Handlers.{
  E, StopsAt, next_step-StopsAt, started-Follows, completed-Follows, timed_out-Follows,
  error-Follows,
}
use testudo_operator.Operation.Course.Failovers.{nil-of_is_empty}

module _ (api : Api) (operation : Operation) (clusters : Clusters) where
  abbrev old : OperationStatus
  old = operation.status

  abbrev M : Handled → Type 0
  M = E api operation

  -- The handlers of a reprotection.
  triggers-Follows : (i : Instance) → All (Next old) (manual_triggers api operation i)
  triggers-Follows i = manual_triggers-All (Next old) (λ n t. tt) (λ n t. tt) api operation i

  resumed-Follows : (i : Instance) (r : Run) → All (Next old) r.0 → M (resumed api operation i r)
  unfolding reprotected_status
  resumed-Follows i (ws, err e) h = Each-writes _ _ _ h
  resumed-Follows i (ws, ok b) h =
      let last : List Write =
        update_instance (record i { fsm_state = protected })
        ∷ update_status (reprotected_status api operation i)
        ∷ [] in
      Each-writes (Next old) (ws ++ manual_triggers api operation i ++ last) done (
        All-append (Next old) (ws ++ manual_triggers api operation i) last
          (All-append (Next old) ws (manual_triggers api operation i) h (triggers-Follows i))
          (tt, (keeps refl (inl refl), tt)))

  finish_reprotect-Follows : (i : Instance) → M (finish_reprotect api operation i)
  unfolding finish_reprotect
  finish_reprotect-Follows i =
      resumed-Follows i (execute_resume_schedules api i)
        (resume_schedules-All (Next old) (λ n b. tt) (λ n b. tt) api i)

  reprotect_executed-Follows :
      (before : List StepStatus) (step : StepStatus) (after : List StepStatus)
      → StopsAt old before step after
      → is_pending step.state ≡ false
      → (x : Executed) (r : Outcome String Bool)
      → M (reprotect_executed api operation before step after x r)
  unfolding step_done
  reprotect_executed-Follows before step after h e x (err m) =
      error-Follows api operation before step after h e reprotect x.instance m
  reprotect_executed-Follows before step after h e x (ok true) =
      Each-status _ _ _ (completed-Follows api operation before step after h e "已完成")
  reprotect_executed-Follows before step after h e x (ok false) = Each-waits _ _

  reprotect_at-Follows :
      (i : Instance) (c : Cursor)
      → AtStep (StopsAt old) c
      → M (reprotect_at api operation clusters i c)
  unfolding reprotect_at run_reprotect_step
  reprotect_at-Follows i finished h = finish_reprotect-Follows i
  reprotect_at-Follows i (at before step after) h =
      let x = execute_failover_step api clusters operation i step in
      if-cases M (is_pending step.state) _ _
        (λ e. Each-status _ _ _ (started-Follows api operation before step after h e))
        (λ e.
          if-cases M (timed_out api.now operation.spec.timeout_minutes step) _ _
            (λ q. timed_out-Follows api operation before step after h e reprotect _ i)
            (λ q.
              Each-after (Next old) x.writes
                (reprotect_executed api operation before step after x x.completed)
                (failover_step-All (Next old) (λ n b. tt) (λ n b. tt) api clusters operation i step)
                (reprotect_executed-Follows before step after h e x x.completed)))

  pub continue_reprotect-Follows : (i : Instance) → M (continue_reprotect api operation clusters i)
  unfolding continue_reprotect with_steps initial_steps
  continue_reprotect-Follows i =
      if-cases M (is_empty old.steps) _ _
        (λ e.
          Each-status _ (with_steps "PreCheck" ("PauseSchedules" ∷ []) old) _
            (begins (nil-of_is_empty old.steps e) (refl, (refl, tt))))
        (λ e. reprotect_at-Follows i (next_step old.steps) (next_step-StopsAt old))

  -- The handlers of an undo.
  finish_undo-Follows : (i : Instance) → M (finish_undo api operation i)
  unfolding finish_undo undone_status
  finish_undo-Follows i = answered (api.latest_instance i.name)
    where
      by_fsm_state : (latest : Instance) (s : FsmState) → M (protect_by api operation latest s)
      by_fsm_state latest protected = Each-status _ _ _ (keeps refl (inl refl))
      by_fsm_state latest _ = Each-writes _ _ _ (tt, (keeps refl (inl refl), tt))

      answered : (a : Answer Instance) → M (protect_latest api operation a)
      answered (found latest) = by_fsm_state latest latest.fsm_state
      answered (not_found e) = Each-waits _ _
      answered (failed_request e) = Each-waits _ _

  undo_executed-Follows :
      (before : List StepStatus) (step : StepStatus) (after : List StepStatus)
      → StopsAt old before step after
      → is_pending step.state ≡ false
      → (x : Executed) (r : Outcome String Bool)
      → M (undo_executed api operation before step after x r)
  unfolding undo_step_done
  undo_executed-Follows before step after h e x (err m) =
      error-Follows api operation before step after h e undo x.instance m
  undo_executed-Follows before step after h e x (ok true) =
      Each-status _ _ _ (completed-Follows api operation before step after h e "已完成")
  undo_executed-Follows before step after h e x (ok false) = Each-waits _ _

  undo_at-Follows :
      (i : Instance) (c : Cursor) → AtStep (StopsAt old) c → M (undo_at api operation clusters i c)
  unfolding undo_at run_undo_step
  undo_at-Follows i finished h = finish_undo-Follows i
  undo_at-Follows i (at before step after) h =
      let x = execute_undo_step api clusters operation i step in
      if-cases M (is_pending step.state) _ _
        (λ e. Each-status _ _ _ (started-Follows api operation before step after h e))
        (λ e.
          if-cases M (timed_out api.now operation.spec.timeout_minutes step) _ _
            (λ q. timed_out-Follows api operation before step after h e undo _ i)
            (λ q.
              Each-after (Next old) x.writes
                (undo_executed api operation before step after x x.completed)
                (undo_step-All (Next old) (λ n b. tt) (λ n b. tt) api clusters operation i step
                  (λ c j. tt))
                (undo_executed-Follows before step after h e x x.completed)))

  pub continue_undo-Follows : (i : Instance) → M (continue_undo api operation clusters i)
  unfolding continue_undo with_steps initial_steps
  continue_undo-Follows i =
      if-cases M (is_empty old.steps) _ _
        (λ e.
          Each-status _ (with_steps "ScaleDownTarget" undo_step_names old) _
            (begins (nil-of_is_empty old.steps e) (refl, (refl, (refl, (refl, tt))))))
        (λ e. undo_at-Follows i (next_step old.steps) (next_step-StopsAt old))

  -- The handlers of a cancellation.
  finish_cancel-Follows : (i : Instance) → M (finish_cancel api operation i)
  unfolding finish_cancel cancelled_status
  finish_cancel-Follows i = answered (api.latest_instance i.name)
    where
      answered : (a : Answer Instance) → M (protect_cancelled api operation a)
      answered (found latest) = Each-writes _ _ _ (tt, (keeps refl (inl refl), tt))
      answered (not_found e) = Each-waits _ _
      answered (failed_request e) = Each-waits _ _

  cancel_executed-Follows :
      (before : List StepStatus) (step : StepStatus) (after : List StepStatus)
      → StopsAt old before step after
      → is_pending step.state ≡ false
      → (x : Executed) (r : Outcome String Bool)
      → M (cancel_executed api operation before step after x r)
  unfolding cancel_step_done
  cancel_executed-Follows before step after h e x (err m) =
      error-Follows api operation before step after h e cancel x.instance m
  cancel_executed-Follows before step after h e x (ok true) =
      Each-status _ _ _ (completed-Follows api operation before step after h e x.step_message)
  cancel_executed-Follows before step after h e x (ok false) = Each-waits _ _

  cancel_at-Follows :
      (i : Instance) (c : Cursor)
      → AtStep (StopsAt old) c
      → M (cancel_at api operation clusters i c)
  unfolding cancel_at run_cancel_step
  cancel_at-Follows i finished h = finish_cancel-Follows i
  cancel_at-Follows i (at before step after) h =
      let x = execute_cancel_step api clusters operation i step in
      if-cases M (is_pending step.state) _ _
        (λ e. Each-status _ _ _ (started-Follows api operation before step after h e))
        (λ e.
          if-cases M (timed_out api.now (effective_operation_timeout_minutes api operation i) step)
            _ _ (λ q. timed_out-Follows api operation before step after h e cancel _ i)
            (λ q.
              Each-after (Next old) x.writes
                (cancel_executed api operation before step after x x.completed)
                (cancel_step-All (Next old) (λ n b. tt) (λ n b. tt) api clusters operation i step)
                (cancel_executed-Follows before step after h e x x.completed)))

  pub continue_cancel-Follows : (i : Instance) → M (continue_cancel api operation clusters i)
  unfolding continue_cancel with_steps initial_steps
  continue_cancel-Follows i =
      if-cases M (is_empty old.steps) _ _
        (λ e.
          Each-status _
            (with_steps "ScaleDownTarget" ("ScaleUpSource" ∷ "ResumeSchedules" ∷ []) old) _
            (begins (nil-of_is_empty old.steps e) (refl, (refl, (refl, tt)))))
        (λ e. cancel_at-Follows i (next_step old.steps) (next_step-StopsAt old))
