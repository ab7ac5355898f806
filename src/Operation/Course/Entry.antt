-- ===== src/Operation/Course/Entry.antt =====
-- internal/controller/disasteroperation/controller.go: the handlers of a failover, a reprotection, an
-- undo and a cancellation, from their first checks on, follow the abstract machine.
use testudo_operator.Base.{
  inl, refl, String, Bool, true, false, Option, none, some, List, [], ◌∷◌, All,
}
use testudo_operator.Base.Outcome.{Outcome, ok, err}
use testudo_operator.Drill.Types.{Answer, found, not_found, failed_request}
use testudo_operator.Operation.Types.{
  FsmState, fsm_unset, fsm_pending, initializing, protected, paused, failing_over, active,
  failing_back, config_error, fsm_failed, OperationStatus, Operation, Instance, Handled, Api,
  Clusters, update_instance,
}
use testudo_operator.Operation.Each.{Each-waits, Each-status, Each-after}
use testudo_operator.Operation.Each.Parts.{resume_schedules-All}
use testudo_operator.Operation.Schedules.{Run, execute_resume_schedules}
use testudo_operator.Operation.InFlight.{find_other_in_flight_operation}
use testudo_operator.Operation.Failover.{
  handle_failover, failover_of, among, unless_conflict, enter_failover, invalid_state,
  continue_failover,
}
use testudo_operator.Operation.Reprotect.{
  handle_reprotect, reprotect_of, enter_reprotect, continue_reprotect,
}
use testudo_operator.Operation.Undo.{handle_undo, undo_of, enter_undo}
use testudo_operator.Operation.Cancel.{
  handle_cancel, cancel_of, enter_cancel, unless_runnable, can_run_cancel, cancel_idempotently,
  idempotent_status,
}
use testudo_operator.Operation.Course.{keeps, ends, Next}
use testudo_operator.Operation.Course.Handlers.{E}
use testudo_operator.Operation.Course.Loops.{
  continue_reprotect-Follows, continue_undo-Follows, continue_cancel-Follows,
}
use testudo_operator.Operation.Course.Failovers.{continue_failover-Follows}
use testudo_operator.Operation.Course.Drills.{fails_with-Follows}

module _ (api : Api) (operation : Operation) (clusters : Clusters) where
  abbrev old : OperationStatus
  old = operation.status

  abbrev M : Handled → Type 0
  M = E api operation

  invalid-Follows : (message : String) → M (invalid_state api operation message)
  unfolding invalid_state
  invalid-Follows message = Each-status _ _ _ (keeps refl (inl refl))

  enter_failover-Follows :
      (i : Instance) (s : FsmState) → M (enter_failover api operation clusters i s)
  enter_failover-Follows i protected =
      let entered = record i { fsm_state = failing_over } in
      Each-after (Next old) (update_instance entered ∷ [])
        (continue_failover api operation clusters entered) (tt, tt)
        (continue_failover-Follows api operation clusters entered)
  enter_failover-Follows i failing_over = continue_failover-Follows api operation clusters i
  enter_failover-Follows i _ = invalid-Follows _

  pub handle_failover-Follows : M (handle_failover api operation clusters)
  unfolding handle_failover
  handle_failover-Follows = answered (api.instance operation.spec.instance_name)
    where
      alone : (i : Instance) (o : Option Operation) → M (unless_conflict api operation clusters i o)
      alone i none = enter_failover-Follows i i.fsm_state
      alone i (some o) = invalid-Follows _

      listed :
          (i : Instance) (os : Outcome String (List Operation))
          → M (among api operation clusters i os)
      listed i (err e) = Each-waits _ _
      listed i (ok os) =
          alone i (find_other_in_flight_operation operation.spec.instance_name operation.name os)

      answered : (a : Answer Instance) → M (failover_of api operation clusters a)
      answered (found i) = listed i api.operations
      answered (not_found e) = fails_with-Follows api operation clusters _
      answered (failed_request e) = Each-waits _ _

  enter_reprotect-Follows :
      (i : Instance) (s : FsmState) → M (enter_reprotect api operation clusters i s)
  enter_reprotect-Follows i active =
      let entered = record i { fsm_state = failing_back } in
      Each-after (Next old) (update_instance entered ∷ [])
        (continue_reprotect api operation clusters entered) (tt, tt)
        (continue_reprotect-Follows api operation clusters entered)
  enter_reprotect-Follows i failing_back = continue_reprotect-Follows api operation clusters i
  enter_reprotect-Follows i _ = fails_with-Follows api operation clusters _

  pub handle_reprotect-Follows : M (handle_reprotect api operation clusters)
  unfolding handle_reprotect
  handle_reprotect-Follows = answered (api.instance operation.spec.instance_name)
    where
      answered : (a : Answer Instance) → M (reprotect_of api operation clusters a)
      answered (found i) = enter_reprotect-Follows i i.fsm_state
      answered (not_found e) = fails_with-Follows api operation clusters _
      answered (failed_request e) = Each-waits _ _

  enter_undo-Follows : (i : Instance) (s : FsmState) → M (enter_undo api operation clusters i s)
  enter_undo-Follows i active = continue_undo-Follows api operation clusters i
  enter_undo-Follows i failing_over = continue_undo-Follows api operation clusters i
  enter_undo-Follows i _ = fails_with-Follows api operation clusters _

  pub handle_undo-Follows : M (handle_undo api operation clusters)
  unfolding handle_undo
  handle_undo-Follows = answered (api.instance operation.spec.instance_name)
    where
      answered : (a : Answer Instance) → M (undo_of api operation clusters a)
      answered (found i) = enter_undo-Follows i i.fsm_state
      answered (not_found e) = fails_with-Follows api operation clusters _
      answered (failed_request e) = fails_with-Follows api operation clusters _

  idempotent-Follows :
      (i : Instance) (r : Run) → All (Next old) r.0 → M (cancel_idempotently api operation i r)
  unfolding idempotent_status
  idempotent-Follows i (ws, err e) h =
      Each-after _ _ _ h (fails_with-Follows api operation clusters _)
  idempotent-Follows i (ws, ok b) h = Each-after _ _ _ h (Each-status _ _ _ (ends refl))

  runnable-Follows : (i : Instance) (b : Bool) → M (unless_runnable api operation clusters i b)
  runnable-Follows i true = continue_cancel-Follows api operation clusters i
  runnable-Follows i false = fails_with-Follows api operation clusters _

  enter_cancel-Follows : (i : Instance) (s : FsmState) → M (enter_cancel api operation clusters i s)
  enter_cancel-Follows i protected =
      idempotent-Follows i (execute_resume_schedules api i)
        (resume_schedules-All (Next old) (λ n b. tt) (λ n b. tt) api i)
  enter_cancel-Follows i failing_over = runnable-Follows i (can_run_cancel failing_over)
  enter_cancel-Follows i fsm_failed = runnable-Follows i (can_run_cancel fsm_failed)
  enter_cancel-Follows i fsm_unset = runnable-Follows i (can_run_cancel fsm_unset)
  enter_cancel-Follows i fsm_pending = runnable-Follows i (can_run_cancel fsm_pending)
  enter_cancel-Follows i initializing = runnable-Follows i (can_run_cancel initializing)
  enter_cancel-Follows i paused = runnable-Follows i (can_run_cancel paused)
  enter_cancel-Follows i active = runnable-Follows i (can_run_cancel active)
  enter_cancel-Follows i failing_back = runnable-Follows i (can_run_cancel failing_back)
  enter_cancel-Follows i config_error = runnable-Follows i (can_run_cancel config_error)

  pub handle_cancel-Follows : M (handle_cancel api operation clusters)
  unfolding handle_cancel
  handle_cancel-Follows = answered (api.instance operation.spec.instance_name)
    where
      answered : (a : Answer Instance) → M (cancel_of api operation clusters a)
      answered (found i) = enter_cancel-Follows i i.fsm_state
      answered (not_found e) = fails_with-Follows api operation clusters _
      answered (failed_request e) = fails_with-Follows api operation clusters _
