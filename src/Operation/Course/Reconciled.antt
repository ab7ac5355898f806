-- ===== src/Operation/Course/Reconciled.antt =====
-- internal/controller/disasteroperation/controller.go: every write of a reconciliation follows the
-- abstract machine.
use testudo_operator.Base.{
  inl, ◌≡◌, refl, String, Bool, true, false, not, ◌&&◌, Option, none, some, List, [], ◌∷◌, ◌==◌,
  All, if-cases, nat_eq, if◌then◌else◌,
}
use testudo_operator.Base.Outcome.{Outcome, ok, err}
use testudo_operator.Drill.Types.{
  OperationState, operation_unset, operation_pending, operation_running, operation_completed,
  operation_failed, Answer, found, not_found, failed_request,
}
use testudo_operator.Operation.Types.{
  OperationType, failover, reprotect, pause, resume, sync_once, sync_data, sync_resource, undo,
  cancel, drill, drill_cleanup, unknown_type, OperationStatus, Operation, Instance, Handled, Api,
  Clusters,
}
use testudo_operator.Operation.Each.{Each-waits, Each-status, Each-writes, Each-after}
use testudo_operator.Operation.Reports.{
  mark_operation_task_event, report_ended, task_started, task_finished,
}
use testudo_operator.Operation.Each.Reports.{mark-All, report_ended-All}
use testudo_operator.Operation.Schedules.{Run, then_run, completes}
use testudo_operator.Operation.InFlight.{
  supersede_in_flight_operations, supersede_of, supersede_listed, supersede_latest, supersedes,
  should_supersede_operation, is_in_flight_operation_state,
}
use testudo_operator.Operation.Failure.{normalize_operation_status_error, is_failed}
use testudo_operator.Operation.Reconcile.{
  ensure_owner_references, by_type, route, after_superseding, reconcile_running, reconcile_pending,
  start_or_inherit, after_normalized, after_owners, reconcile_operation,
}
use testudo_operator.Operation.Course.{keeps, Next}
use testudo_operator.Operation.Course.Handlers.{E}
use testudo_operator.Operation.Course.Entry.{
  handle_failover-Follows, handle_reprotect-Follows, handle_undo-Follows, handle_cancel-Follows,
}
use testudo_operator.Operation.Course.Groups.{group-Follows}
use testudo_operator.Operation.Course.Drills.{
  fails_with-Follows, handle_drill-Follows, handle_drill_cleanup-Follows,
}
use testudo_operator.Operation.Course.Syncs.{pause-Follows, resume-Follows, sync-Follows}

module _ (api : Api) (operation : Operation) (clusters : Clusters) where
  abbrev old : OperationStatus
  old = operation.status

  abbrev M : Handled → Type 0
  M = E api operation

  abbrev Superseded : Run → Type 0
  Superseded r = All (Next old) r.0

  marked-All : (key : String) → All (Next old) (mark_operation_task_event api operation key)
  marked-All key = mark-All (Next old) api operation key (λ t. tt)

  ended-All : (s : OperationState) → All (Next old) (report_ended api operation s)
  ended-All s = report_ended-All (Next old) api operation s (λ t. tt) tt

  by_type-Follows : (t : OperationType) → M (by_type api clusters operation t)
  by_type-Follows failover = handle_failover-Follows api operation clusters
  by_type-Follows reprotect = handle_reprotect-Follows api operation clusters
  by_type-Follows undo = handle_undo-Follows api operation clusters
  by_type-Follows cancel = handle_cancel-Follows api operation clusters
  by_type-Follows pause = pause-Follows api operation clusters
  by_type-Follows resume = resume-Follows api operation clusters
  by_type-Follows sync_once = sync-Follows api operation clusters true true
  by_type-Follows sync_data = sync-Follows api operation clusters true false
  by_type-Follows sync_resource = sync-Follows api operation clusters false true
  by_type-Follows drill = handle_drill-Follows api operation clusters
  by_type-Follows drill_cleanup = handle_drill_cleanup-Follows api operation clusters
  by_type-Follows (unknown_type t) =
      Each-after _ _ _ (marked-All task_finished) (fails_with-Follows api operation clusters _)

  route-Follows : M (route api clusters operation)
  unfolding route
  route-Follows =
      if-cases M (not (operation.spec.group_name == "")) _ _
        (λ e. group-Follows api operation clusters)
        (λ e. by_type-Follows operation.spec.operation_type)

  listed-All : (os : List Operation) → Superseded (supersede_listed api operation os)
  unfolding supersede_listed
  listed-All [] = tt
  listed-All (o ∷ os) =
      if-cases Superseded (supersedes operation o) _ _
        (λ e.
          joined (supersede_listed api operation os) (api.latest_operation o.name) (listed-All os))
        (λ e. listed-All os)
    where
      joined :
          (rest : Run) (a : Answer Operation)
          → Superseded rest
          → Superseded (then_run (supersede_latest api.now operation o.name a) rest)
      joined (vs, r) (found latest) h =
          if-cases (λ (w : Run). Superseded (then_run w (vs, r)))
            (is_in_flight_operation_state latest.status.state) _ _ (λ e. (tt, h)) (λ e. h)
      joined (vs, r) (not_found e) h = h
      joined (vs, r) (failed_request e) h = tt

  running-Follows : M (reconcile_running api clusters operation)
  unfolding reconcile_running supersede_in_flight_operations
  running-Follows = Each-after _ _ _ (marked-All task_started) (
      superseding
        (if should_supersede_operation operation.spec.operation_type failover
          then supersede_of api operation api.operations
          else completes)
        (if-cases Superseded (should_supersede_operation operation.spec.operation_type failover) _ _
          (λ e. of_list api.operations) (λ e. tt)))
    where
      of_list : (os : Outcome String (List Operation)) → Superseded (supersede_of api operation os)
      of_list (err e) = tt
      of_list (ok os) = listed-All os

      superseding : (r : Run) → Superseded r → M (after_superseding api clusters operation r)
      superseding (ws, err e) h = Each-writes _ _ _ h
      superseding (ws, ok b) h = Each-after _ _ _ h route-Follows

  pending-Follows : M (reconcile_pending api clusters operation)
  unfolding reconcile_pending
  pending-Follows =
      if-cases M
        (nat_eq operation.spec.timeout_minutes 0 && not (operation.spec.instance_name == "")) _ _
        (λ e. inherited (api.instance operation.spec.instance_name))
        (λ e. Each-status _ _ _ (keeps refl (inl refl)))
    where
      inherited : (a : Answer Instance) → M (start_or_inherit api clusters operation a)
      inherited (found i) =
          if-cases M (nat_eq i.operation_timeout_minutes 0) _ _
            (λ e. Each-status _ _ _ (keeps refl (inl refl))) (λ e. record { all = (tt, tt) })
      inherited (not_found e) = Each-status _ _ _ (keeps refl (inl refl))
      inherited (failed_request e) = Each-status _ _ _ (keeps refl (inl refl))

  abbrev Same : OperationStatus × Bool → Type 0
  Same r = (r.0.steps ≡ old.steps) × (r.0.auto_cancel_status ≡ old.auto_cancel_status)

  normalized-Same : Same (normalize_operation_status_error old)
  unfolding normalize_operation_status_error
  normalized-Same =
      if-cases Same (is_failed old.state) _ _
        (λ e. if-cases Same (old.reason == "") _ _ (λ q. (refl, refl)) (λ q. (refl, refl)))
        (λ e. if-cases Same (old.reason == "") _ _ (λ q. (refl, refl)) (λ q. (refl, refl)))

  normalized-Follows :
      (s : OperationState) (r : OperationStatus × Bool)
      → Same r
      → M (after_normalized api clusters operation s r)
  normalized-Follows operation_completed (status, true) h = record {
    all = (keeps h.0 (inl h.1), ended-All operation_completed);
  }
  normalized-Follows operation_completed (status, false) h =
      Each-writes _ _ _ (ended-All operation_completed)
  normalized-Follows operation_failed (status, true) h = record {
    all = (keeps h.0 (inl h.1), ended-All operation_failed);
  }
  normalized-Follows operation_failed (status, false) h =
      Each-writes _ _ _ (ended-All operation_failed)
  normalized-Follows operation_unset (status, true) h = Each-status _ _ _ (keeps h.0 (inl h.1))
  normalized-Follows operation_unset (status, false) h = pending-Follows
  normalized-Follows operation_pending (status, true) h = Each-status _ _ _ (keeps h.0 (inl h.1))
  normalized-Follows operation_pending (status, false) h = pending-Follows
  normalized-Follows operation_running (status, true) h = Each-status _ _ _ (keeps h.0 (inl h.1))
  normalized-Follows operation_running (status, false) h = running-Follows

  owners-Follows :
      (r : Outcome String (Option Operation)) → M (after_owners api clusters operation r)
  owners-Follows (err e) = Each-waits _ _
  owners-Follows (ok (some changed)) = record { all = (tt, tt) }
  owners-Follows (ok none) =
      if-cases M operation.labels_current _ _
        (λ e. normalized-Follows old.state (normalize_operation_status_error old) normalized-Same)
        (λ e. record { all = (tt, tt) })

  -- Each status that a reconciliation writes for its operation is related to the one it read by a
  -- transition of the abstract machine: the steps stay as they are, are laid out as pending ones where
  -- there were none, the first open step is started, completed or given a message, the running step
  -- fails and with it the operation, unless its compensation begins, or the operation is completed.
  pub reconcile_follows : All (Next old) (reconcile_operation api clusters operation).0
  unfolding reconcile_operation
  reconcile_follows = (owners-Follows (ensure_owner_references api operation)).all
