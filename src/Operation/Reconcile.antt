-- ===== src/Operation/Reconcile.antt =====
-- internal/controller/disasteroperation/controller.go: `Reconcile` and `ensureOwnerReferences`.
use testudo_operator.Base.{
  String, Bool, true, false, not, ◌&&◌, ◌||◌, Option, none, some, List, [], ◌∷◌, ◌++◌, ◌==◌, nat_eq,
  if◌then◌else◌,
}
use testudo_operator.Base.Outcome.{Outcome, ok, err}
use testudo_operator.Drill.Types.{
  OperationState, operation_unset, operation_pending, operation_running, operation_completed,
  operation_failed, Answer, found, not_found, failed_request, done, requeue, request_error,
}
use testudo_operator.Operation.Types.{
  OperationType, failover, reprotect, pause, resume, sync_once, sync_data, sync_resource, undo,
  cancel, drill, drill_cleanup, unknown_type, OwnerReference, OperationStatus, Operation, Instance,
  Group, update_operation, update_status, Handled, Api, Clusters, waits, writes_status,
}
use testudo_operator.Operation.Reports.{
  mark_operation_task_event, task_started, task_finished, report_ended,
}
use testudo_operator.Operation.Steps.{fails_with, after_writes}
use testudo_operator.Operation.Failure.{normalize_operation_status_error}
use testudo_operator.Operation.InFlight.{supersede_in_flight_operations}
use testudo_operator.Operation.Failover.{handle_failover}
use testudo_operator.Operation.Schedules.{Run}
use testudo_operator.Operation.Reprotect.{handle_reprotect}
use testudo_operator.Operation.Undo.{handle_undo}
use testudo_operator.Operation.Cancel.{handle_cancel, handle_pause, handle_resume}
use testudo_operator.Operation.Sync.{handle_sync}
use testudo_operator.Operation.Drill.{handle_drill, handle_drill_cleanup}
use testudo_operator.Operation.Group.{handle_group_operation}

-- `hasOwnerReference` with a kind alone, and with a name.
unfoldable pub has_owner_of_kind : String → List OwnerReference → Bool
has_owner_of_kind kind [] = false
has_owner_of_kind kind (r ∷ rs) = let rest = has_owner_of_kind kind rs in r.kind == kind || rest

unfoldable pub has_owner : String → String → List OwnerReference → Bool
has_owner kind name [] = false
has_owner kind name (r ∷ rs) =
    let rest = has_owner kind name rs in (r.kind == kind && r.name == name) || rest

abbrev pub is_of_drill : OperationType → Bool
is_of_drill drill = true
is_of_drill drill_cleanup = true
is_of_drill t = false

abbrev pub add_owner : Operation → String → String → String → Option Operation
add_owner operation kind name uid =
    if name == "" || uid == "" || has_owner kind name operation.owner_references
    then none
    else some (record operation {
      owner_references =
          operation.owner_references ++ record { kind = kind; name = name; uid = uid } ∷ [];
    })

abbrev pub owned_by_instance : Operation → Answer Instance → Outcome String (Option Operation)
owned_by_instance operation (found i) = ok (add_owner operation "DisasterInstance" i.name i.uid)
owned_by_instance operation (not_found e) = ok none
owned_by_instance operation (failed_request e) = err e

abbrev pub owned_by_group : Operation → Answer Group → Outcome String (Option Operation)
owned_by_group operation (found g) = ok (add_owner operation "DisasterGroup" g.name g.uid)
owned_by_group operation (not_found e) = ok none
owned_by_group operation (failed_request e) = err e

-- The operation with the owner added, `none` if nothing changes.
unfoldable pub ensure_owner_references : Api → Operation → Outcome String (Option Operation)
ensure_owner_references api operation =
    if is_of_drill operation.spec.operation_type
      || has_owner_of_kind "DisasterDrill" operation.owner_references
    then ok none
    else if not (operation.spec.instance_name == "")
    then owned_by_instance operation (api.instance operation.spec.instance_name)
    else if not (operation.spec.group_name == "")
    then owned_by_group operation (api.group operation.spec.group_name)
    else ok none

module _ (api : Api) (clusters : Clusters) (operation : Operation) where
  abbrev pub by_type : OperationType → Handled
  by_type failover = handle_failover api operation clusters
  by_type reprotect = handle_reprotect api operation clusters
  by_type undo = handle_undo api operation clusters
  by_type cancel = handle_cancel api operation clusters
  by_type pause = handle_pause api operation
  by_type resume = handle_resume api operation
  by_type sync_once = handle_sync api operation true true
  by_type sync_data = handle_sync api operation true false
  by_type sync_resource = handle_sync api operation false true
  by_type drill = handle_drill api operation clusters
  by_type drill_cleanup = handle_drill_cleanup api operation clusters
  by_type (unknown_type t) =
      after_writes (mark_operation_task_event api operation task_finished)
        (fails_with operation.status "未知的操作类型")

  unfoldable pub route : Handled
  route =
      if not (operation.spec.group_name == "")
      then handle_group_operation api operation
      else by_type operation.spec.operation_type

  abbrev pub after_superseding : Run → Handled
  after_superseding (ws, err e) = (ws, request_error)
  after_superseding (ws, ok b) = after_writes ws route

  unfoldable pub reconcile_running : Handled
  reconcile_running =
      after_writes (mark_operation_task_event api operation task_started)
        (after_superseding (supersede_in_flight_operations api operation))

  abbrev pub start_operation : Handled
  start_operation =
      writes_status
        (record operation.status { state = operation_running; start_time = some api.now }) requeue

  abbrev pub start_or_inherit : Answer Instance → Handled
  start_or_inherit (found i) = if nat_eq i.operation_timeout_minutes 0 then start_operation else (
    update_operation (record operation {
      spec = record operation.spec { timeout_minutes = i.operation_timeout_minutes };
    })
        ∷ [],
    requeue,
  )
  start_or_inherit answer = start_operation

  unfoldable pub reconcile_pending : Handled
  reconcile_pending =
      if nat_eq operation.spec.timeout_minutes 0 && not (operation.spec.instance_name == "")
      then start_or_inherit (api.instance operation.spec.instance_name)
      else start_operation

  abbrev pub by_state : OperationState → Handled
  by_state operation_unset = reconcile_pending
  by_state operation_pending = reconcile_pending
  by_state s = reconcile_running

  abbrev pub terminal : OperationState → OperationStatus → Bool → Handled
  terminal s status true = (update_status status ∷ report_ended api operation s, done)
  terminal s status false = (report_ended api operation s, done)

  -- The changed status is written; another operation than a terminal one is then run again.
  abbrev pub after_normalized : OperationState → OperationStatus × Bool → Handled
  after_normalized operation_completed (status, changed) =
      terminal operation_completed status changed
  after_normalized operation_failed (status, changed) = terminal operation_failed status changed
  after_normalized s (status, true) = writes_status status requeue
  after_normalized s (status, false) = by_state s

  abbrev pub after_owners : Outcome String (Option Operation) → Handled
  after_owners (err e) = waits request_error
  after_owners (ok (some changed)) = (update_operation changed ∷ [], requeue)
  after_owners (ok none) =
      if operation.labels_current
      then after_normalized operation.status.state
          (normalize_operation_status_error operation.status)
      else (update_operation (record operation { labels_current = true }) ∷ [], requeue)

  unfoldable pub reconcile_operation : Handled
  reconcile_operation = after_owners (ensure_owner_references api operation)

-- A `DisasterOperation` that is gone asks for nothing.
abbrev pub reconcile_found : Api → Clusters → Answer Operation → Handled
reconcile_found api clusters (found operation) = reconcile_operation api clusters operation
reconcile_found api clusters (not_found e) = waits done
reconcile_found api clusters (failed_request e) = waits request_error

unfoldable pub reconcile : Api → Clusters → String → Handled
reconcile api clusters name = reconcile_found api clusters (api.operation name)
