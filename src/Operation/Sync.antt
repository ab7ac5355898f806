-- ===== src/Operation/Sync.antt =====
-- internal/controller/disasteroperation/controller.go: `handleSync`, which triggers the synchronisations.
pub mod Bounded
use testudo_operator.Base.{
  ℕ, String, Bool, true, false, not, ◌&&◌, ◌||◌, Option, none, some, List, [], ◌∷◌, ◌++◌, ◌==◌, ◌+◌,
  ◌-◌, is_empty, nat_eq, leb, ltb, reverse_onto, decimal, if◌then◌else◌,
}
use testudo_operator.Base.Assoc.{Assoc, lookup, insert}
use testudo_operator.Base.Text.{join}
use testudo_operator.Drill.Types.{
  operation_completed, operation_failed, Answer, found, not_found, failed_request, done,
  requeue_after,
}
use testudo_operator.Operation.Types.{
  RetryPolicy, Condition, OperationStatus, Operation, Instance, Sync, Write, update_operation,
  update_status, trigger_data_sync, trigger_resource_sync, Handled, Api, waits, writes_status,
}
use testudo_operator.Operation.Steps.{overdue, fails_with, after_writes}
use testudo_operator.Operation.Trigger.{
  Triggered, annotation, both, data_trigger, not_triggered, remove_annotation, resource_trigger,
  time_or_zero, trigger_answered, trigger_error, trigger_key, trigger_syncs, trigger_update,
}
use testudo_operator.Operation.Checks.{
  Checked, check_data, check_resource, check_synced, check_syncs, failure_in, has_failed,
  has_resource_sync_failure_since, info_of, is_waiting, names, resource_sync_failure_detail,
  synced_since, tells_failure, text_of, then_check, unless_failed, unwatched,
}
use testudo_operator.Operation.Retry.{
  below_limit, interval_of, limit_of, remaining_at, retry_wait_duration, should_retry,
  sync_retry_wait_remaining,
}

module _ (api : Api) (operation : Operation) where
  unfoldable pub triggered_operation : Operation
  triggered_operation = record operation {
    annotations = insert trigger_key (api.time_text api.now) operation.annotations;
  }

  unfoldable pub triggered_status : OperationStatus
  triggered_status = record operation.status {
    next_retry_time = none;
    message = join "" ("同步已于 " ∷ api.time_text api.now ∷ " 触发，等待完成..." ∷ []);
  }

  abbrev pub after_trigger : Triggered → Handled
  after_trigger (ws, []) = (
    ws ++ update_operation triggered_operation ∷ update_status triggered_status ∷ [],
    requeue_after 3,
  )
  after_trigger (ws, e ∷ es) = after_writes ws (
      writes_status
        (record operation.status { message = join "" ("同步触发失败，等待重试: " ∷ join "; " (e ∷ es) ∷ []) })
        (requeue_after 3))

  unfoldable pub retrying_status : String → OperationStatus
  retrying_status e =
      let wait = retry_wait_duration api operation in
      let count = operation.status.retry_count + 1 in
      record operation.status {
        retry_count = count;
        next_retry_time = some (api.now + wait);
        message = join "" (
            "同步失败 ("
            ∷ e
            ∷ ")，将在 "
            ∷ api.duration_text wait
            ∷ " 后重试 ("
            ∷ decimal count
            ∷ "/"
            ∷ decimal (limit_of operation.spec.retry_policy)
            ∷ ")"
            ∷ []);
      }

  unfoldable pub sync_failed : String → Handled
  sync_failed e =
      if should_retry operation
      then (
        update_operation (record operation {
          annotations = remove_annotation trigger_key operation.annotations;
        })
            ∷ update_status (retrying_status e)
            ∷ [],
        requeue_after (retry_wait_duration api operation),
      )
      else writes_status
          (record operation.status {
            state = operation_failed;
            next_retry_time = none;
            message = join "" ("同步失败: " ∷ e ∷ []);
          })
          done

  unfoldable pub sync_timed_out_status : ℕ → OperationStatus
  sync_timed_out_status elapsed = record operation.status {
    state = operation_failed;
    completion_time = some api.now;
    next_retry_time = none;
    message = join "" (
        "同步超时 (已等待 "
        ∷ api.duration_text elapsed
        ∷ "，超时设置 "
        ∷ decimal operation.spec.timeout_minutes
        ∷ " 分钟)"
        ∷ []);
  }

  unfoldable pub synced_status : OperationStatus
  synced_status = record operation.status {
    state = operation_completed;
    completion_time = some api.now;
    next_retry_time = none;
    message = "同步已完成";
  }

  abbrev pub by_pending : List String → Handled
  by_pending [] = writes_status synced_status done
  by_pending (p ∷ ps) =
      writes_status
        (record operation.status { message = join "" ("等待同步完成: " ∷ join ", " (p ∷ ps) ∷ []) })
        (requeue_after api.step_running_requeue)

  abbrev pub within : List String → Option ℕ → Handled
  within pending none = by_pending pending
  within pending (some start) =
      if not (nat_eq operation.spec.timeout_minutes 0)
        && overdue (api.now - start) operation.spec.timeout_minutes
      then writes_status (sync_timed_out_status (api.now - start)) done
      else by_pending pending

  abbrev pub after_checks : Checked → Option String → Handled
  after_checks checked (some e) = sync_failed e
  after_checks checked none = within checked.pending_info operation.status.start_time

  unfoldable pub check_or_trigger : Bool → Bool → Instance → String → Handled
  check_or_trigger with_data with_resource i triggered_at =
      let checked =
        check_syncs api with_data with_resource i (time_or_zero (api.time_of_text triggered_at)) in
      if triggered_at == ""
      then after_trigger (trigger_syncs api with_data with_resource i)
      else after_checks checked checked.failed_error

  abbrev pub unless_waiting : Bool → Bool → Instance → Option ℕ → Handled
  unless_waiting with_data with_resource i (some remaining) = waits (requeue_after remaining)
  unless_waiting with_data with_resource i none =
      check_or_trigger with_data with_resource i
        (annotation (lookup trigger_key operation.annotations))

  abbrev pub sync_of : Bool → Bool → Answer Instance → Handled
  sync_of with_data with_resource (found i) =
      unless_waiting with_data with_resource i (sync_retry_wait_remaining api.now operation.status)
  sync_of with_data with_resource answer = fails_with operation.status "DisasterInstance 未找到"

  unfoldable pub handle_sync : Bool → Bool → Handled
  handle_sync with_data with_resource =
      sync_of with_data with_resource (api.instance operation.spec.instance_name)
