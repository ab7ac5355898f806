-- ===== src/Drill/Cleanup.antt =====
-- internal/controller/disasterdrill/controller.go: `triggerCleanup`, `newestCleanupOperation`,
-- `handleCleaningUp` and `syncCleanupOperationStatus`.
pub mod Moves
pub mod Modes
pub mod Once
use testudo_operator.Base.{
  ℕ, String, Bool, true, false, not, ◌&&◌, ◌||◌, Option, none, some, List, [], ◌∷◌, ◌==◌, ltb,
  nat_eq, if◌then◌else◌, decimal,
}
use testudo_operator.Base.Text.{join, text_lt}
use testudo_operator.Drill.Types.{
  DrillState, failed, cleaning_up, cleaned_up, OperationState, operation_unset, operation_completed,
  operation_failed, OperationType, cleanup_type, no_mode, DrillSpec, DrillStatus, Drill,
  DrillConfig, Operation, Answer, found, not_found, failed_request, CreateAnswer, create_failed,
  Api, create_operation, update_status, done, request_error, requeue_after, Handled, waits,
  writes_status,
}
use testudo_operator.Drill.Reason.{is_failed}
use testudo_operator.Drill.Ready.{is_terminal, explicit_target}

abbrev pub is_cleaned_up : DrillState → Bool
is_cleaned_up cleaned_up = true
is_cleaned_up s = false

abbrev pub is_cleanup : OperationType → Bool
is_cleanup cleanup_type = true
is_cleanup t = false

-- The candidate is created later, or at the same time with a greater name.
abbrev pub newer : Operation → Operation → Bool
newer candidate current =
    ltb current.creation_timestamp candidate.creation_timestamp
    || nat_eq candidate.creation_timestamp current.creation_timestamp
      && text_lt current.operation_name candidate.operation_name

unfoldable pub newest_cleanup_operation : Option Operation → Operation → Operation
newest_cleanup_operation none candidate = candidate
newest_cleanup_operation (some current) candidate =
    if newer candidate current then candidate else current

-- The loop over the operations of the drill: the newest cleanup that runs, and the newest that has
-- ended.
unfoldable pub cleanup_operations :
    List Operation → Option Operation → Option Operation → Option Operation × Option Operation
cleanup_operations [] running ended = (running, ended)
cleanup_operations (o ∷ os) running ended =
    let kind = is_cleanup o.operation_type in
    let terminal = kind && is_terminal o.operation_state in
    let next_running =
      if kind && not terminal then some (newest_cleanup_operation running o) else running in
    let next_ended = if terminal then some (newest_cleanup_operation ended o) else ended in
    cleanup_operations os next_running next_ended

abbrev cleaned_message : String
cleaned_message = "演练资源清理完成"

abbrev sync_completed : ℕ → DrillStatus → Operation → Handled
sync_completed now s o =
    if is_cleaned_up s.state
      && s.operation_name == o.operation_name
      && s.reason == ""
      && s.message == cleaned_message
    then waits done
    else writes_status
        (record s {
          state = cleaned_up;
          operation_name = o.operation_name;
          reason = "";
          completion_time = some now;
          message = cleaned_message;
        })
        done

abbrev sync_failed : DrillStatus → Operation → Handled
sync_failed s o =
    let reason = if o.operation_reason == "" then "CleanupFailed" else o.operation_reason in
    let message = join "" ("演练资源清理失败: " ∷ o.operation_message ∷ []) in
    if is_failed s.state
      && s.operation_name == o.operation_name
      && s.reason == reason
      && s.message == message
    then waits done
    else writes_status
        (record s {
          state = failed;
          operation_name = o.operation_name;
          reason = reason;
          message = message;
        })
        done

abbrev sync_by_state : ℕ → DrillStatus → Operation → OperationState → Handled
sync_by_state now s o operation_completed = sync_completed now s o
sync_by_state now s o operation_failed = sync_failed s o
sync_by_state now s o running = waits (requeue_after 5)

unfoldable pub sync_cleanup_operation_status : ℕ → DrillStatus → Operation → Handled
sync_cleanup_operation_status now s o = sync_by_state now s o o.operation_state

-- The operation that `triggerCleanup` creates; its label and its owner are the drill.
unfoldable pub cleanup_operation : ℕ → Drill → Operation
cleanup_operation now drill = record {
  operation_name = join "" ("drill-cln-" ∷ drill.name ∷ "-" ∷ decimal now ∷ []);
  creation_timestamp = now;
  instance_name = drill.spec.instance_name;
  group_name = drill.spec.group_name;
  operation_type = cleanup_type;
  drill_config = record {
    config_target_cluster = explicit_target drill.status.target_cluster;
    config_namespace_mapping = drill.spec.namespace_mapping;
    config_skip_validation = drill.spec.skip_validation;
    config_restore_mode = no_mode;
    config_instance_restore_modes = [];
  };
  directive_confirmed = none;
  skip_pod_ready_check = none;
  wait_until_ready = false;
  operation_state = operation_unset;
  operation_reason = "";
  operation_message = "";
  operation_current_step = "";
  operation_steps = [];
  operation_group_status = none;
}

abbrev cleaning_status : DrillStatus → Operation → DrillStatus
cleaning_status s o = record s {
  state = cleaning_up;
  operation_name = o.operation_name;
  message = "正在清理演练资源...";
}

abbrev create_and_clean : Drill → Operation → CreateAnswer → Handled
create_and_clean drill o create_failed = (create_operation o ∷ [], request_error)
create_and_clean drill o answer =
    (create_operation o ∷ update_status (cleaning_status drill.status o) ∷ [], done)

unfoldable pub create_cleanup : Api → Drill → Handled
create_cleanup api drill =
    let o = cleanup_operation api.now drill in create_and_clean drill o (api.create o)

-- The operation that the status names, which may be a cleanup that has ended.
abbrev with_existing : Api → Drill → Answer Operation → Handled
with_existing api drill (failed_request e) = waits request_error
with_existing api drill (not_found e) = create_cleanup api drill
with_existing api drill (found o) =
    if is_cleanup o.operation_type && is_terminal o.operation_state
    then sync_cleanup_operation_status api.now drill.status o
    else create_cleanup api drill

abbrev with_cleanups : Api → Drill → Option Operation × Option Operation → Handled
with_cleanups api drill (some o, ended) = writes_status (cleaning_status drill.status o) done
with_cleanups api drill (none, some o) = sync_cleanup_operation_status api.now drill.status o
with_cleanups api drill (none, none) =
    if not (drill.status.operation_name == "")
    then with_existing api drill (api.operation drill.status.operation_name)
    else create_cleanup api drill

abbrev of_listed : Api → Drill → Option (List Operation) → Handled
of_listed api drill none = waits request_error
of_listed api drill (some os) = with_cleanups api drill (cleanup_operations os none none)

unfoldable pub trigger_cleanup : Api → Drill → Handled
trigger_cleanup api drill = of_listed api drill (api.operations_of_drill drill.name)

abbrev clean_fails : DrillStatus → String → Handled
clean_fails s message = writes_status (record s { state = failed; message = message }) done

abbrev with_cleanup : ℕ → DrillStatus → Answer Operation → Handled
with_cleanup now s (found o) = sync_cleanup_operation_status now s o
with_cleanup now s (not_found e) =
    clean_fails s (join "" ("Drill Cleanup Operation " ∷ s.operation_name ∷ " 未找到" ∷ []))
with_cleanup now s (failed_request e) = waits request_error

unfoldable pub handle_cleaning_up : Api → Drill → Handled
handle_cleaning_up api drill =
    let s = drill.status in
    if s.operation_name == ""
    then clean_fails s "内部错误：缺少清理 operationName"
    else with_cleanup api.now s (api.operation s.operation_name)
