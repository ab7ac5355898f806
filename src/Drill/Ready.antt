-- ===== src/Drill/Ready.antt =====
-- internal/controller/disasterdrill/controller.go: `handleReady`, which starts the operation of a
-- confirmed drill, and `handleExecuting`, which follows it.
pub mod Moves
pub mod Modes
pub mod Verified
use testudo_operator.Base.{
  ℕ, String, Bool, true, false, not, ◌&&◌, ◌||◌, Option, none, some, List, [], ◌∷◌, ◌==◌, is_empty,
  if◌then◌else◌, decimal,
}
use testudo_operator.Base.Outcome.{Outcome, ok, err}
use testudo_operator.Base.Text.{join}
use testudo_operator.Drill.Types.{
  failed, executing, completed, OperationState, operation_unset, operation_completed,
  operation_failed, no_mode, drill_type, DrillSpec, ValidationResults, DrillStatus, empty_results,
  Drill, Instance, DrillConfig, Operation, Answer, found, not_found, failed_request, CreateAnswer,
  created, already_exists, create_failed, Api, create_operation, update_status, done, requeue,
  request_error, requeue_after, Handled, waits, writes_status,
}
use testudo_operator.Drill.Mode.{mode_of, refresh_restore_mode_snapshot}

abbrev pub is_terminal : OperationState → Bool
is_terminal operation_completed = true
is_terminal operation_failed = true
is_terminal s = false

-- The first operation of the list that has not ended.
unfoldable pub running_operation : List Operation → Option Operation
running_operation [] = none
running_operation (o ∷ os) =
    let rest = running_operation os in if is_terminal o.operation_state then rest else some o

-- `(Auto)` stands for the target of each instance.
abbrev pub explicit_target : String → String
explicit_target target = if target == "(Auto)" then "" else target

-- The operation that `handleReady` creates; its label and its owner are the drill.
unfoldable pub drill_operation : ℕ → Drill → Operation
drill_operation now drill =
    let spec = drill.spec in
    let of_instance = not (spec.instance_name == "") in
    record {
      operation_name = join "" ("drill-" ∷ drill.name ∷ "-" ∷ decimal now ∷ []);
      creation_timestamp = now;
      instance_name = spec.instance_name;
      group_name = spec.group_name;
      operation_type = drill_type;
      drill_config = record {
        config_target_cluster = explicit_target drill.status.target_cluster;
        config_namespace_mapping = spec.namespace_mapping;
        config_skip_validation = spec.skip_validation;
        config_restore_mode =
            if of_instance
            then mode_of spec.instance_name drill.status.instance_restore_modes
            else no_mode;
        config_instance_restore_modes =
            if of_instance then [] else drill.status.instance_restore_modes;
      };
      directive_confirmed = some true;
      skip_pod_ready_check = some (not spec.wait_until_ready);
      wait_until_ready = spec.wait_until_ready;
      operation_state = operation_unset;
      operation_reason = "";
      operation_message = "";
      operation_current_step = "";
      operation_steps = [];
      operation_group_status = none;
    }

abbrev executing_status : ℕ → DrillStatus → Operation → DrillStatus
executing_status now s o = record s {
  state = executing;
  operation_name = o.operation_name;
  execution_time = some now;
  message = "演练执行中...";
}

abbrev create_and_execute : Api → Drill → Operation → CreateAnswer → Handled
create_and_execute api drill o create_failed = (create_operation o ∷ [], request_error)
create_and_execute api drill o answer =
    (create_operation o ∷ update_status (executing_status api.now drill.status o) ∷ [], done)

abbrev reuse_or_create : Api → Drill → Option Operation → Handled
reuse_or_create api drill (some o) = writes_status (executing_status api.now drill.status o) done
reuse_or_create api drill none =
    let o = drill_operation api.now drill in create_and_execute api drill o (api.create o)

abbrev with_operations : Api → Drill → Option (List Operation) → Handled
with_operations api drill none = waits request_error
with_operations api drill (some os) = reuse_or_create api drill (running_operation os)

abbrev without_backup : Option ValidationResults → ValidationResults
without_backup none = empty_results
without_backup (some results) = record results { backup_available = false }

abbrev after_refresh : Api → Drill → Outcome (String × String) (Option DrillStatus) → Handled
after_refresh api drill (err (reason, e)) =
    writes_status
      (record drill.status {
        state = failed;
        reason = reason;
        completion_time = some api.now;
        message = join "" ("执行前备份复核失败: " ∷ e ∷ []);
        validation_results = some (without_backup drill.status.validation_results);
      })
      done
after_refresh api drill (ok (some changed)) = writes_status changed requeue
after_refresh api drill (ok none) = with_operations api drill (api.operations_of_drill drill.name)

unfoldable pub execute : Api → Drill → Handled
execute api drill =
    after_refresh api drill (refresh_restore_mode_snapshot api drill.spec drill.status)

abbrev fails_with : DrillStatus → String → Handled
fails_with s message = writes_status (record s { state = failed; message = message }) done

-- The topology is checked again before an instance's drill is executed.
abbrev check_topology : Api → Drill → Answer Instance → Handled
check_topology api drill (found i) =
    if drill.status.target_cluster == i.primary_cluster
    then fails_with drill.status (
        join ""
          ("危险操作拦截：目标集群 " ∷ drill.status.target_cluster ∷ " 已变更为实例为主集群（可能发生主备切换），请删除并重建演练" ∷ []))
    else execute api drill
check_topology api drill (not_found e) =
    fails_with drill.status (join "" ("无法获取关联实例 " ∷ drill.spec.instance_name ∷ ": " ∷ e ∷ []))
check_topology api drill (failed_request e) =
    fails_with drill.status (join "" ("无法获取关联实例 " ∷ drill.spec.instance_name ∷ ": " ∷ e ∷ []))

unfoldable pub handle_ready : Api → Drill → Handled
handle_ready api drill =
    if not drill.spec.confirmed
    then waits done
    else if not (drill.spec.instance_name == "")
    then check_topology api drill (api.instance drill.spec.instance_name)
    else execute api drill

-- The status after what the operation shows was copied.
abbrev followed : DrillStatus → Operation → DrillStatus
followed s o = record s {
  current_step = o.operation_current_step;
  steps = o.operation_steps;
  group_progress = o.operation_group_status;
}

abbrev follow : ℕ → DrillStatus → Operation → OperationState → Handled
follow now s o operation_completed =
    writes_status
      (record (followed s o) { state = completed; completion_time = some now; message = "演练完成" })
      done
follow now s o operation_failed =
    writes_status
      (record (followed s o) {
        state = failed;
        reason = o.operation_reason;
        completion_time = some now;
        message = join "" ("演练失败: " ∷ o.operation_message ∷ []);
      })
      done
follow now s o running = waits (requeue_after 5)

abbrev with_operation : ℕ → DrillStatus → Answer Operation → Handled
with_operation now s (found o) = follow now s o o.operation_state
with_operation now s (not_found e) =
    fails_with s (join "" ("DisasterOperation " ∷ s.operation_name ∷ " 未找到" ∷ []))
with_operation now s (failed_request e) = waits request_error

unfoldable pub handle_executing : Api → Drill → Handled
handle_executing api drill =
    let s = drill.status in
    if s.operation_name == ""
    then fails_with s "内部错误：缺少 operationName"
    else with_operation api.now s (api.operation s.operation_name)
