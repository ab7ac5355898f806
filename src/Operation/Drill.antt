-- ===== src/Operation/Drill.antt =====
-- internal/controller/disasteroperation/controller.go: `handleDrill` and `handleDrillCleanup`, the
-- operations that the drill controller creates.
use testudo_operator.Base.{
  String, Bool, true, false, Option, none, some, List, [], ◌∷◌, ◌==◌, is_empty, if◌then◌else◌,
}
use testudo_operator.Base.Assoc.{Assoc}
use testudo_operator.Base.Outcome.{Outcome, ok, err}
use testudo_operator.Base.Text.{join}
use testudo_operator.Drill.Types.{
  RestoreMode, resource_only, operation_running, operation_completed, operation_failed, Answer,
  found, not_found, failed_request, done, requeue, requeue_after,
}
use testudo_operator.Operation.Types.{
  DrillConfig, StepStatus, step_failed, OperationStatus, Operation, Instance, Config,
  delete_namespace, Handled, Executed, Api, Clusters, waits, writes_status,
}
use testudo_operator.Operation.Steps.{
  is_pending, Cursor, finished, at, next_step, put_step, complete_step, pending_step, initial_steps,
  fails_with, started, after_writes,
}
use testudo_operator.Operation.Schedules.{executed_run, executed_remote, completes}
use testudo_operator.Operation.Children.{effective_drill_restore_mode}

abbrev pub is_resource_only : RestoreMode → Bool
is_resource_only resource_only = true
is_resource_only m = false

-- The steps behind the first one, "RestoreResource".
unfoldable pub drill_operation_steps : RestoreMode → List String
drill_operation_steps mode =
    "RestoreResource"
    ∷ (if is_resource_only mode then "ScaleUp" ∷ [] else "RestoreData" ∷ "ScaleUp" ∷ [])

abbrev pub given : Option DrillConfig → String
given none = ""
given (some c) = c.target_cluster

unfoldable pub drill_target : Option DrillConfig → Instance → String
drill_target config i =
    let target = given config in if target == "" then i.secondary_cluster else target

unfoldable pub execute_drill_step :
    Clusters → String → RestoreMode → Operation → Instance → StepStatus → Executed
execute_drill_step clusters target mode operation i step =
    if step.name == "RestoreResource"
    then executed_remote i (clusters.drill_restore_resource target operation i step)
    else if step.name == "RestoreData"
    then if is_resource_only mode
      then executed_run i step completes
      else executed_remote i (clusters.drill_restore_data target operation i step)
    else if step.name == "ScaleUp"
    then executed_remote i (clusters.drill_scale_up target mode operation i step)
    else executed_run i step completes

module _ (api : Api) (operation : Operation) where
  abbrev pub completes_drill : String → OperationStatus
  completes_drill message = record operation.status {
    state = operation_completed;
    completion_time = some api.now;
    message = message;
  }

  module _ (before : List StepStatus) (step : StepStatus) (after : List StepStatus) where
    -- A failed step of a drill keeps no completion time.
    unfoldable pub drill_step_failed : String → OperationStatus
    drill_step_failed e =
        let message = join "" ("Failed: " ∷ e ∷ []) in
        record operation.status {
          steps = put_step before (record step { state = step_failed; message = message }) after;
          state = operation_failed;
          message = message;
        }

    unfoldable pub drill_step_done : String → OperationStatus
    drill_step_done step_message = record operation.status {
      steps = put_step before (complete_step api.now step_message step) after;
    }

    abbrev pub drill_executed : Executed → Outcome String Bool → Handled
    drill_executed x (err e) = writes_status (drill_step_failed e) done
    drill_executed x (ok false) = waits (requeue_after api.step_running_requeue)
    drill_executed x (ok true) = writes_status (drill_step_done x.step_message) requeue

    unfoldable pub run_drill_step : Clusters → Instance → String → RestoreMode → Handled
    run_drill_step clusters i target mode =
        let x = execute_drill_step clusters target mode operation i step in
        after_writes x.writes (drill_executed x x.completed)

  unfoldable pub drill_at : Clusters → Instance → String → RestoreMode → Cursor → Handled
  drill_at clusters i target mode finished = writes_status (completes_drill "演练完成") done
  drill_at clusters i target mode (at before step after) =
      if is_pending step.state
      then writes_status (started api.now operation.status before step after)
          (requeue_after api.step_start_requeue)
      else run_drill_step before step after clusters i target mode

  unfoldable pub drill_initialized : RestoreMode → OperationStatus
  drill_initialized mode = record operation.status {
    steps = initial_steps (drill_operation_steps mode);
    current_step = "RestoreResource";
    state = operation_running;
  }

  unfoldable pub continue_drill : Clusters → Instance → Handled
  continue_drill clusters i =
      let config = operation.spec.drill_config in
      let mode = effective_drill_restore_mode config in
      if is_empty operation.status.steps
      then writes_status (drill_initialized mode) requeue
      else drill_at clusters i (drill_target config i) mode (next_step operation.status.steps)

  abbrev pub with_drill_config : Clusters → Instance → Answer Config → Handled
  with_drill_config clusters i (found config) = continue_drill clusters i
  with_drill_config clusters i answer =
      fails_with operation.status (join "" ("DisasterConfig " ∷ i.config ∷ " 未找到" ∷ []))

  abbrev pub drill_of : Clusters → Answer Instance → Handled
  drill_of clusters (found i) = with_drill_config clusters i (api.config i)
  drill_of clusters answer = fails_with operation.status "DisasterInstance 未找到"

  unfoldable pub handle_drill : Clusters → Handled
  handle_drill clusters = drill_of clusters (api.instance operation.spec.instance_name)

  abbrev pub cleaned : Handled
  cleaned = writes_status (completes_drill "演练资源清理完成") done

  abbrev pub after_scale_down : Outcome String Bool → Handled
  after_scale_down (err e) = fails_with operation.status (join "" ("清理缩容失败: " ∷ e ∷ []))
  after_scale_down (ok false) = waits (requeue_after 3)
  after_scale_down (ok true) = cleaned

  abbrev pub after_deletion : String → String → Handled → Option String → Handled
  after_deletion target ns rest none = after_writes (delete_namespace target ns ∷ []) rest
  after_deletion target ns rest (some e) =
      fails_with operation.status (join "" ("删除映射命名空间 " ∷ ns ∷ " 失败: " ∷ e ∷ []))

  abbrev pub delete_found : String → String → Handled → Answer Bool → Handled
  delete_found target ns rest (found deleting) =
      if deleting then rest else after_deletion target ns rest (api.namespace_deleted target ns)
  delete_found target ns rest (not_found e) = rest
  delete_found target ns rest (failed_request e) =
      fails_with operation.status (join "" ("获取映射命名空间 " ∷ ns ∷ " 失败: " ∷ e ∷ []))

  -- The loop over the mapping, in the order of the list.
  unfoldable pub delete_mapped : String → Assoc String → Handled
  delete_mapped target [] = cleaned
  delete_mapped target ((k, ns) ∷ mapping) =
      let rest = delete_mapped target mapping in
      delete_found target ns rest (api.namespace_deleting target ns)

  abbrev pub mapping_of : Option DrillConfig → Assoc String
  mapping_of none = []
  mapping_of (some c) = c.namespace_mapping

  unfoldable pub clean_up_target : Clusters → Instance → String → Handled
  clean_up_target clusters i target =
      let mapping = mapping_of operation.spec.drill_config in
      if is_empty mapping
      then after_scale_down (clusters.scale_down target operation i (pending_step "")).1
      else delete_mapped target mapping

  abbrev pub with_client : Clusters → Instance → String → Option String → Handled
  with_client clusters i target none = clean_up_target clusters i target
  with_client clusters i target (some e) =
      fails_with operation.status (join "" ("无法连接目标集群 " ∷ target ∷ ": " ∷ e ∷ []))

  abbrev pub cleanup_of : Clusters → Answer Instance → Handled
  cleanup_of clusters (found i) =
      let target = drill_target operation.spec.drill_config i in
      with_client clusters i target (api.cluster_error target)
  cleanup_of clusters answer = fails_with operation.status "DisasterInstance 未找到"

  unfoldable pub handle_drill_cleanup : Clusters → Handled
  handle_drill_cleanup clusters = cleanup_of clusters (api.instance operation.spec.instance_name)
