-- ===== src/Operation/Children.antt =====
-- internal/controller/disasteroperation/controller.go: the operations that `handleGroupOperation` creates
-- for the instances of a group.
use testudo_operator.Base.{
  String, Bool, true, false, not, ◌||◌, Option, none, some, [], ◌∷◌, ◌==◌, is_empty, if◌then◌else◌,
}
use testudo_operator.Base.Assoc.{Assoc, lookup, insert}
use testudo_operator.Base.Outcome.{Outcome, ok, err}
use testudo_operator.Base.Text.{join, trim_space}
use testudo_operator.Drill.Types.{
  RestoreMode, no_mode, reuse, full_restore, resource_only, mixed, operation_unset,
}
use testudo_operator.Operation.Types.{
  OperationType, drill, DrillConfig, OperationStatus, Operation, auto_cancel_unset, mode_unset,
}

abbrev pub mode_or_full : RestoreMode → RestoreMode
mode_or_full resource_only = resource_only
mode_or_full m = full_restore

abbrev pub configured : Option DrillConfig → RestoreMode
configured none = no_mode
configured (some c) = c.restore_mode

unfoldable pub effective_drill_restore_mode : Option DrillConfig → RestoreMode
effective_drill_restore_mode config = mode_or_full (configured config)

abbrev pub is_drill : OperationType → Bool
is_drill drill = true
is_drill t = false

abbrev pub restore_mode_text : RestoreMode → String
restore_mode_text no_mode = ""
restore_mode_text reuse = "Reuse"
restore_mode_text full_restore = "FullRestore"
restore_mode_text resource_only = "ResourceOnly"
restore_mode_text mixed = "Mixed"

abbrev pub is_child_mode : RestoreMode → Bool
is_child_mode full_restore = true
is_child_mode resource_only = true
is_child_mode m = false

abbrev pub child_of_mode :
    DrillConfig → String → Option RestoreMode → Outcome String (Option DrillConfig)
child_of_mode parent name none = err (join "" ("组 DrillConfig 缺少实例 " ∷ name ∷ " 的恢复模式" ∷ []))
child_of_mode parent name (some mode) =
    if is_child_mode mode
    then ok (some (record parent { restore_mode = mode; instance_restore_modes = [] }))
    else err (join "" ("组 DrillConfig 中实例 " ∷ name ∷ " 的恢复模式无效: " ∷ restore_mode_text mode ∷ []))

abbrev pub child_of : DrillConfig → OperationType → String → Outcome String (Option DrillConfig)
child_of parent t name =
    if not (is_drill t)
    then ok (some parent)
    else if is_empty parent.instance_restore_modes
    then ok (
        some (record parent {
          restore_mode = effective_drill_restore_mode (some parent);
          instance_restore_modes = [];
        }))
    else child_of_mode parent name (lookup name parent.instance_restore_modes)

unfoldable pub drill_config_for_group_child :
    Option DrillConfig → OperationType → String → Outcome String (Option DrillConfig)
drill_config_for_group_child none t name = ok none
drill_config_for_group_child (some parent) t name = child_of parent t name

abbrev pub empty_status : OperationStatus
empty_status = record {
  state = operation_unset;
  reason = "";
  start_time = none;
  completion_time = none;
  current_step = "";
  steps = [];
  auto_cancel_triggered = false;
  auto_cancel_status = auto_cancel_unset;
  auto_cancel_mode = mode_unset;
  auto_cancel_reason = "";
  auto_cancel_trigger_step = "";
  auto_cancel_current_step = "";
  auto_cancel_steps = [];
  auto_cancel_triggered_at = none;
  auto_cancel_completion_time = none;
  manual_intervention_required = false;
  role_status = none;
  retry_count = 0;
  next_retry_time = none;
  message = "";
  conditions = [];
}

abbrev pub keep_annotation : String → Bool → Option String → Assoc String → Assoc String
keep_annotation k any none m = m
keep_annotation k any (some v) m = if any || not (trim_space v == "") then insert k v m else m

abbrev pub trace_annotation : String
trace_annotation = "testudo.softcdata.com/trace-id"

abbrev pub skip_annotation : String
skip_annotation = "testudo.softcdata.com/skip-scale-down-source"

-- The annotations that a child takes over: the trace, and the request to skip a step.
unfoldable pub child_annotations : Assoc String → Assoc String
child_annotations m =
    keep_annotation skip_annotation false (lookup skip_annotation m)
      (keep_annotation trace_annotation true (lookup trace_annotation m) [])

abbrev pub child_name : Operation → String → String
child_name operation name = join "" (operation.name ∷ "-" ∷ name ∷ [])

-- The child's owner is the operation, whose uid is not kept here; its labels are left out.
unfoldable pub child_operation : Operation → String → Option DrillConfig → Operation
child_operation operation name config = record {
  name = child_name operation name;
  annotations = child_annotations operation.annotations;
  owner_references = record { kind = "DisasterOperation"; name = operation.name; uid = "" } ∷ [];
  labels_current = false;
  spec = record {
    instance_name = name;
    group_name = "";
    operation_type = operation.spec.operation_type;
    drill_config = config;
    force = operation.spec.force;
    skip_final_sync = operation.spec.skip_final_sync;
    skip_scale_down_source = operation.spec.skip_scale_down_source;
    timeout_minutes = 0;
    skip_pod_ready_check = operation.spec.skip_pod_ready_check;
    wait_until_ready = operation.spec.wait_until_ready;
    retry_policy = operation.spec.retry_policy;
  };
  status = empty_status;
}
