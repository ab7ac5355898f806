-- ===== src/Operation/Group.antt =====
-- internal/controller/disasteroperation/controller.go: `handleGroupOperation`, which runs an operation
-- on the instances of a group, level by level.
pub mod Levels
pub mod Written
use testudo_operator.Base.{
  ℕ, zero, suc, String, Bool, true, false, not, ◌&&◌, ◌||◌, Option, none, some, List, [], ◌∷◌, ◌++◌,
  ◌==◌, ◌+◌, is_empty, length, leb, decimal, if◌then◌else◌,
}
use testudo_operator.Base.Assoc.{Assoc, lookup, insert}
use testudo_operator.Base.Atoi.{atoi}
use testudo_operator.Base.Outcome.{Outcome, ok, err}
use testudo_operator.Base.Text.{join, strip_prefix, trim_space}
use testudo_operator.Drill.Types.{
  RestoreMode, no_mode, reuse, full_restore, resource_only, mixed, operation_unset,
  operation_completed, operation_failed, OperationState, Answer, found, not_found, failed_request,
  CreateAnswer, created, already_exists, create_failed, done, requeue, request_error, requeue_after,
}
use testudo_operator.Operation.Types.{
  OperationType, drill, DrillConfig, OperationSpec, OperationStatus, Operation, Group, Write,
  create_operation, auto_cancel_unset, mode_unset, Handled, Api, waits, writes_status,
  operation_state_text,
}
use testudo_operator.Operation.Steps.{fails_with, after_writes}
use testudo_operator.Operation.Children.{
  child_annotations, child_name, child_of, child_of_mode, child_operation, configured,
  drill_config_for_group_child, effective_drill_restore_mode, empty_status, is_child_mode, is_drill,
  keep_annotation, mode_or_full, restore_mode_text, skip_annotation, trace_annotation,
}

-- How the loop over the instances of a level ends: with a request that failed, with an instance
-- that fails the operation, or at the end of the level, whose instances are all done or not.
pub data LevelEnd : Type 0 where
  request_failed : LevelEnd
  child_failed : String → LevelEnd
  level_end : Bool → List String → LevelEnd

abbrev pub LevelRun : Type 0
LevelRun = List Write × LevelEnd

abbrev pub stops : LevelEnd → LevelRun
stops end = ([], end)

abbrev pub add_progress : Bool → List String → LevelEnd → LevelEnd
add_progress completed progress request_failed = request_failed
add_progress completed progress (child_failed e) = child_failed e
add_progress completed progress (level_end rest infos) =
    level_end (completed && rest) (progress ++ infos)

-- An instance that does not stop the loop.
abbrev pub goes_on : List Write → Bool → List String → LevelRun → LevelRun
goes_on ws completed progress (vs, end) = (ws ++ vs, add_progress completed progress end)

module _ (api : Api) (operation : Operation) (continues : Bool) (name : String)
    (rest : LevelRun) where
  abbrev pub info : String → List String
  info text = join "" (name ∷ "=" ∷ text ∷ []) ∷ []

  abbrev pub after_create : Operation → CreateAnswer → LevelRun
  after_create child create_failed = stops request_failed
  after_create child already_exists = goes_on [] false [] rest
  after_create child created = goes_on (create_operation child ∷ []) false [] rest

  abbrev pub create_child : Outcome String (Option DrillConfig) → LevelRun
  create_child (err e) = stops (child_failed e)
  create_child (ok config) =
      let child = child_operation operation name config in after_create child (api.created child)

  abbrev pub with_current : String → OperationState → String
  with_current current s =
      if current == ""
      then operation_state_text s
      else join "" (operation_state_text s ∷ "(" ∷ current ∷ ")" ∷ [])

  abbrev pub by_state : Operation → OperationState → LevelRun
  by_state child operation_failed =
      if continues
      then goes_on [] true (info "Failed") rest
      else stops
          (child_failed (join "" ("Instance " ∷ name ∷ " 操作失败: " ∷ child.status.message ∷ [])))
  by_state child operation_completed = goes_on [] true (info "Completed") rest
  by_state child s = goes_on [] false (info (with_current child.status.current_step s)) rest

  abbrev pub with_child : Answer Operation → LevelRun
  with_child (found child) = by_state child child.status.state
  with_child (not_found e) =
      create_child (
        drill_config_for_group_child operation.spec.drill_config operation.spec.operation_type name)
  with_child (failed_request e) = stops request_failed

  abbrev pub instance_missing : LevelRun
  instance_missing =
      if continues
      then goes_on [] true (info "NotFound") rest
      else stops (child_failed (join "" ("DisasterInstance " ∷ name ∷ " 未找到" ∷ [])))

  unfoldable pub visit_instance : LevelRun
  visit_instance = elim (api.instance name) [
    | found i ↦ with_child (api.operation (child_name operation name))
    | not_found e ↦ instance_missing
    | failed_request e ↦ stops request_failed
  ]

unfoldable pub visit_level : Api → Operation → Bool → List String → LevelRun
visit_level api operation continues [] = stops (level_end true [])
visit_level api operation continues (name ∷ names) =
    let rest = visit_level api operation continues names in
    visit_instance api operation continues name rest

abbrev pub number_or_zero : Option ℕ → ℕ
number_or_zero none = 0
number_or_zero (some n) = n

abbrev pub level_of_rest : Option String → ℕ
level_of_rest none = 0
level_of_rest (some digits) = number_or_zero (atoi digits)

-- The level in the name of the current step; 0 for every other text.
unfoldable pub current_level : String → ℕ
current_level current_step = level_of_rest (strip_prefix current_step "Level-")

abbrev pub level_name : ℕ → String
level_name n = join "" ("Level-" ∷ decimal n ∷ [])

abbrev pub level_text : ℕ → List String → String
level_text n progress = join "" ("Level-" ∷ decimal n ∷ " 执行中 [" ∷ join ", " progress ∷ "]" ∷ [])

-- `levels[n]`, `none` from the end of the list on.
unfoldable pub level_at : ℕ → List (List String) → Option (List String)
level_at n [] = none
level_at zero (l ∷ ls) = some l
level_at (suc n) (l ∷ ls) = level_at n ls

module _ (api : Api) (operation : Operation) where
  unfoldable pub next_level_status : ℕ → OperationStatus
  next_level_status n = record operation.status { current_step = level_name (n + 1) }

  abbrev pub waits_for_level : ℕ → List String → Handled
  waits_for_level n progress =
      if operation.status.message == level_text n progress
      then waits (requeue_after api.step_running_requeue)
      else writes_status (record operation.status { message = level_text n progress })
          (requeue_after api.step_running_requeue)

  abbrev pub after_level : ℕ → LevelEnd → Handled
  after_level n request_failed = waits request_error
  after_level n (child_failed e) = fails_with operation.status e
  after_level n (level_end true progress) = writes_status (next_level_status n) requeue
  after_level n (level_end false progress) = waits_for_level n progress

  abbrev pub run_level : ℕ → LevelRun → Handled
  run_level n (ws, end) = after_writes ws (after_level n end)

  unfoldable pub all_levels_status : Group → OperationStatus
  all_levels_status group = record operation.status {
    state = operation_completed;
    completion_time = some api.now;
    message = join "" ("即所有 " ∷ decimal (length group.levels) ∷ " 层级操作已完成" ∷ []);
  }

  abbrev pub at_level : Group → ℕ → Option (List String) → Handled
  at_level group n none = writes_status (all_levels_status group) done
  at_level group n (some names) =
      run_level n (visit_level api operation (group.fail_policy == "Continue") names)

  unfoldable pub continue_group : Group → Handled
  continue_group group =
      let n = current_level operation.status.current_step in
      if operation.status.current_step == ""
      then writes_status (record operation.status { current_step = "Level-0" }) requeue
      else at_level group n (level_at n group.levels)

  abbrev pub group_of : Answer Group → Handled
  group_of (found group) = continue_group group
  group_of (not_found e) =
      fails_with operation.status
        (join "" ("DisasterGroup " ∷ operation.spec.group_name ∷ " 未找到" ∷ []))
  group_of (failed_request e) = waits request_error

  unfoldable pub handle_group_operation : Handled
  handle_group_operation = group_of (api.group operation.spec.group_name)
