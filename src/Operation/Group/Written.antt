-- ===== src/Operation/Group/Written.antt =====
-- internal/controller/disasteroperation/controller.go, `handleGroupOperation`: what a group's operation
-- writes.
use testudo_operator.Base.{ℕ, ◌≡◌, ◌⊎◌, ◌+◌, String, Bool, none, some, List, ◌==◌, All, In}
use testudo_operator.Base.Outcome.{Outcome, ok}
use testudo_operator.Drill.Types.{operation_unset, operation_failed}
use testudo_operator.Operation.Types.{
  OperationStatus, Operation, Group, Write, create_operation, update_status, Api,
}
use testudo_operator.Operation.Each.{Each}
use testudo_operator.Operation.Group.{LevelRun, current_level, level_at, level_name}
use testudo_operator.Operation.Children.{drill_config_for_group_child}
use testudo_operator.Operation.Group.Levels.{EndedInstance}

module _ (api : Api) (operation : Operation) (group : Group) where
  abbrev pub level : ℕ
  level = current_level operation.status.current_step

  abbrev pub continues_on : Bool
  continues_on = group.fail_policy == "Continue"

  -- A status keeps the level, or is the first one of the operation, or moves from a level whose
  -- instances have all ended to the next one. What is created is the operation on an instance of the
  -- current level.
  pub data Levels : Write → Type 0 where
    keeps_level :
        (s : OperationStatus)
        → s.current_step ≡ operation.status.current_step
        → ((s.state ≡ operation.status.state) ⊎ (s.state ≡ operation_failed))
          ⊎ (level_at level group.levels ≡ none)
        → Levels (update_status s)
    first_level :
        (s : OperationStatus)
        → operation.status.current_step ≡ ""
        → s.current_step ≡ "Level-0"
        → s.state ≡ operation.status.state
        → Levels (update_status s)
    next_level :
        (s : OperationStatus) (names : List String)
        → level_at level group.levels ≡ some names
        → All (EndedInstance api operation continues_on) names
        → s.current_step ≡ level_name (level + 1)
        → s.state ≡ operation.status.state
        → Levels (update_status s)
    child :
        (o : Operation) (name : String) (names : List String)
        → level_at level group.levels ≡ some names
        → In name names
        → drill_config_for_group_child operation.spec.drill_config operation.spec.operation_type
            name
          ≡ ok o.spec.drill_config
        → o.spec.instance_name ≡ name
        → o.spec.operation_type ≡ operation.spec.operation_type
        → o.spec.force ≡ operation.spec.force
        → o.spec.skip_final_sync ≡ operation.spec.skip_final_sync
        → o.spec.skip_scale_down_source ≡ operation.spec.skip_scale_down_source
        → o.status.state ≡ operation_unset
        → Levels (create_operation o)

  module _ (names : List String) (here : level_at level group.levels ≡ some names) where
    module _ (name : String) (listed : In name names) (rest : LevelRun)
        (h : All Levels rest.0) where
      abbrev C : LevelRun → Type 0
      C r = All Levels r.0
