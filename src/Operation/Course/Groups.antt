-- ===== src/Operation/Course/Groups.antt =====
-- internal/controller/disasteroperation/controller.go: `handleGroupOperation` follows the abstract
-- machine.
use testudo_operator.Base.{
  inl, refl, String, Bool, true, false, Option, none, some, List, [], ◌∷◌, ◌==◌, All, if-cases, ℕ,
}
use testudo_operator.Base.Outcome.{Outcome, ok, err}
use testudo_operator.Drill.Types.{
  OperationState, operation_unset, operation_pending, operation_running, operation_completed,
  operation_failed, CreateAnswer, created, already_exists, create_failed, Answer, found, not_found,
  failed_request,
}
use testudo_operator.Operation.Types.{
  OperationStatus, DrillConfig, Operation, Instance, Group, Handled, Api, Clusters,
}
use testudo_operator.Operation.Each.{Each-waits, Each-status, Each-after}
use testudo_operator.Operation.Group.{
  LevelEnd, request_failed, child_failed, level_end, LevelRun, stops, visit_instance, visit_level,
  after_create, create_child, by_state, with_child, instance_missing, handle_group_operation,
  group_of, continue_group, at_level, run_level, after_level, next_level_status, all_levels_status,
  current_level, level_at, level_text,
}
use testudo_operator.Operation.Children.{child_name, child_operation, drill_config_for_group_child}
use testudo_operator.Operation.Course.{keeps, Next}
use testudo_operator.Operation.Course.Handlers.{E}
use testudo_operator.Operation.Course.Drills.{fails_with-Follows}

module _ (api : Api) (operation : Operation) (clusters : Clusters) where
  abbrev old : OperationStatus
  old = operation.status

  abbrev M : Handled → Type 0
  M = E api operation

  create-Follows :
      (name : String) (rest : LevelRun) (continues : Bool) (child : Operation) (a : CreateAnswer)
      → All (Next old) rest.0
      → All (Next old) (after_create api operation continues name rest child a).0
  create-Follows name rest continues child create_failed h = tt
  create-Follows name rest continues child already_exists h = h
  create-Follows name rest continues child created h = (tt, h)

  visit-Follows :
      (name : String) (rest : LevelRun) (continues : Bool)
      → All (Next old) rest.0
      → All (Next old) (visit_instance api operation continues name rest).0
  unfolding visit_instance
  visit-Follows name rest continues h = answered (api.instance name)
    where
      C : LevelRun → Type 0
      C r = All (Next old) r.0

      configured :
          (c : Outcome String (Option DrillConfig))
          → C (create_child api operation continues name rest c)
      configured (err e) = tt
      configured (ok config) =
          let child = child_operation operation name config in
          create-Follows name rest continues child (api.created child) h

      by_child :
          (child : Operation) (s : OperationState)
          → C (by_state api operation continues name rest child s)
      by_child child operation_failed = if-cases C continues _ _ (λ e. h) (λ e. tt)
      by_child child operation_completed = h
      by_child child operation_unset = h
      by_child child operation_pending = h
      by_child child operation_running = h

      with_answer : (a : Answer Operation) → C (with_child api operation continues name rest a)
      with_answer (found child) = by_child child child.status.state
      with_answer (not_found e) = configured (
          drill_config_for_group_child operation.spec.drill_config operation.spec.operation_type
            name)
      with_answer (failed_request e) = tt

      answered :
          (a : Answer Instance)
          → C (elim a [
            | found i ↦
                with_child api operation continues name rest
                  (api.operation (child_name operation name))
            | not_found e ↦ instance_missing api operation continues name rest
            | failed_request e ↦ stops request_failed
          ])
      answered (found i) = with_answer (api.operation (child_name operation name))
      answered (not_found e) = if-cases C continues _ _ (λ q. h) (λ q. tt)
      answered (failed_request e) = tt

  level-Follows :
      (continues : Bool) (names : List String)
      → All (Next old) (visit_level api operation continues names).0
  unfolding visit_level
  level-Follows continues [] = tt
  level-Follows continues (name ∷ names) =
      visit-Follows name (visit_level api operation continues names) continues
        (level-Follows continues names)

  pub group-Follows : M (handle_group_operation api operation)
  unfolding handle_group_operation continue_group next_level_status all_levels_status
  group-Follows = answered (api.group operation.spec.group_name)
    where
      ended : (n : ℕ) (end : LevelEnd) → M (after_level api operation n end)
      ended n request_failed = Each-waits _ _
      ended n (child_failed e) = fails_with-Follows api operation clusters _
      ended n (level_end true ps) = Each-status _ _ _ (keeps refl (inl refl))
      ended n (level_end false ps) =
          if-cases M (old.message == level_text n ps) _ _ (λ e. Each-waits _ _)
            (λ e. Each-status _ _ _ (keeps refl (inl refl)))

      run : (n : ℕ) (r : LevelRun) → All (Next old) r.0 → M (run_level api operation n r)
      run n (ws, end) h = Each-after _ _ _ h (ended n end)

      at : (g : Group) (n : ℕ) (l : Option (List String)) → M (at_level api operation g n l)
      at g n none = Each-status _ _ _ (keeps refl (inl refl))
      at g n (some names) =
          let continues = g.fail_policy == "Continue" in
          run n (visit_level api operation continues names) (level-Follows continues names)

      answered : (a : Answer Group) → M (group_of api operation a)
      answered (found g) =
          if-cases M (old.current_step == "") _ _ (λ e. Each-status _ _ _ (keeps refl (inl refl)))
            (λ e.
              at g (current_level old.current_step)
                (level_at (current_level old.current_step) g.levels))
      answered (not_found e) = fails_with-Follows api operation clusters _
      answered (failed_request e) = Each-waits _ _
