-- ===== src/Operation/Course/Drills.antt =====
-- internal/controller/disasteroperation/controller.go: `handleDrill` and `handleDrillCleanup` follow the
-- abstract machine.
use testudo_operator.Base.{
  ◌≡◌, refl, inl, String, Bool, true, false, Option, none, some, List, [], ◌∷◌, ◌==◌, All, is_empty,
  if-cases,
}
use testudo_operator.Base.Assoc.{Assoc}
use testudo_operator.Base.Outcome.{Outcome, ok, err}
use testudo_operator.Drill.Types.{RestoreMode, Answer, found, not_found, failed_request}
use testudo_operator.Operation.Types.{
  StepStatus, OperationStatus, Operation, Instance, Config, Handled, Executed, Api, Clusters,
  delete_namespace,
}
use testudo_operator.Operation.Steps.{
  is_pending, Cursor, finished, at, next_step, initial_steps, pending_step, fails_with,
}
use testudo_operator.Operation.Steps.Order.{AtStep, IsPending}
use testudo_operator.Operation.Each.{Each-waits, Each-status, Each-after}
use testudo_operator.Operation.Drill.{
  handle_drill, drill_of, with_drill_config, continue_drill, drill_initialized,
  drill_operation_steps, drill_at, run_drill_step, drill_executed, drill_step_failed,
  drill_step_done, execute_drill_step, is_resource_only, drill_target, handle_drill_cleanup,
  cleanup_of, with_client, clean_up_target, after_scale_down, delete_mapped, delete_found,
  after_deletion, mapping_of,
}
use testudo_operator.Operation.Children.{effective_drill_restore_mode}
use testudo_operator.Operation.Course.{fails, keeps, begins, stops, Next, running-of_open}
use testudo_operator.Operation.Course.Handlers.{
  E, StopsAt, next_step-StopsAt, started-Follows, completed-Follows,
}
use testudo_operator.Operation.Course.Failovers.{nil-of_is_empty}

initial_steps-IsPending : (names : List String) → All IsPending (initial_steps names)
unfolding initial_steps
initial_steps-IsPending [] = tt
initial_steps-IsPending (n ∷ ns) = (refl, initial_steps-IsPending ns)

module _ (api : Api) (operation : Operation) (clusters : Clusters) where
  abbrev old : OperationStatus
  old = operation.status

  abbrev M : Handled → Type 0
  M = E api operation

  pub fails_with-Follows : (message : String) → M (fails_with old message)
  unfolding fails_with
  fails_with-Follows message = Each-status _ _ _ (keeps refl (inl refl))

  quiet-drill_step :
      (target : String) (mode : RestoreMode) (i : Instance) (step : StepStatus)
      → All (Next old) (execute_drill_step clusters target mode operation i step).writes
  unfolding execute_drill_step
  quiet-drill_step target mode i step =
      if-cases Q (step.name == "RestoreResource") _ _ (λ e. tt)
        (λ e.
          if-cases Q (step.name == "RestoreData") _ _
            (λ e. if-cases Q (is_resource_only mode) _ _ (λ e. tt) (λ e. tt))
            (λ e. if-cases Q (step.name == "ScaleUp") _ _ (λ e. tt) (λ e. tt)))
    where
      Q : Executed → Type 0
      Q x = All (Next old) x.writes

  drill_executed-Follows :
      (before : List StepStatus) (step : StepStatus) (after : List StepStatus)
      → StopsAt old before step after
      → is_pending step.state ≡ false
      → (x : Executed) (r : Outcome String Bool)
      → M (drill_executed api operation before step after x r)
  unfolding drill_step_failed drill_step_done
  drill_executed-Follows before step after h e x (err m) = Each-status _ _ _ (
      stops (h.off.changes _ (fails (running-of_open step.state h.off.is_open e) refl refl))
        (inl refl))
  drill_executed-Follows before step after h e x (ok true) =
      Each-status _ _ _ (completed-Follows api operation before step after h e x.step_message)
  drill_executed-Follows before step after h e x (ok false) = Each-waits _ _

  drill_at-Follows :
      (i : Instance) (target : String) (mode : RestoreMode) (c : Cursor)
      → AtStep (StopsAt old) c
      → M (drill_at api operation clusters i target mode c)
  unfolding drill_at run_drill_step
  drill_at-Follows i target mode finished h = Each-status _ _ _ (keeps refl (inl refl))
  drill_at-Follows i target mode (at before step after) h =
      let x = execute_drill_step clusters target mode operation i step in
      if-cases M (is_pending step.state) _ _
        (λ e. Each-status _ _ _ (started-Follows api operation before step after h e))
        (λ e.
          Each-after (Next old) x.writes
            (drill_executed api operation before step after x x.completed)
            (quiet-drill_step target mode i step)
            (drill_executed-Follows before step after h e x x.completed))

  continue_drill-Follows : (i : Instance) → M (continue_drill api operation clusters i)
  unfolding continue_drill drill_initialized
  continue_drill-Follows i =
      let mode = effective_drill_restore_mode operation.spec.drill_config in
      if-cases M (is_empty old.steps) _ _
        (λ e. Each-status _ (drill_initialized api operation mode) _ (
          begins (nil-of_is_empty old.steps e)
            (initial_steps-IsPending (drill_operation_steps mode))))
        (λ e.
          drill_at-Follows i (drill_target operation.spec.drill_config i) mode (next_step old.steps)
            (next_step-StopsAt old))

  pub handle_drill-Follows : M (handle_drill api operation clusters)
  unfolding handle_drill
  handle_drill-Follows = answered (api.instance operation.spec.instance_name)
    where
      configured :
          (i : Instance) (a : Answer Config) → M (with_drill_config api operation clusters i a)
      configured i (found c) = continue_drill-Follows i
      configured i (not_found e) = fails_with-Follows _
      configured i (failed_request e) = fails_with-Follows _

      answered : (a : Answer Instance) → M (drill_of api operation clusters a)
      answered (found i) = configured i (api.config i)
      answered (not_found e) = fails_with-Follows _
      answered (failed_request e) = fails_with-Follows _

  deletion-Follows :
      (target ns : String) (rest : Handled) (r : Option String)
      → M rest
      → M (after_deletion api operation target ns rest r)
  deletion-Follows target ns rest none h =
      Each-after (Next old) (delete_namespace target ns ∷ []) rest (tt, tt) h
  deletion-Follows target ns rest (some e) h = fails_with-Follows _

  delete_found-Follows :
      (target ns : String) (rest : Handled) (a : Answer Bool)
      → M rest
      → M (delete_found api operation target ns rest a)
  delete_found-Follows target ns rest (found deleting) h =
      if-cases M deleting _ _ (λ e. h)
        (λ e. deletion-Follows target ns rest (api.namespace_deleted target ns) h)
  delete_found-Follows target ns rest (not_found e) h = h
  delete_found-Follows target ns rest (failed_request e) h = fails_with-Follows _

  delete_mapped-Follows :
      (target : String) (m : Assoc String) → M (delete_mapped api operation target m)
  unfolding delete_mapped
  delete_mapped-Follows target [] = Each-status _ _ _ (keeps refl (inl refl))
  delete_mapped-Follows target ((k, ns) ∷ m) =
      delete_found-Follows target ns _ (api.namespace_deleting target ns)
        (delete_mapped-Follows target m)

  pub handle_drill_cleanup-Follows : M (handle_drill_cleanup api operation clusters)
  unfolding handle_drill_cleanup clean_up_target
  handle_drill_cleanup-Follows = answered (api.instance operation.spec.instance_name)
    where
      scaled : (r : Outcome String Bool) → M (after_scale_down api operation r)
      scaled (err e) = fails_with-Follows _
      scaled (ok true) = Each-status _ _ _ (keeps refl (inl refl))
      scaled (ok false) = Each-waits _ _

      reached :
          (i : Instance) (t : String) (r : Option String)
          → M (with_client api operation clusters i t r)
      reached i t none =
          if-cases M (is_empty (mapping_of api operation operation.spec.drill_config)) _ _
            (λ e. scaled (clusters.scale_down t operation i (pending_step "")).1)
            (λ e. delete_mapped-Follows t (mapping_of api operation operation.spec.drill_config))
      reached i t (some e) = fails_with-Follows _

      answered : (a : Answer Instance) → M (cleanup_of api operation clusters a)
      answered (found i) =
          let t = drill_target operation.spec.drill_config i in reached i t (api.cluster_error t)
      answered (not_found e) = fails_with-Follows _
      answered (failed_request e) = fails_with-Follows _
