-- ===== src/Drill/Ready/Modes.antt =====
-- internal/controller/disasterdrill/controller.go, `handleReady` and `handleExecuting`: the restore
-- modes stay shown.
use testudo_operator.Base.{
  is_empty, ◌&&◌, String, Bool, true, false, not, ◌≡◌, refl, Option, none, some, List, ◌==◌, arith,
  if-cases,
}
use testudo_operator.Base.Assoc.{Assoc}
use testudo_operator.Base.Outcome.{Outcome, ok, err}
use testudo_operator.Drill.Types.{
  RestoreMode, DrillStatus, Drill, Instance, Answer, found, not_found, failed_request, Operation,
  OperationState, operation_unset, operation_pending, operation_running, operation_completed,
  operation_failed, CreateAnswer, created, already_exists, create_failed, Api,
}
use testudo_operator.Drill.Shown.{
  needs_modes, ShowsOnly, ShowsOnly-waits, ShowsOnly-status, ShowsOnly-created, ShowsOnly-other,
}
use testudo_operator.Drill.Mode.{
  refresh_restore_mode_snapshot, compare_snapshot, collect_current_restore_modes, compared_to,
  Checked,
}
use testudo_operator.Drill.Ready.{
  handle_ready, handle_executing, execute, follow, with_operation, after_refresh, reuse_or_create,
  create_and_execute, with_operations, check_topology, running_operation, drill_operation,
}

-- A snapshot that is not empty is replaced by none.
compared-kept :
    (s t : DrillStatus) (c : Checked (Assoc RestoreMode))
    → is_empty s.instance_restore_modes ≡ false
    → compared_to s c ≡ ok (some t)
    → is_empty t.instance_restore_modes ≡ false
unfolding compare_snapshot
compared-kept s t (err e) k h = cc
compared-kept s t (ok c) k h = ground arith

shown : (b e : Bool) → e ≡ false → b && e ≡ false
shown true e h = h
shown false e h = refl

module _ (api : Api) (drill : Drill)
    (k : is_empty drill.status.instance_restore_modes ≡ false) where
  with_operations-ShowsOnly :
      (os : Option (List Operation)) → ShowsOnly (with_operations api drill os)
  with_operations-ShowsOnly none = ShowsOnly-waits _
  with_operations-ShowsOnly (some os) = reused (running_operation os)
    where
      answered : (o : Operation) (a : CreateAnswer) → ShowsOnly (create_and_execute api drill o a)
      answered o created = ShowsOnly-created _ _ _ k
      answered o already_exists = ShowsOnly-created _ _ _ k
      answered o create_failed = ShowsOnly-other _ _ (λ s e. cc)

      reused : (o : Option Operation) → ShowsOnly (reuse_or_create api drill o)
      reused (some o) = ShowsOnly-status _ _ k
      reused none =
          answered (drill_operation api.now drill) (api.create (drill_operation api.now drill))

  after_refresh-ShowsOnly :
      (c : Checked (Assoc RestoreMode)) (r : Outcome (String × String) (Option DrillStatus))
      → compared_to drill.status c ≡ r
      → ShowsOnly (after_refresh api drill r)
  after_refresh-ShowsOnly c (err (reason, e)) q = ShowsOnly-status _ _ refl
  after_refresh-ShowsOnly c (ok none) q =
      with_operations-ShowsOnly (api.operations_of_drill drill.name)
  after_refresh-ShowsOnly c (ok (some t)) q = ShowsOnly-status t _ (
      shown (needs_modes t.state) (is_empty t.instance_restore_modes)
        (compared-kept drill.status t c k q))

  execute-ShowsOnly : ShowsOnly (execute api drill)
  unfolding execute refresh_restore_mode_snapshot
  execute-ShowsOnly =
      let c = collect_current_restore_modes api drill.spec in
      after_refresh-ShowsOnly c (compared_to drill.status c) refl

  pub handle_ready-ShowsOnly : ShowsOnly (handle_ready api drill)
  unfolding handle_ready
  handle_ready-ShowsOnly =
      if-cases ShowsOnly (not drill.spec.confirmed) _ _ (λ e. ShowsOnly-waits _)
        (λ e.
          if-cases ShowsOnly (not (drill.spec.instance_name == "")) _ _
            (λ f. checked (api.instance drill.spec.instance_name)) (λ f. execute-ShowsOnly))
    where
      checked : (a : Answer Instance) → ShowsOnly (check_topology api drill a)
      checked (found i) =
          if-cases ShowsOnly (drill.status.target_cluster == i.primary_cluster) _ _
            (λ e. ShowsOnly-status _ _ refl) (λ e. execute-ShowsOnly)
      checked (not_found e) = ShowsOnly-status _ _ refl
      checked (failed_request e) = ShowsOnly-status _ _ refl

  pub handle_executing-ShowsOnly : ShowsOnly (handle_executing api drill)
  unfolding handle_executing
  handle_executing-ShowsOnly =
      if-cases ShowsOnly (drill.status.operation_name == "") _ _ (λ e. ShowsOnly-status _ _ refl)
        (λ e. with_answer (api.operation drill.status.operation_name))
    where
      followed : (o : Operation) (s : OperationState) → ShowsOnly (follow api.now drill.status o s)
      followed o operation_unset = ShowsOnly-waits _
      followed o operation_pending = ShowsOnly-waits _
      followed o operation_running = ShowsOnly-waits _
      followed o operation_completed = ShowsOnly-status _ _ k
      followed o operation_failed = ShowsOnly-status _ _ refl

      with_answer : (a : Answer Operation) → ShowsOnly (with_operation api.now drill.status a)
      with_answer (found o) = followed o o.operation_state
      with_answer (not_found e) = ShowsOnly-status _ _ refl
      with_answer (failed_request e) = ShowsOnly-waits _
