-- ===== src/Drill/Ready/Moves.antt =====
-- internal/controller/disasterdrill/controller.go, `handleReady` and `handleExecuting`: the edges of the
-- state diagram.
use testudo_operator.Base.{
  String, Bool, true, false, not, ◌≡◌, refl, sym, ◌∙◌, subst, Option, none, some, List, ◌==◌, arith,
  if-cases,
}
use testudo_operator.Base.Assoc.{Assoc}
use testudo_operator.Base.Outcome.{Outcome, ok, err}
use testudo_operator.Drill.Types.{
  RestoreMode, ready, executing, DrillSpec, DrillStatus, Drill, Instance, Answer, found, not_found,
  failed_request, Operation, OperationState, operation_unset, operation_pending, operation_running,
  operation_completed, operation_failed, CreateAnswer, created, already_exists, create_failed, Api,
  Handled,
}
use testudo_operator.Drill.Diagram.{
  Edge, stays, executes, blocked, finishes, breaks, Moves, Moves-waits, Moves-status, Moves-created,
}
use testudo_operator.Drill.Mode.{
  refresh_restore_mode_snapshot, compare_snapshot, collect_current_restore_modes, compared_to,
  Checked,
}
use testudo_operator.Drill.Ready.{
  handle_ready, handle_executing, execute, follow, with_operation, after_refresh, reuse_or_create,
  create_and_execute, with_operations, check_topology, running_operation, drill_operation,
}

compared-state :
    (s t : DrillStatus) (c : Checked (Assoc RestoreMode))
    → compared_to s c ≡ ok (some t)
    → t.state ≡ s.state
unfolding compare_snapshot
compared-state s t (err e) h = cc
compared-state s t (ok c) h = ground arith

-- A refresh of the snapshot of a ready drill leaves it ready.
refresh-state :
    (api : Api) (spec : DrillSpec) (s t : DrillStatus)
    → refresh_restore_mode_snapshot api spec s ≡ ok (some t)
    → t.state ≡ s.state
unfolding refresh_restore_mode_snapshot
refresh-state api spec s t h = compared-state s t (collect_current_restore_modes api spec) h

module _ (api : Api) (drill : Drill) (restart : Bool) (h : drill.spec.confirmed ≡ true) where
  abbrev M : Handled → Type 0
  M = Moves drill.spec restart ready

  create_and_execute-Moves :
      (o : Operation) (a : CreateAnswer) → M (create_and_execute api drill o a)
  create_and_execute-Moves o created = Moves-created _ _ _ (executes h)
  create_and_execute-Moves o already_exists = Moves-created _ _ _ (executes h)
  create_and_execute-Moves o create_failed = record { edges = (tt, tt) }

  with_operations-Moves : (os : Option (List Operation)) → M (with_operations api drill os)
  with_operations-Moves none = Moves-waits _
  with_operations-Moves (some os) = reused (running_operation os)
    where
      reused : (o : Option Operation) → M (reuse_or_create api drill o)
      reused none =
          create_and_execute-Moves (drill_operation api.now drill)
            (api.create (drill_operation api.now drill))
      reused (some o) = Moves-status _ _ (executes h)

  after_refresh-Moves :
      (r : Outcome (String × String) (Option DrillStatus))
      → ((t : DrillStatus) → r ≡ ok (some t) → t.state ≡ ready)
      → M (after_refresh api drill r)
  after_refresh-Moves (err (reason, e)) k = Moves-status _ _ (blocked h)
  after_refresh-Moves (ok none) k = with_operations-Moves (api.operations_of_drill drill.name)
  after_refresh-Moves (ok (some t)) k =
      Moves-status _ _ (subst (λ s. Edge drill.spec restart ready s) (sym (k t refl)) (stays ready))

  execute-Moves : drill.status.state ≡ ready → M (execute api drill)
  unfolding execute
  execute-Moves r =
      after_refresh-Moves (refresh_restore_mode_snapshot api drill.spec drill.status)
        (λ t e. refresh-state api drill.spec drill.status t e ∙ r)

  check_topology-Moves :
      (a : Answer Instance) → drill.status.state ≡ ready → M (check_topology api drill a)
  check_topology-Moves (found i) r =
      if-cases M (drill.status.target_cluster == i.primary_cluster) _ _
        (λ e. Moves-status _ _ (blocked h)) (λ e. execute-Moves r)
  check_topology-Moves (not_found e) r = Moves-status _ _ (blocked h)
  check_topology-Moves (failed_request e) r = Moves-status _ _ (blocked h)

confirmed_of : (b : Bool) → not b ≡ false → b ≡ true
confirmed_of true h = refl
confirmed_of false h = cc

pub handle_ready-Moves :
    (api : Api) (drill : Drill) (restart : Bool)
    → drill.status.state ≡ ready
    → Moves drill.spec restart ready (handle_ready api drill)
unfolding handle_ready
handle_ready-Moves api drill restart r =
    if-cases (Moves drill.spec restart ready) (not drill.spec.confirmed) _ _ (λ e. Moves-waits _)
      (λ e.
        let h = confirmed_of drill.spec.confirmed e in
        if-cases (Moves drill.spec restart ready) (not (drill.spec.instance_name == "")) _ _
          (λ f. check_topology-Moves api drill restart h (api.instance drill.spec.instance_name) r)
          (λ f. execute-Moves api drill restart h r))

pub handle_executing-Moves :
    (api : Api) (drill : Drill) (restart : Bool)
    → Moves drill.spec restart executing (handle_executing api drill)
unfolding handle_executing
handle_executing-Moves api drill restart =
    if-cases (Moves drill.spec restart executing) (drill.status.operation_name == "") _ _
      (λ e. Moves-status _ _ breaks) (λ e. with_answer (api.operation drill.status.operation_name))
  where
    followed :
        (o : Operation) (s : OperationState)
        → Moves drill.spec restart executing (follow api.now drill.status o s)
    followed o operation_unset = Moves-waits _
    followed o operation_pending = Moves-waits _
    followed o operation_running = Moves-waits _
    followed o operation_completed = Moves-status _ _ finishes
    followed o operation_failed = Moves-status _ _ breaks

    with_answer :
        (a : Answer Operation)
        → Moves drill.spec restart executing (with_operation api.now drill.status a)
    with_answer (found o) = followed o o.operation_state
    with_answer (not_found e) = Moves-status _ _ breaks
    with_answer (failed_request e) = Moves-waits _
