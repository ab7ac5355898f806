-- ===== src/Drill/Cleanup/Moves.antt =====
-- internal/controller/disasterdrill/controller.go, `triggerCleanup` and `handleCleaningUp`: the edges of
-- the state diagram.
use testudo_operator.Base.{Bool, Option, none, some, List, ◌==◌, if-cases}
use testudo_operator.Drill.Types.{
  DrillState, failed, cleaning_up, cleaned_up, Drill, Answer, found, not_found, failed_request,
  Operation, OperationState, operation_unset, operation_pending, operation_running,
  operation_completed, operation_failed, CreateAnswer, created, already_exists, create_failed, Api,
  Handled,
}
use testudo_operator.Drill.Diagram.{
  Edge, is_cleaned, is_not_cleaned, Moves, Moves-waits, Moves-status, Moves-created,
}
use testudo_operator.Drill.Cleanup.{
  trigger_cleanup, handle_cleaning_up, sync_cleanup_operation_status, sync_by_state, create_cleanup,
  create_and_clean, cleanup_operation, with_existing, with_cleanups, of_listed, with_cleanup,
  cleanup_operations,
}

module _ (api : Api) (drill : Drill) (restart : Bool) (from : DrillState)
    (cleaned : Edge drill.spec restart from cleaned_up)
    (not_cleaned : Edge drill.spec restart from failed) where
  abbrev M : Handled → Type 0
  M = Moves drill.spec restart from

  by_state-Moves : (o : Operation) (s : OperationState) → M (sync_by_state api.now drill.status o s)
  by_state-Moves o operation_unset = Moves-waits _
  by_state-Moves o operation_pending = Moves-waits _
  by_state-Moves o operation_running = Moves-waits _
  by_state-Moves o operation_completed =
      if-cases M _ _ _ (λ e. Moves-waits _) (λ e. Moves-status _ _ cleaned)
  by_state-Moves o operation_failed =
      if-cases M _ _ _ (λ e. Moves-waits _) (λ e. Moves-status _ _ not_cleaned)

  sync-Moves : (o : Operation) → M (sync_cleanup_operation_status api.now drill.status o)
  unfolding sync_cleanup_operation_status
  sync-Moves o = by_state-Moves o o.operation_state

  module _ (cleans : Edge drill.spec restart from cleaning_up) where
    create-Moves : M (create_cleanup api drill)
    unfolding create_cleanup
    create-Moves = answered (api.create (cleanup_operation api.now drill))
      where
        answered :
            (a : CreateAnswer) → M (create_and_clean drill (cleanup_operation api.now drill) a)
        answered created = Moves-created _ _ _ cleans
        answered already_exists = Moves-created _ _ _ cleans
        answered create_failed = record { edges = (tt, tt) }

    existing-Moves : (a : Answer Operation) → M (with_existing api drill a)
    existing-Moves (failed_request e) = Moves-waits _
    existing-Moves (not_found e) = create-Moves
    existing-Moves (found o) = if-cases M _ _ _ (λ e. sync-Moves o) (λ e. create-Moves)

    with_cleanups-Moves : (c : Option Operation × Option Operation) → M (with_cleanups api drill c)
    with_cleanups-Moves (some o, ended) = Moves-status _ _ cleans
    with_cleanups-Moves (none, some o) = sync-Moves o
    with_cleanups-Moves (none, none) =
        if-cases M _ _ _ (λ e. existing-Moves (api.operation drill.status.operation_name))
          (λ e. create-Moves)

    pub trigger_cleanup-Moves : M (trigger_cleanup api drill)
    unfolding trigger_cleanup
    trigger_cleanup-Moves = listed (api.operations_of_drill drill.name)
      where
        listed : (os : Option (List Operation)) → M (of_listed api drill os)
        listed none = Moves-waits _
        listed (some os) = with_cleanups-Moves (cleanup_operations os none none)

pub handle_cleaning_up-Moves :
    (api : Api) (drill : Drill) (restart : Bool)
    → Moves drill.spec restart cleaning_up (handle_cleaning_up api drill)
unfolding handle_cleaning_up
handle_cleaning_up-Moves api drill restart =
    if-cases (Moves drill.spec restart cleaning_up) (drill.status.operation_name == "") _ _
      (λ e. Moves-status _ _ is_not_cleaned)
      (λ e. with_answer (api.operation drill.status.operation_name))
  where
    with_answer :
        (a : Answer Operation)
        → Moves drill.spec restart cleaning_up (with_cleanup api.now drill.status a)
    with_answer (found o) = sync-Moves api drill restart cleaning_up is_cleaned is_not_cleaned o
    with_answer (not_found e) = Moves-status _ _ is_not_cleaned
    with_answer (failed_request e) = Moves-waits _
