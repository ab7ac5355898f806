-- ===== src/Drill/Cleanup/Modes.antt =====
-- internal/controller/disasterdrill/controller.go, `triggerCleanup` and `handleCleaningUp`: no state that
-- they write needs restore modes.
use testudo_operator.Base.{refl, not, ◌&&◌, Option, none, some, List, ◌==◌, if-cases}
use testudo_operator.Drill.Types.{
  Drill, Answer, found, not_found, failed_request, Operation, OperationState, operation_unset,
  operation_pending, operation_running, operation_completed, operation_failed, CreateAnswer,
  created, already_exists, create_failed, Api,
}
use testudo_operator.Drill.Shown.{
  ShowsOnly, ShowsOnly-waits, ShowsOnly-status, ShowsOnly-created, ShowsOnly-other,
}
use testudo_operator.Drill.Ready.{is_terminal}
use testudo_operator.Drill.Cleanup.{
  is_cleanup, trigger_cleanup, handle_cleaning_up, sync_cleanup_operation_status, sync_by_state,
  create_cleanup, create_and_clean, cleanup_operation, with_existing, with_cleanups, of_listed,
  with_cleanup, cleanup_operations,
}

module _ (api : Api) (drill : Drill) where
  by_state-ShowsOnly :
      (o : Operation) (s : OperationState) → ShowsOnly (sync_by_state api.now drill.status o s)
  by_state-ShowsOnly o operation_unset = ShowsOnly-waits _
  by_state-ShowsOnly o operation_pending = ShowsOnly-waits _
  by_state-ShowsOnly o operation_running = ShowsOnly-waits _
  by_state-ShowsOnly o operation_completed =
      if-cases ShowsOnly _ _ _ (λ e. ShowsOnly-waits _) (λ e. ShowsOnly-status _ _ refl)
  by_state-ShowsOnly o operation_failed =
      if-cases ShowsOnly _ _ _ (λ e. ShowsOnly-waits _) (λ e. ShowsOnly-status _ _ refl)

  sync-ShowsOnly :
      (o : Operation) → ShowsOnly (sync_cleanup_operation_status api.now drill.status o)
  unfolding sync_cleanup_operation_status
  sync-ShowsOnly o = by_state-ShowsOnly o o.operation_state

  create-ShowsOnly : ShowsOnly (create_cleanup api drill)
  unfolding create_cleanup
  create-ShowsOnly = answered (api.create (cleanup_operation api.now drill))
    where
      answered :
          (a : CreateAnswer)
          → ShowsOnly (create_and_clean drill (cleanup_operation api.now drill) a)
      answered created = ShowsOnly-created _ _ _ refl
      answered already_exists = ShowsOnly-created _ _ _ refl
      answered create_failed = ShowsOnly-other _ _ (λ s e. cc)

  existing-ShowsOnly : (a : Answer Operation) → ShowsOnly (with_existing api drill a)
  existing-ShowsOnly (failed_request e) = ShowsOnly-waits _
  existing-ShowsOnly (not_found e) = create-ShowsOnly
  existing-ShowsOnly (found o) =
      if-cases ShowsOnly (is_cleanup o.operation_type && is_terminal o.operation_state) _ _
        (λ e. sync-ShowsOnly o) (λ e. create-ShowsOnly)

  with_cleanups-ShowsOnly :
      (c : Option Operation × Option Operation) → ShowsOnly (with_cleanups api drill c)
  with_cleanups-ShowsOnly (some o, ended) = ShowsOnly-status _ _ refl
  with_cleanups-ShowsOnly (none, some o) = sync-ShowsOnly o
  with_cleanups-ShowsOnly (none, none) =
      if-cases ShowsOnly (not (drill.status.operation_name == "")) _ _
        (λ e. existing-ShowsOnly (api.operation drill.status.operation_name))
        (λ e. create-ShowsOnly)

  pub trigger_cleanup-ShowsOnly : ShowsOnly (trigger_cleanup api drill)
  unfolding trigger_cleanup
  trigger_cleanup-ShowsOnly = listed (api.operations_of_drill drill.name)
    where
      listed : (os : Option (List Operation)) → ShowsOnly (of_listed api drill os)
      listed none = ShowsOnly-waits _
      listed (some os) = with_cleanups-ShowsOnly (cleanup_operations os none none)

  pub handle_cleaning_up-ShowsOnly : ShowsOnly (handle_cleaning_up api drill)
  unfolding handle_cleaning_up
  handle_cleaning_up-ShowsOnly =
      if-cases ShowsOnly (drill.status.operation_name == "") _ _ (λ e. ShowsOnly-status _ _ refl)
        (λ e. with_answer (api.operation drill.status.operation_name))
    where
      with_answer : (a : Answer Operation) → ShowsOnly (with_cleanup api.now drill.status a)
      with_answer (found o) = sync-ShowsOnly o
      with_answer (not_found e) = ShowsOnly-status _ _ refl
      with_answer (failed_request e) = ShowsOnly-waits _
