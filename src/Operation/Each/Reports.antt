-- ===== src/Operation/Each/Reports.antt =====
-- What holds of the writes that note the beginning and the end of an operation.
use testudo_operator.Base.{◌≡◌, String, [], ◌∷◌, ◌==◌, All, All-append, if-cases, eq_iff}
use testudo_operator.Base.Text.{join}
use testudo_operator.Drill.Types.{OperationState, Answer, found, not_found, failed_request}
use testudo_operator.Operation.Types.{Operation, Write, mark_task_event, sync_statistics, Api}
use testudo_operator.Operation.Reports.{
  annotated, mark_latest, mark_operation_task_event, task_finished, synced_statistics,
  statistics_of, report_ended,
}

module _ (P : Write → Type 0) (api : Api) (operation : Operation) where
  pub mark-All :
      (key : String)
      → (annotated key operation.annotations ≡ "" → P (mark_task_event key (api.time_text api.now)))
      → All P (mark_operation_task_event api operation key)
  unfolding mark_operation_task_event
  mark-All key h =
      if-cases (All P) (annotated key operation.annotations == "") _ _
        (λ e. latest ((eq_iff _ _).0 e) (api.latest_operation operation.name)) (λ e. tt)
    where
      latest :
          annotated key operation.annotations ≡ ""
          → (a : Answer Operation) → All P (mark_latest api key a)
      latest e (found o) =
          if-cases (All P) (annotated key o.annotations == "") _ _ (λ q. (h e, tt)) (λ q. tt)
      latest e (not_found m) = tt
      latest e (failed_request m) = tt

  pub report_ended-All :
      (s : OperationState)
      → (annotated task_finished operation.annotations ≡ ""
          → P (mark_task_event task_finished (api.time_text api.now)))
      → P (sync_statistics (join "" ("op-" ∷ operation.name ∷ "-stats" ∷ [])) (statistics_of s))
      → All P (report_ended api operation s)
  unfolding report_ended synced_statistics
  report_ended-All s h k = All-append P _ _ (mark-All task_finished h) (k, tt)
