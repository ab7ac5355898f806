-- ===== src/Operation/Course/Syncs.antt =====
-- internal/controller/disasteroperation/controller.go: the moves of the handlers that pause, resume or
-- trigger the synchronisations of an instance.
use testudo_operator.Base.{
  inl, refl, String, Bool, not, ◌&&◌, Option, none, some, List, [], ◌∷◌, ◌++◌, ◌==◌, All,
  All-append, if-cases, ℕ, nat_eq, ◌-◌,
}
use testudo_operator.Base.Assoc.{lookup}
use testudo_operator.Base.Outcome.{ok, err}
use testudo_operator.Drill.Types.{Answer, found, not_found, failed_request}
use testudo_operator.Operation.Types.{
  OperationStatus, Operation, Instance, Handled, Api, Clusters, pause_data_sync,
  pause_resource_sync,
}
use testudo_operator.Operation.Steps.{overdue}
use testudo_operator.Operation.Each.{Each-waits, Each-status, Each-writes, Each-after}
use testudo_operator.Operation.Each.Parts.{resume_schedules-All}
use testudo_operator.Operation.Each.Triggers.{pause_writes-All, trigger_writes-All}
use testudo_operator.Operation.Schedules.{Run, execute_resume_schedules}
use testudo_operator.Operation.Cancel.{
  pause_unless_unset, handle_pause, pause_of, handle_resume, resume_of, resume_with,
}
use testudo_operator.Operation.Sync.{
  handle_sync, sync_of, unless_waiting, check_or_trigger, after_trigger, triggered_status,
  sync_failed, retrying_status, within, by_pending, sync_timed_out_status, synced_status,
}
use testudo_operator.Operation.Retry.{should_retry, sync_retry_wait_remaining}
use testudo_operator.Operation.Checks.{check_syncs}
use testudo_operator.Operation.Trigger.{
  Triggered, trigger_syncs, time_or_zero, annotation, trigger_key,
}
use testudo_operator.Operation.Course.{keeps, Next}
use testudo_operator.Operation.Course.Handlers.{E}
use testudo_operator.Operation.Course.Drills.{fails_with-Follows}

module _ (api : Api) (operation : Operation) (clusters : Clusters) where
  abbrev old : OperationStatus
  old = operation.status

  abbrev M : Handled → Type 0
  M = E api operation

  pub pause-Follows : M (handle_pause api operation)
  unfolding handle_pause
  pause-Follows = answered (api.instance operation.spec.instance_name)
    where
      answered : (a : Answer Instance) → M (pause_of api operation a)
      answered (found i) = record {
        all =
            All-append (Next old)
              (pause_unless_unset api operation pause_data_sync api.data_sync_paused_set
                  api.data_sync i.data_sync_name
                ++ pause_unless_unset api operation pause_resource_sync api.resource_sync_paused_set
                    api.resource_sync i.resource_sync_name)
              _ (pause_writes-All (Next old) (λ n b. tt) (λ n b. tt) api operation i)
              (tt, (keeps refl (inl refl), tt));
      }
      answered (not_found e) = fails_with-Follows api operation clusters _
      answered (failed_request e) = fails_with-Follows api operation clusters _

  pub resume-Follows : M (handle_resume api operation)
  unfolding handle_resume
  resume-Follows = answered (api.instance operation.spec.instance_name)
    where
      resumed : (i : Instance) (r : Run) → All (Next old) r.0 → M (resume_with api operation i r)
      resumed i (ws, err e) h = Each-writes _ _ _ h
      resumed i (ws, ok b) h = record {
        all = All-append (Next old) ws _ h (tt, (keeps refl (inl refl), tt));
      }

      answered : (a : Answer Instance) → M (resume_of api operation a)
      answered (found i) =
          resumed i (execute_resume_schedules api i)
            (resume_schedules-All (Next old) (λ n b. tt) (λ n b. tt) api i)
      answered (not_found e) = fails_with-Follows api operation clusters _
      answered (failed_request e) = fails_with-Follows api operation clusters _

  module _ (with_data with_resource : Bool) where
    triggered-Follows :
        (i : Instance) (t : Triggered) → All (Next old) t.0 → M (after_trigger api operation t)
    unfolding triggered_status
    triggered-Follows i (ws, []) h = record {
      all = All-append (Next old) ws _ h (tt, (keeps refl (inl refl), tt));
    }
    triggered-Follows i (ws, e ∷ es) h =
        Each-after _ _ _ h (Each-status _ _ _ (keeps refl (inl refl)))

    failed-Follows : (e : String) → M (sync_failed api operation e)
    unfolding sync_failed retrying_status
    failed-Follows e =
        if-cases M (should_retry operation) _ _
          (λ q. record { all = (tt, (keeps refl (inl refl), tt)) })
          (λ q. Each-status _ _ _ (keeps refl (inl refl)))

    unready-Follows : (ps : List String) → M (by_pending api operation ps)
    unfolding synced_status
    unready-Follows [] = Each-status _ _ _ (keeps refl (inl refl))
    unready-Follows (p ∷ ps) = Each-status _ _ _ (keeps refl (inl refl))

    within-Follows : (ps : List String) (start : Option ℕ) → M (within api operation ps start)
    unfolding sync_timed_out_status
    within-Follows ps none = unready-Follows ps
    within-Follows ps (some start) =
        if-cases M
          (not (nat_eq operation.spec.timeout_minutes 0)
            && overdue (api.now - start) operation.spec.timeout_minutes)
          _ _ (λ q. Each-status _ _ _ (keeps refl (inl refl))) (λ q. unready-Follows ps)

    pub sync-Follows : M (handle_sync api operation with_data with_resource)
    unfolding handle_sync check_or_trigger
    sync-Follows = answered (api.instance operation.spec.instance_name)
      where
        checked :
            (ps : List String) (e : Option String)
            → M (elim e [
              | some x ↦ sync_failed api operation x
              | none ↦ within api operation ps old.start_time
            ])
        checked ps (some e) = failed-Follows e
        checked ps none = within-Follows ps old.start_time

        waited :
            (i : Instance) (r : Option ℕ)
            → M (unless_waiting api operation with_data with_resource i r)
        waited i (some r) = Each-waits _ _
        waited i none =
            let at = annotation (lookup trigger_key operation.annotations) in
            let c =
              check_syncs api with_data with_resource i (time_or_zero (api.time_of_text at)) in
            if-cases M (at == "") _ _
              (λ q. triggered-Follows i (trigger_syncs api with_data with_resource i) (
                trigger_writes-All (Next old) (λ n t. tt) (λ n t. tt) api with_data with_resource
                  i))
              (λ q. checked c.pending_info c.failed_error)

        answered : (a : Answer Instance) → M (sync_of api operation with_data with_resource a)
        answered (found i) = waited i (sync_retry_wait_remaining api.now old)
        answered (not_found e) = fails_with-Follows api operation clusters _
        answered (failed_request e) = fails_with-Follows api operation clusters _
