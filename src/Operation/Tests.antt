-- ===== src/Operation/Tests.antt =====
-- Runs of the operation controller at concrete inputs, and the theorems at concrete inputs.
use testudo_operator.Base.{
  ℕ, ◌+◌, ◌≡◌, ◌≢◌, refl, inr, ◌*◌, ◌≤◌, true, false, Option, none, some, List, [], ◌∷◌, ◌==◌, All,
  ltb, arith, if-cases,
}
use testudo_operator.Base.Outcome.{ok}
use testudo_operator.Drill.Types.{operation_completed, operation_failed, found}
use testudo_operator.Operation.Types.{
  failover, cancel, sync_data, active, protected, step_pending, step_running, step_completed,
  StepStatus, OperationStatus, Operation, Instance, Write, update_instance, update_status,
  update_status_of, Api, Executed, auto_cancel_running,
}
use testudo_operator.Operation.Steps.{timed_out, overdue, started_overdue}
use testudo_operator.Operation.Schedules.{
  execute_pause_schedules, execute_resume_schedules, pause_all, resume_all, schedule_names,
  append_unique_schedule_name, mem,
}
use testudo_operator.Base.Text.{trim_space}
use testudo_operator.Base.Assoc.{lookup}
use testudo_operator.Operation.Steps.Overdue.{overdue-bounded}
use testudo_operator.Operation.InFlight.{
  is_in_flight_operation_state, superseded_status, find_other_in_flight_operation,
}
use testudo_operator.Operation.AutoCancel.{
  handle_failover_auto_cancel_path, execute_cancel_step, execute_configured_cancel_step,
}
use testudo_operator.Operation.AutoCancel.Terminates.{
  Decisive, compensation_run, compensation-terminates,
}
use testudo_operator.Operation.AutoCancel.Ended.{Ending, compensation-Ending}
use testudo_operator.Operation.Failover.{
  handle_failover, execute_failover_step, switched, failed_over_status,
}
use testudo_operator.Operation.Failover.Completes.{Smooth, run, run-completed}
use testudo_operator.Operation.Failover.Repeated.{
  Alone, handle_failover_repeated, handle_undo_repeated,
}
use testudo_operator.Operation.Undo.{handle_undo, undone_status}
use testudo_operator.Operation.Sync.{handle_sync, check_or_trigger, sync_failed, retrying_status}
use testudo_operator.Operation.Retry.{should_retry, sync_retry_wait_remaining}
use testudo_operator.Operation.Checks.{check_syncs, check_synced}
use testudo_operator.Operation.Sync.Bounded.{sync_runs, retries_in, retries-le_max}
use testudo_operator.Operation.Group.{current_level, level_name}
use testudo_operator.Operation.Children.{empty_status}
use testudo_operator.Operation.Group.Levels.{current_level-level_name}
use testudo_operator.Operation.Group.Written.{Levels}
use testudo_operator.Operation.Reconcile.{reconcile_operation}
use testudo_operator.Operation.Course.{Next}
use testudo_operator.Operation.Course.Reconciled.{reconcile_follows}
use testudo_operator.Operation.Course.Terminal.{Final, reconcile-ended}
use testudo_operator.Operation.Course.Ordered.{
  reconciled, superseded, after_events, Ordered, after_events-Ordered, applied,
}
use testudo_operator.Operation.Failover.Completes.{all_applied}
use testudo_operator.Operation.Trigger.{remove_annotation}
use testudo_operator.Operation.Cancel.{handle_cancel}
use testudo_operator.Operation.Cancel.Protects.{Protects, handle_cancel-Protects}
use testudo_operator.Operation.Failover.Roles.{Changes, handle_failover-Changes}
use testudo_operator.Operation.Samples.{
  api, api_of, fresh, operation_of, ready_clusters, running_with, shop, shops, step_in,
}

-- The timeout of 153,722,868 minutes is the first that wraps around.
overdue_at_once : overdue 0 153722868 ≡ true
unfolding overdue
overdue_at_once = refl

overdue-bounded_example : overdue 3601 60 ≡ ltb (60 * 60) 3601
overdue-bounded_example = overdue-bounded 3601 60 (omega arith)

reconcile_follows_example : All (Next fresh.status) (reconcile_operation api ready_clusters fresh).0
reconcile_follows_example = reconcile_follows api fresh ready_clusters

after_events-Ordered_example :
    Ordered
      (after_events
        (reconciled api ready_clusters 1
          ∷ reconciled api ready_clusters 0
          ∷ superseded 7 fresh
          ∷ [])
        fresh).status
after_events-Ordered_example =
    after_events-Ordered
      (reconciled api ready_clusters 1 ∷ reconciled api ready_clusters 0 ∷ superseded 7 fresh ∷ [])
      fresh (λ e. inr tt)

reconcile-ended_example :
    All
      (Final (operation_of failover (record empty_status { state = operation_failed })))
      (reconcile_operation api ready_clusters
        (operation_of failover (record empty_status { state = operation_failed }))).0
unfolding is_in_flight_operation_state
reconcile-ended_example =
    reconcile-ended api ready_clusters
      (operation_of failover (record empty_status { state = operation_failed })) refl

abbrev compensating : Operation
compensating = operation_of failover (record (running_with []) {
  auto_cancel_status = auto_cancel_running;
  auto_cancel_steps = step_in "ScaleDownTarget" step_running ∷ [];
})

compensation-Ending_example :
    Ending api compensating shop ready_clusters
      (handle_failover_auto_cancel_path api ready_clusters compensating shop)
compensation-Ending_example = compensation-Ending api compensating shop ready_clusters

abbrev failing_api : Api
failing_api = record api {
  data_sync = λ n. found (record {
    name = n;
    instance = "shop";
    paused = false;
    state = "Failed";
    reason = "";
    message = "";
    last_sync_time = some 95;
    conditions = [];
  });
  time_of_text = λ t. some 90;
}

abbrev triggered : Operation
triggered = record (operation_of sync_data (running_with [])) {
  annotations = ("testudo.softcdata.com/sync-triggered-at", "90") ∷ [];
}

retries_once :
    ((sync_runs true false (failing_api ∷ []) triggered).status.retry_count ≡ 1)
    × (retries_in true false (failing_api ∷ []) triggered ≡ 1)
unfolding sync_runs retries_in handle_sync check_or_trigger sync_failed should_retry retrying_status
    check_syncs check_synced sync_retry_wait_remaining all_applied applied lookup remove_annotation
retries_once = (refl, refl)

retries-le_max_example :
    ((sync_runs true false (failing_api ∷ failing_api ∷ []) triggered).status.retry_count
      ≡ 0 + retries_in true false (failing_api ∷ failing_api ∷ []) triggered)
    × (0 + retries_in true false (failing_api ∷ failing_api ∷ []) triggered ≤ 2)
retries-le_max_example =
    retries-le_max true false (failing_api ∷ failing_api ∷ []) triggered (omega arith)

current_level-level_name_example : current_level (level_name 12) ≡ 12
current_level-level_name_example = current_level-level_name 12 (omega arith)

abbrev of_group : Operation
of_group = operation_of failover (record (running_with []) { current_step = "Level-0" })

-- The failover of a shop, and the cancellation that takes it over.
abbrev taking_over : Operation
taking_over = record (operation_of cancel (running_with [])) { name = "stop" }

abbrev failing_over_op : Operation
failing_over_op = operation_of failover (running_with (step_in "FinalSync" step_running ∷ []))

abbrev contested : Api
contested = record (api_of shop (failing_over_op ∷ taking_over ∷ []) shops) {
  latest_operation = λ n. found failing_over_op;
}

abbrev taken : List Write
taken = update_status_of "op" (superseded_status 100 taking_over failing_over_op) ∷ []

-- The last run of a cancellation.
abbrev stepped_back : Operation
stepped_back = operation_of cancel (running_with (step_in "ResumeSchedules" step_completed ∷ []))

handle_cancel-Protects_example :
    Protects api stepped_back shop ready_clusters (handle_cancel api stepped_back ready_clusters)
handle_cancel-Protects_example = handle_cancel-Protects api stepped_back shop ready_clusters refl

-- The last run of a failover.
abbrev stepped_over : Operation
stepped_over = operation_of failover (running_with (step_in "SwitchRoles" step_completed ∷ []))

handle_failover-Changes_example :
    All (Changes api stepped_over shop) (handle_failover api stepped_over ready_clusters).0
handle_failover-Changes_example = handle_failover-Changes api stepped_over shop ready_clusters refl

-- A failover with two steps left, at times at which all goes well.
no_limit : (step : StepStatus) → timed_out 100 0 step ≡ false
unfolding timed_out
no_limit step = none_late step.start_time
  where
    none_late : (t : Option ℕ) → started_overdue 100 0 t ≡ false
    none_late none = refl
    none_late (some t) = refl

succeeding :
    (s : OperationStatus) (step : StepStatus)
    → (execute_failover_step api ready_clusters (operation_of failover s) shop step).completed
      ≡ ok true
unfolding execute_failover_step execute_pause_schedules execute_resume_schedules pause_all
    resume_all schedule_names append_unique_schedule_name trim_space mem
succeeding s step =
    if-cases W (step.name == "PreCheck") _ _ (λ e. refl)
      (λ e.
        if-cases W (step.name == "PauseSchedules") _ _ (λ e. refl)
          (λ e.
            if-cases W (step.name == "ScaleDownSource") _ _ (λ e. refl)
              (λ e.
                if-cases W (step.name == "FinalSync") _ _ (λ e. refl)
                  (λ e.
                    if-cases W (step.name == "ScaleUpTarget") _ _ (λ e. refl)
                      (λ e.
                        if-cases W (step.name == "CheckReplicas") _ _ (λ e. refl)
                          (λ e.
                            if-cases W (step.name == "ResumeSchedules") _ _ (λ e. refl)
                              (λ e. refl)))))))
  where
    W : Executed → Type 0
    W x = x.completed ≡ ok true

all_well : Smooth fresh shop api ready_clusters
unfolding find_other_in_flight_operation
all_well = record {
  sees = refl;
  sees_latest = refl;
  failing = refl;
  others = [];
  lists = refl;
  alone = refl;
  timely = no_limit;
  succeeds = succeeding;
}

abbrev two_left : OperationStatus
two_left =
    running_with (step_in "PreCheck" step_completed ∷ step_in "SwitchRoles" step_pending ∷ [])

run-completed_example :
    (run
      ((api, ready_clusters) ∷ (api, ready_clusters) ∷ (api, ready_clusters) ∷ [])
      (record fresh { status = two_left })).status.state
    ≡ operation_completed
run-completed_example =
    run-completed fresh shop
      ((api, ready_clusters) ∷ (api, ready_clusters) ∷ (api, ready_clusters) ∷ []) two_left
      (all_well, (all_well, (all_well, tt))) refl refl (omega arith)

abbrev all_done : Operation
all_done = operation_of failover (running_with (step_in "SwitchRoles" step_completed ∷ []))

alone : (i : Instance) → Alone all_done (api_of i [] shops)
unfolding find_other_in_flight_operation
alone i = record { others = []; lists = refl; alone = refl }

handle_failover_repeated_example :
    ((handle_failover api all_done ready_clusters).0
      ≡ update_instance (switched shop)
        ∷ update_status (failed_over_status api all_done (switched shop))
        ∷ [])
    × ((all_applied
          (handle_failover (api_of (switched shop) [] shops) all_done ready_clusters).0
          all_done).status.state
        ≡ operation_failed)
unfolding switched
handle_failover_repeated_example =
    handle_failover_repeated all_done shop api (api_of (switched shop) [] shops) ready_clusters refl
      refl refl refl (alone shop) (alone (switched shop)) refl refl refl

abbrev active_shop : Instance
active_shop = record shop { fsm_state = active }

abbrev protected_shop : Instance
protected_shop = record active_shop { fsm_state = protected }

handle_undo_repeated_example :
    ((handle_undo (api_of active_shop [] shops) all_done ready_clusters).0
      ≡ update_instance protected_shop
        ∷ update_status (undone_status (api_of active_shop [] shops) all_done active_shop)
        ∷ [])
    × ((all_applied
          (handle_undo (api_of protected_shop [] shops) all_done ready_clusters).0
          all_done).status.state
        ≡ operation_failed)
handle_undo_repeated_example =
    handle_undo_repeated all_done active_shop (api_of active_shop [] shops)
      (api_of protected_shop [] shops) ready_clusters refl refl refl refl refl refl

deciding :
    (s : OperationStatus) (step : StepStatus)
    → (execute_cancel_step api ready_clusters (operation_of failover s) shop step).completed
      ≢ ok false
unfolding execute_cancel_step execute_configured_cancel_step execute_resume_schedules resume_all
    schedule_names append_unique_schedule_name trim_space mem
deciding s step =
    if-cases W (step.name == "ScaleDownTarget") _ _ (λ e h. cc)
      (λ e.
        if-cases W (step.name == "ScaleUpSource") _ _ (λ e h. cc)
          (λ e. if-cases W (step.name == "ResumeSchedules") _ _ (λ e h. cc) (λ e. (λ h. cc))))
  where
    W : Executed → Type 0
    W x = x.completed ≢ ok false

decisive : Decisive fresh shop api ready_clusters
decisive = record { latest = shop; sees_latest = refl; decides = deciding }

compensation-terminates_example :
    (compensation_run shop
      ((api, ready_clusters) ∷ (api, ready_clusters) ∷ [])
      (record fresh { status = compensating.status })).status.state
    ≡ operation_failed
compensation-terminates_example =
    compensation-terminates fresh shop ((api, ready_clusters) ∷ (api, ready_clusters) ∷ [])
      compensating.status (decisive, (decisive, tt)) (omega arith)
