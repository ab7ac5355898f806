-- ===== src/Operation/AutoCancel/Ended.antt =====
-- internal/controller/disasteroperation/controller.go, `handleFailoverAutoCancelPath`: how a compensation
-- ends.
use testudo_operator.Base.{
  ◌≡◌, refl, sym, ◌∙◌, subst, inl, String, Bool, true, false, List, [], ◌∷◌, ◌==◌, All, All-append,
  In, In-append_right, if-cases,
}
use testudo_operator.Base.Text.{join}
use testudo_operator.Base.Outcome.{Outcome, ok, err}
use testudo_operator.Drill.Types.{
  operation_failed, Answer, Answered, done, requeue, requeue_after, found, not_found,
  failed_request,
}
use testudo_operator.Operation.Types.{
  protected, fsm_failed, cancel, StepStatus, OperationStatus, Operation, Instance, Write,
  update_status, update_instance, settle_instance, Handled, Executed, Api, Clusters, succeeded,
  auto_cancel_failed, pause_data_sync, pause_resource_sync, writes_status, waits,
}
use testudo_operator.Operation.Steps.{
  is_pending, Cursor, finished, at, next_step, timed_out, put_step, start_step, complete_step,
  after_writes,
}
use testudo_operator.Operation.Each.Parts.{settle-All, cancel_step-All}
use testudo_operator.Operation.Failure.{settled}
use testudo_operator.Operation.AutoCancel.{
  fail_failover_auto_cancel, auto_cancel_failed_status, complete_failover_auto_cancel, compensate,
  compensated_status, auto_cancel_step_started, auto_cancel_step_completed, auto_cancel_step_waits,
  auto_cancel_executed, run_auto_cancel_step, auto_cancel_at, handle_failover_auto_cancel_path,
  execute_cancel_step, effective_operation_timeout_minutes, cancel_message,
}

-- The state of the operation and of its compensation stays.
abbrev pub Continues : OperationStatus → OperationStatus → Type 0
Continues old new =
    (new.state ≡ old.state)
    × (new.auto_cancel_status ≡ old.auto_cancel_status)
    × (new.manual_intervention_required ≡ old.manual_intervention_required)

-- A write of this status, of an instance that has failed, or of a synchronisation.
abbrev pub Only : OperationStatus → Write → Type 0
Only new (update_status s) = s ≡ new
Only new (settle_instance j) = j.fsm_state ≡ fsm_failed
Only new (pause_data_sync name b) = Unit
Only new (pause_resource_sync name b) = Unit
Only new w = ⊥

-- The writes are of this kind, and the status is among them.
abbrev pub Writes : OperationStatus → Handled → Type 0
Writes new h = All (Only new) h.0 × In (update_status new) h.0

module _ (api : Api) (operation : Operation) (i : Instance) (clusters : Clusters) where
  abbrev pub compensation_steps : List StepStatus
  compensation_steps = operation.status.auto_cancel_steps

  abbrev pub is_late : StepStatus → Bool
  is_late step = timed_out api.now (effective_operation_timeout_minutes api operation i) step

  -- A step that is running takes too long, or it is executed with this result.
  abbrev pub Executes : StepStatus → Outcome String Bool → Type 0
  Executes step r =
      (is_pending step.state ≡ false)
      × (is_late step ≡ false)
      × ((execute_cancel_step api clusters operation i step).completed ≡ r)

  pub data Failing (step : StepStatus) : Type 0 where
    by_time : is_pending step.state ≡ false → is_late step ≡ true → Failing step
    by_error : (e : String) → Executes step (err e) → Failing step

  -- What one run of the compensation does.
  pub data Ending (h : Handled) : Type 0 where
    ends_well :
        (latest : Instance) (new : OperationStatus)
        → next_step compensation_steps ≡ finished
        → api.latest_instance i.name ≡ found latest
        → h.0
          ≡ update_instance (record latest { fsm_state = protected; reason = ""; message = "" })
            ∷ update_status new
            ∷ []
        → new.state ≡ operation_failed
        → new.auto_cancel_status ≡ succeeded
        → new.manual_intervention_required ≡ false
        → Ending h
    is_unread :
        next_step compensation_steps ≡ finished
        → ((latest : Instance) → api.latest_instance i.name ≡ found latest → ⊥)
        → h.0 ≡ []
        → Ending h
    ends_badly :
        (before : List StepStatus) (step : StepStatus) (after : List StepStatus)
        (new : OperationStatus)
        → next_step compensation_steps ≡ at before step after
        → Failing step
        → Writes new h
        → new.state ≡ operation_failed
        → new.auto_cancel_status ≡ auto_cancel_failed
        → new.manual_intervention_required ≡ true
        → Ending h
    starts :
        (before : List StepStatus) (step : StepStatus) (after : List StepStatus)
        (new : OperationStatus)
        → next_step compensation_steps ≡ at before step after
        → is_pending step.state ≡ true
        → Writes new h
        → Continues operation.status new
        → new.auto_cancel_steps ≡ put_step before (start_step api.now step) after
        → Ending h
    advances :
        (before : List StepStatus) (step : StepStatus) (after : List StepStatus)
        (new : OperationStatus)
        → next_step compensation_steps ≡ at before step after
        → Executes step (ok true)
        → Writes new h
        → Continues operation.status new
        → new.auto_cancel_steps ≡ put_step before (complete_step api.now "已完成" step) after
        → Ending h
    stays :
        (before : List StepStatus) (step : StepStatus) (after : List StepStatus)
        (new : OperationStatus)
        → next_step compensation_steps ≡ at before step after
        → Executes step (ok false)
        → All (Only new) h.0
        → Continues operation.status new
        → Ending h

  module _ (new : OperationStatus) where
    written : (answer : Answered) → Writes new (writes_status new answer)
    written answer = ((refl, tt), inl refl)

    after-Only :
        (ws : List Write) (h : Handled)
        → All (Only new) ws
        → All (Only new) h.0
        → All (Only new) (after_writes ws h).0
    after-Only ws (vs, answer) p q = All-append (Only new) ws vs p q

    after-Writes :
        (ws : List Write) (h : Handled)
        → All (Only new) ws
        → Writes new h
        → Writes new (after_writes ws h)
    after-Writes ws (vs, answer) p q =
        (All-append (Only new) ws vs p q.0, In-append_right _ ws vs q.1)

    run-Only :
        (step : StepStatus)
        → All (Only new) (execute_cancel_step api clusters operation i step).writes
    run-Only step = cancel_step-All (Only new) (λ n b. tt) (λ n b. tt) api clusters operation i step

  complete-Ending :
      next_step compensation_steps ≡ finished
      → Ending (complete_failover_auto_cancel api operation i)
  unfolding complete_failover_auto_cancel compensated_status
  complete-Ending e = answered (api.latest_instance i.name) refl
    where
      answered :
          (a : Answer Instance)
          → api.latest_instance i.name ≡ a
          → Ending (compensate api operation i a)
      answered (found latest) q = ends_well latest _ e q refl refl refl refl
      answered (not_found m) q =
          is_unread e (λ l p. let r : not_found m ≡ found l = sym q ∙ p in cc) refl
      answered (failed_request m) q =
          is_unread e (λ l p. let r : failed_request m ≡ found l = sym q ∙ p in cc) refl

  module _ (before : List StepStatus) (step : StepStatus) (after : List StepStatus)
      (e : next_step compensation_steps ≡ at before step after) where
    failed-Writes :
        (j : Instance) (message : String)
        → Writes
            (auto_cancel_failed_status api operation j before step after message)
            (fail_failover_auto_cancel api operation j before step after message)
    unfolding fail_failover_auto_cancel settled
    failed-Writes j message =
        let new = auto_cancel_failed_status api operation j before step after message in
        after-Writes new _ (writes_status new done)
          (settle-All (Only new) api cancel j step.name message (λ k t. refl)) (written new done)

    ran :
        (x : Executed)
        → execute_cancel_step api clusters operation i step ≡ x
        → (new : OperationStatus) → All (Only new) x.writes
    ran x q new = subst (λ (y : Executed). All (Only new) y.writes) q (run-Only new step)

    executed-Ending :
        (x : Executed)
        → execute_cancel_step api clusters operation i step ≡ x
        → (r : Outcome String Bool) → Executes step r
        → Ending
            (after_writes x.writes (auto_cancel_executed api operation i before step after x r))
    unfolding auto_cancel_step_waits auto_cancel_step_completed auto_cancel_failed_status
    executed-Ending x q (err m) h =
        let new = auto_cancel_failed_status api operation x.instance before step after m in
        ends_badly before step after new e (by_error m h)
          (after-Writes new x.writes
            (fail_failover_auto_cancel api operation x.instance before step after m) (ran x q new)
            (failed-Writes x.instance m))
          refl refl refl
    executed-Ending x q (ok true) h =
        let new = auto_cancel_step_completed api operation i before step after in
        advances before step after new e h
          (after-Writes new x.writes (writes_status new requeue) (ran x q new)
            (written new requeue))
          (refl, refl, refl) refl
    executed-Ending x q (ok false) h =
        let again = requeue_after api.step_running_requeue in
        if-cases (λ (k : Handled). Ending (after_writes x.writes k))
          (x.step_message == step.message) _ _
          (λ p.
            stays before step after operation.status e h
              (after-Only operation.status x.writes (waits again) (ran x q operation.status) tt)
              (refl, refl, refl))
          (λ p.
            let new : OperationStatus = record operation.status {
              auto_cancel_steps = put_step before (record step { message = x.step_message }) after;
              message =
                  cancel_message api operation i step.name
                    (join "" (" 进行中: " ∷ x.step_message ∷ []));
            } in
            stays before step after new e h
              (after-Writes new x.writes (writes_status new again) (ran x q new)
                (written new again)).0
              (refl, refl, refl))

    at-Ending : Ending (auto_cancel_at api operation i clusters (at before step after))
    unfolding auto_cancel_at run_auto_cancel_step auto_cancel_step_started auto_cancel_failed_status
    at-Ending =
        let x = execute_cancel_step api clusters operation i step in
        if-cases Ending (is_pending step.state) _ _
          (λ q.
            starts before step after (auto_cancel_step_started api operation i before step after) e
              q (written _ (requeue_after api.step_start_requeue)) (refl, refl, refl) refl)
          (λ q.
            if-cases Ending (is_late step) _ _
              (λ p.
                ends_badly before step after _ e (by_time q p) (failed-Writes i _) refl refl refl)
              (λ p. executed-Ending x refl x.completed (q, p, refl)))

  -- One run of a compensation. When all its steps are passed, it makes the instance as read again
  -- protected, without an error and with its roles, and then the compensation has succeeded and nobody
  -- need intervene; if the instance cannot be read, nothing is written. When a step that is running
  -- takes too long, or its execution gives an error, the operation has failed with a failed
  -- compensation and a request to intervene, and an instance that is settled has failed. A pending
  -- step is started, a step that is done is completed, and the state of the operation and of its
  -- compensation stays then, as it does while a step goes on; no instance is written in these cases
  -- but a failed one that is settled.
  pub compensation-Ending : Ending (handle_failover_auto_cancel_path api clusters operation i)
  unfolding handle_failover_auto_cancel_path auto_cancel_at
  compensation-Ending = by_cursor (next_step compensation_steps) refl
    where
      by_cursor :
          (c : Cursor)
          → next_step compensation_steps ≡ c
          → Ending (auto_cancel_at api operation i clusters c)
      by_cursor finished e = complete-Ending e
      by_cursor (at before step after) e = at-Ending before step after e
