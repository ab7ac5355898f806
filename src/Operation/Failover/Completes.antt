-- ===== src/Operation/Failover/Completes.antt =====
-- internal/controller/disasteroperation/controller.go, `handleFailover`: a failover whose steps succeed
-- comes to its end.
use testudo_operator.Base.{
  ℕ, zero, suc, ◌≡◌, refl, sym, ◌∙◌, ap, subst, ◌+◌, String, Bool, true, false, none, List, [], ◌∷◌,
  ◌++◌, All, length, is_empty, if-cases, arith,
}
use testudo_operator.Base.Outcome.{Outcome, ok, err}
use testudo_operator.Drill.Types.{operation_completed, found}
use testudo_operator.Operation.Types.{
  failing_over, StepStatus, OperationStatus, Operation, Instance, Write, update_status, Handled,
  Api, Clusters, step_running, Executed,
}
use testudo_operator.Operation.Steps.{
  is_pending, Cursor, finished, at, next_step, started, start_step, complete_step, timed_out,
  after_writes,
}
use testudo_operator.Operation.Steps.Order.{AtStep, Stops, Changed, next_step-Stops}
use testudo_operator.Operation.Steps.Remaining.{
  remaining, Lighter, Changed-remaining, next_step-finished, finished-remaining, weight,
  Changed-nonempty,
}
use testudo_operator.Operation.Each.Parts.{failover_step-All}
use testudo_operator.Operation.InFlight.{find_other_in_flight_operation}
use testudo_operator.Operation.Failover.{
  execute_failover_step, failover_at, run_failover_step, failover_executed, failover_step_completed,
  continue_failover, compensates, handle_failover, finish_failover, failed_over_status,
}
use testudo_operator.Operation.Course.{running-of_open, pending-of_test}
use testudo_operator.Operation.Course.Ordered.{applied}

-- All writes of a reconciliation reach the server.
unfoldable pub all_applied : List Write → Operation → Operation
unfolding applied
all_applied [] o = o
all_applied (w ∷ ws) o = all_applied ws (applied w o)

-- A write that does not touch the operation.
abbrev Inert : Write → Type 0
Inert w = (o : Operation) → applied w o ≡ o

all_applied-Inert :
    (ws : List Write) (s : OperationStatus) (o : Operation)
    → All Inert ws
    → all_applied (ws ++ update_status s ∷ []) o ≡ record o { status = s }
unfolding all_applied applied
all_applied-Inert [] s o h = refl
all_applied-Inert (w ∷ ws) s o (p, rest) =
    ap (λ x. all_applied (ws ++ update_status s ∷ []) x) (p o) ∙ all_applied-Inert ws s o rest

-- A time at which the instance is failing over and no other failover of it is in flight, no step is
-- overdue, and each step that is executed is completed, whatever the status of the operation is.
pub record Smooth (operation : Operation) (i : Instance) (api : Api) (clusters : Clusters)
    : Type 0 where
  pub sees : api.instance operation.spec.instance_name ≡ found i
  pub sees_latest : api.latest_instance i.name ≡ found i
  pub failing : i.fsm_state ≡ failing_over
  pub others : List Operation
  pub lists : api.operations ≡ ok others
  pub alone :
      find_other_in_flight_operation operation.spec.instance_name operation.name others ≡ none
  pub timely : (step : StepStatus) → timed_out api.now operation.spec.timeout_minutes step ≡ false
  pub succeeds :
      (s : OperationStatus) (step : StepStatus)
      → (execute_failover_step api clusters (record operation { status = s }) i step).completed
        ≡ ok true

module _ (operation : Operation) (i : Instance) (api : Api) (clusters : Clusters)
    (smooth : Smooth operation i api clusters) (t : OperationStatus) where
  abbrev o : Operation
  o = record operation { status = t }

  -- The reconciliation changes nothing but the status, and does one unit of work on the steps.
  abbrev Goes : Handled → Type 0
  Goes h =
      (s : OperationStatus) × (all_applied h.0 o ≡ record operation { status = s })
      × Changed Lighter t.steps s.steps
      × (s.auto_cancel_status ≡ t.auto_cancel_status)

  module _ (before : List StepStatus) (step : StepStatus) (after : List StepStatus)
      (here : Stops Lighter t.steps before step after) where
    executed-Goes :
        (ws : List Write) (r : Outcome String Bool)
        → step.state ≡ step_running
        → All Inert ws
        → r ≡ ok true
        → (x : Executed) → Goes (after_writes ws (failover_executed api o before step after x r))
    unfolding failover_step_completed complete_step
    executed-Goes ws (err e) running inert h x = absurd (cc)
    executed-Goes ws (ok false) running inert h x = absurd (cc)
    executed-Goes ws (ok true) running inert h x =
        let s = failover_step_completed api o before step after in
        (
          s,
          all_applied-Inert ws s o inert,
          here.changes (complete_step api.now "已完成" step) (ap weight running),
          refl,
        )

    at-Goes : Goes (failover_at api o clusters i (at before step after))
    unfolding failover_at run_failover_step started start_step all_applied applied
    at-Goes =
        if-cases Goes (is_pending step.state) _ _
          (λ e. (
            started api.now t before step after,
            refl,
            here.changes (start_step api.now step) (ap weight (pending-of_test step.state e)),
            refl,
          ))
          (λ e.
            let x = execute_failover_step api clusters o i step in
            if-cases Goes (timed_out api.now operation.spec.timeout_minutes step) _ _
              (λ late. let on_time = smooth.timely step in absurd (cc))
              (λ p.
                executed-Goes x.writes x.completed (running-of_open step.state here.is_open e)
                  (failover_step-All Inert (λ n b w. refl) (λ n b w. refl) api clusters o i step)
                  (smooth.succeeds t step) x))

  cursor-Goes :
      (c : Cursor)
      → AtStep (Stops Lighter t.steps) c
      → next_step t.steps ≡ c
      → (n : ℕ) → remaining t.steps ≡ suc n
      → Goes (failover_at api o clusters i c)
  cursor-Goes finished h e n left =
      let none_left = finished-remaining t.steps e in absurd (omega arith)
  cursor-Goes (at before step after) h e n left = at-Goes before step after h

  abbrev Uncompensated : Type 0
  Uncompensated = compensates t.auto_cancel_status ≡ false

  continue-Goes :
      is_empty t.steps ≡ false
      → Uncompensated
      → (n : ℕ) → remaining t.steps ≡ suc n
      → Goes (continue_failover api o clusters i)
  unfolding continue_failover
  continue-Goes nonempty plain n left =
      rw nonempty
        (rw plain (cursor-Goes (next_step t.steps) (next_step-Stops Lighter t.steps) refl n left))

  handled : handle_failover api o clusters ≡ continue_failover api o clusters i
  unfolding handle_failover
  handled = rw smooth.sees (rw smooth.lists (rw smooth.alone (rw smooth.failing refl)))

  ends :
      is_empty t.steps ≡ false
      → Uncompensated
      → remaining t.steps ≡ 0
      → (all_applied (handle_failover api o clusters).0 o).status.state ≡ operation_completed
  unfolding all_applied applied continue_failover failover_at finish_failover failed_over_status
  ends nonempty plain none_left = rw handled (
      rw nonempty (
        rw plain (
          rw (next_step-finished t.steps none_left)
            (rw smooth.sees_latest (rw smooth.failing refl)))))

-- Reconciliations at the given times, all writes of which reach the server.
unfoldable pub run : List (Api × Clusters) → Operation → Operation
unfolding all_applied
run [] operation = operation
run ((api, clusters) ∷ times) operation =
    run times (all_applied (handle_failover api operation clusters).0 operation)

-- A failover comes to its end: from a status with steps, not being compensated, as many smooth times
-- as the steps have left to do, two for each pending step and one for a running one, and one more lead
-- to a completed operation.
pub run-completed :
    (operation : Operation) (i : Instance) (times : List (Api × Clusters)) (t : OperationStatus)
    → All (λ time. Smooth operation i time.0 time.1) times
    → is_empty t.steps ≡ false
    → compensates t.auto_cancel_status ≡ false
    → length times ≡ remaining t.steps + 1
    → (run times (record operation { status = t })).status.state ≡ operation_completed
unfolding run
run-completed operation i [] t smooth nonempty plain long = absurd (omega arith)
run-completed operation i ((api, clusters) ∷ times) t (now_smooth, smooth) nonempty plain long =
    go (λ s. run-completed operation i times s smooth) (remaining t.steps) refl
  where
    o : Operation
    o = record operation { status = t }

    Ends : Operation → Type 0
    Ends p = (run times p).status.state ≡ operation_completed

    follows :
        ((s : OperationStatus)
          → is_empty s.steps ≡ false
          → compensates s.auto_cancel_status ≡ false
          → length times ≡ remaining s.steps + 1
          → Ends (record operation { status = s }))
        → Goes operation i api clusters now_smooth t (handle_failover api o clusters)
        → Ends (all_applied (handle_failover api o clusters).0 o)
    follows ih (s, result, changed, same) =
        let less = Changed-remaining t.steps s.steps changed in
        rw result (
          ih s (Changed-nonempty Lighter t.steps s.steps changed) (ap compensates same ∙ plain)
            (omega arith))

    none_after :
        remaining t.steps ≡ 0
        → (times : List (Api × Clusters)) → length times ≡ 0
        → (run times (all_applied (handle_failover api o clusters).0 o)).status.state
          ≡ operation_completed
    none_after z [] e = ends operation i api clusters now_smooth t nonempty plain z
    none_after z (m ∷ ms) e = absurd (omega arith)

    go :
        ((s : OperationStatus)
          → is_empty s.steps ≡ false
          → compensates s.auto_cancel_status ≡ false
          → length times ≡ remaining s.steps + 1
          → Ends (record operation { status = s }))
        → (n : ℕ) → remaining t.steps ≡ n
        → Ends (all_applied (handle_failover api o clusters).0 o)
    go ih zero left = none_after left times (omega arith)
    go ih (suc n) left = follows ih (
        subst (λ h. Goes operation i api clusters now_smooth t h)
          (sym (handled operation i api clusters now_smooth t))
          (continue-Goes operation i api clusters now_smooth t nonempty plain n left))
