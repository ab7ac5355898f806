-- ===== src/Operation/AutoCancel/Terminates.antt =====
-- internal/controller/disasteroperation/controller.go, `handleFailoverAutoCancelPath`: a compensation comes
-- to its end.
use testudo_operator.Base.{
  ◌≡◌, ◌≢◌, refl, ◌∙◌, ap, ◌⊎◌, inl, inr, ◌<◌, String, Bool, true, false, List, [], ◌∷◌, ◌++◌, All,
  length, if◌then◌else◌, if-cases, arith,
}
use testudo_operator.Base.Outcome.{Outcome, ok, err}
use testudo_operator.Drill.Types.{
  OperationState, operation_unset, operation_pending, operation_running, operation_completed,
  operation_failed, found, done,
}
use testudo_operator.Operation.Types.{
  cancel, StepStatus, step_running, OperationStatus, Operation, Instance, Write, update_status,
  Handled, Executed, Api, Clusters,
}
use testudo_operator.Operation.Steps.{
  is_pending, Cursor, finished, at, next_step, start_step, complete_step, timed_out, after_writes,
}
use testudo_operator.Operation.Steps.Order.{AtStep, Stops, Changed, next_step-Stops}
use testudo_operator.Operation.Steps.Remaining.{remaining, Lighter, Changed-remaining, weight}
use testudo_operator.Operation.Each.Parts.{cancel_step-All, settle-All}
use testudo_operator.Operation.Failure.{is_failed, settle_instance_state_on_step_failure}
use testudo_operator.Operation.AutoCancel.{
  fail_failover_auto_cancel, auto_cancel_failed_status, complete_failover_auto_cancel,
  compensated_status, auto_cancel_step_started, auto_cancel_step_completed, auto_cancel_executed,
  run_auto_cancel_step, auto_cancel_at, handle_failover_auto_cancel_path, execute_cancel_step,
  effective_operation_timeout_minutes,
}
use testudo_operator.Operation.Course.{running-of_open, pending-of_test}
use testudo_operator.Operation.Course.Ordered.{applied}
use testudo_operator.Operation.Failover.Completes.{all_applied}

abbrev Inert : Write → Type 0
Inert w = (o : Operation) → applied w o ≡ o

all_applied-after_writes :
    (ws : List Write) (h : Handled) (o : Operation)
    → All Inert ws
    → all_applied (after_writes ws h).0 o ≡ all_applied h.0 o
unfolding all_applied
all_applied-after_writes [] h o q = refl
all_applied-after_writes (w ∷ ws) (vs, a) o (p, rest) =
    ap (λ x. all_applied (ws ++ vs) x) (p o) ∙ all_applied-after_writes ws (vs, a) o rest

-- A time at which the instance can be read, and a step of the compensation that is executed is
-- completed or fails, but does not keep the controller waiting, whatever the status of the operation is.
pub record Decisive (operation : Operation) (i : Instance) (api : Api) (clusters : Clusters)
    : Type 0 where
  pub latest : Instance
  pub sees_latest : api.latest_instance i.name ≡ found latest
  pub decides :
      (s : OperationStatus) (step : StepStatus)
      → (execute_cancel_step api clusters (record operation { status = s }) i step).completed
        ≢ ok false

module _ (operation : Operation) (i : Instance) (api : Api) (clusters : Clusters)
    (decisive : Decisive operation i api clusters) (t : OperationStatus) where
  abbrev o : Operation
  o = record operation { status = t }

  -- The reconciliation ends the operation, or does one unit of work on the compensation.
  abbrev Goes : Handled → Type 0
  Goes h =
      (s : OperationStatus) × (all_applied h.0 o ≡ record operation { status = s })
      × ((s.state ≡ operation_failed) ⊎ Changed Lighter t.auto_cancel_steps s.auto_cancel_steps)

  after-Goes : (ws : List Write) (h : Handled) → All Inert ws → Goes h → Goes (after_writes ws h)
  after-Goes ws h q (s, e, r) = (s, all_applied-after_writes ws h o q ∙ e, r)

  fail-Goes :
      (before : List StepStatus) (step : StepStatus) (after : List StepStatus) (message : String)
      (j : Instance)
      → Goes (fail_failover_auto_cancel api o j before step after message)
  unfolding fail_failover_auto_cancel auto_cancel_failed_status all_applied applied
  fail-Goes before step after message j =
      after-Goes (settle_instance_state_on_step_failure api cancel j step.name message)
        (update_status (auto_cancel_failed_status api o j before step after message) ∷ [], done)
        (settle-All Inert api cancel j step.name message (λ k m w. refl))
        (auto_cancel_failed_status api o j before step after message, refl, inl refl)

  module _ (before : List StepStatus) (step : StepStatus) (after : List StepStatus)
      (here : Stops Lighter t.auto_cancel_steps before step after) where
    executed-Goes :
        (x : Executed) (r : Outcome String Bool)
        → step.state ≡ step_running
        → r ≢ ok false
        → Goes (auto_cancel_executed api o i before step after x r)
    unfolding auto_cancel_step_completed complete_step all_applied applied
    executed-Goes x (err e) running h = fail-Goes before step after e x.instance
    executed-Goes x (ok false) running h = absurd (h refl)
    executed-Goes x (ok true) running h = (
      auto_cancel_step_completed api o i before step after,
      refl,
      inr (here.changes (complete_step api.now "已完成" step) (ap weight running)),
    )

    at-Goes : Goes (auto_cancel_at api o i clusters (at before step after))
    unfolding auto_cancel_at run_auto_cancel_step auto_cancel_step_started start_step all_applied
        applied
    at-Goes =
        if-cases Goes (is_pending step.state) _ _
          (λ e. (
            auto_cancel_step_started api o i before step after,
            refl,
            inr (here.changes (start_step api.now step) (ap weight (pending-of_test step.state e))),
          ))
          (λ e.
            let x = execute_cancel_step api clusters o i step in
            if-cases Goes (timed_out api.now (effective_operation_timeout_minutes api o i) step) _ _
              (λ late. fail-Goes before step after _ i)
              (λ p.
                after-Goes x.writes (auto_cancel_executed api o i before step after x x.completed)
                  (cancel_step-All Inert (λ n b w. refl) (λ n b w. refl) api clusters o i step)
                  (executed-Goes x x.completed (running-of_open step.state here.is_open e)
                    (decisive.decides t step))))

  cursor-Goes :
      (c : Cursor)
      → AtStep (Stops Lighter t.auto_cancel_steps) c
      → Goes (auto_cancel_at api o i clusters c)
  unfolding auto_cancel_at complete_failover_auto_cancel compensated_status all_applied applied
  cursor-Goes finished h =
      rw decisive.sees_latest (compensated_status api o i decisive.latest, refl, inl refl)
  cursor-Goes (at before step after) h = at-Goes before step after h

  handled-Goes : Goes (handle_failover_auto_cancel_path api clusters o i)
  unfolding handle_failover_auto_cancel_path
  handled-Goes =
      cursor-Goes (next_step t.auto_cancel_steps) (next_step-Stops Lighter t.auto_cancel_steps)

-- The compensation at the given times, all writes of which reach the server, until the operation has
-- failed.
unfoldable pub compensation_run : Instance → List (Api × Clusters) → Operation → Operation
unfolding all_applied
compensation_run i [] operation = operation
compensation_run i ((api, clusters) ∷ times) operation =
    let rest =
      compensation_run i times
        (all_applied (handle_failover_auto_cancel_path api clusters operation i).0 operation) in
    if is_failed operation.status.state then operation else rest

failed-of_test : (s : OperationState) → is_failed s ≡ true → s ≡ operation_failed
failed-of_test operation_failed h = refl
failed-of_test operation_unset h = absurd (cc)
failed-of_test operation_pending h = absurd (cc)
failed-of_test operation_running h = absurd (cc)
failed-of_test operation_completed h = absurd (cc)

run-failed :
    (i : Instance) (times : List (Api × Clusters)) (o : Operation)
    → o.status.state ≡ operation_failed
    → (compensation_run i times o).status.state ≡ operation_failed
unfolding compensation_run
run-failed i [] o h = h
run-failed i ((api, clusters) ∷ times) o h =
    if-cases (λ (p : Operation). p.status.state ≡ operation_failed) (is_failed o.status.state) _ _
      (λ e. h) (λ e. let q : is_failed o.status.state ≡ true = ap is_failed h in absurd (cc))

-- A compensation ends: from whatever status of the operation, as many decisive times as its steps have
-- left to do, two for each pending step and one for a running one, and one more, lead to an operation
-- that has failed, well or badly compensated. The steps may be completed, fail or take too long in
-- any combination.
pub compensation-terminates :
    (operation : Operation) (i : Instance) (times : List (Api × Clusters)) (t : OperationStatus)
    → All (λ time. Decisive operation i time.0 time.1) times
    → remaining t.auto_cancel_steps < length times
    → (compensation_run i times (record operation { status = t })).status.state ≡ operation_failed
unfolding compensation_run
compensation-terminates operation i [] t decisive long = absurd (omega arith)
compensation-terminates operation i ((api, clusters) ∷ times) t (decisive_now, decisive) long =
    if-cases (λ (p : Operation). p.status.state ≡ operation_failed) (is_failed t.state) _ _
      (λ e. failed-of_test t.state e)
      (λ e.
        goes (λ s. compensation-terminates operation i times s decisive)
          (handled-Goes operation i api clusters decisive_now t))
  where
    goes :
        ((s : OperationStatus)
          → remaining s.auto_cancel_steps < length times
          → (compensation_run i times (record operation { status = s })).status.state
            ≡ operation_failed)
        → Goes operation i api clusters decisive_now t
            (handle_failover_auto_cancel_path api clusters (record operation { status = t }) i)
        → (compensation_run i times (
            all_applied
              (handle_failover_auto_cancel_path api clusters (record operation { status = t }) i).0
              (record operation { status = t }))).status.state
          ≡ operation_failed
    goes ih (s, e, inl failed) = rw e (run-failed i times (record operation { status = s }) failed)
    goes ih (s, e, inr changed) =
        let less = Changed-remaining t.auto_cancel_steps s.auto_cancel_steps changed in
        rw e (ih s (omega arith))
