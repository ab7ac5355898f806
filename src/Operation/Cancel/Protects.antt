-- ===== src/Operation/Cancel/Protects.antt =====
-- internal/controller/disasteroperation/controller.go, `handleCancel`: which instances and which
-- results a cancellation writes.
use testudo_operator.Base.{
  ◌≢◌, ap, [], ◌∷◌, ◌∙◌, ◌≡◌, ◌⊎◌, refl, sym, subst, String, Bool, true, false, some, List,
  is_empty, All, if-cases, inl, inr,
}
use testudo_operator.Base.Outcome.{Outcome, ok, err}
use testudo_operator.Drill.Types.{
  operation_completed, operation_failed, Answer, found, not_found, failed_request,
}
use testudo_operator.Operation.Types.{
  FsmState, protected, failing_over, fsm_failed, cancel, StepStatus, OperationStatus, Operation,
  Instance, Write, update_status, update_instance, settle_instance, Handled, Executed, Api,
  Clusters, pause_data_sync, pause_resource_sync,
}
use testudo_operator.Operation.Steps.{
  is_pending, Cursor, finished, at, next_step, timed_out, roles_of, fails_with, started, with_steps,
}
use testudo_operator.Operation.Each.{Each, Each-waits, Each-status, Each-after}
use testudo_operator.Operation.Each.Parts.{settle-All, cancel_step-All, resume_schedules-All}
use testudo_operator.Operation.Schedules.{Run, execute_resume_schedules}
use testudo_operator.Operation.Failure.{settled, fail_operation_on_step_error}
use testudo_operator.Operation.Failed.{step_timed_out, step_error, timed_out_status}
use testudo_operator.Operation.AutoCancel.{execute_cancel_step, effective_operation_timeout_minutes}
use testudo_operator.Operation.Cancel.{
  can_run_cancel, idempotent_status, cancel_idempotently, cancelled_status, protect_cancelled,
  finish_cancel, cancel_step_done, cancel_executed, run_cancel_step, cancel_at, continue_cancel,
  unless_runnable, enter_cancel, cancel_of, handle_cancel,
}

interrupted : (s : FsmState) → can_run_cancel s ≡ true → (s ≡ failing_over) ⊎ (s ≡ fsm_failed)
unfolding can_run_cancel
interrupted failing_over h = inl refl
interrupted fsm_failed h = inr refl
interrupted _ h = absurd (cc)

module _ (api : Api) (operation : Operation) (i : Instance) (clusters : Clusters) where
  -- The instance fails over, or a step failed.
  abbrev pub Interrupted : Type 0
  Interrupted = (i.fsm_state ≡ failing_over) ⊎ (i.fsm_state ≡ fsm_failed)

  -- The instance as it is read again, once all the steps of the operation are passed.
  pub record Finished (latest : Instance) : Type 0 where
    pub is_latest : api.latest_instance i.name ≡ found latest
    pub all_passed : next_step operation.status.steps ≡ finished
    pub has_steps : is_empty operation.status.steps ≡ false
    pub is_interrupted : Interrupted

  abbrev pub is_late : StepStatus → Bool
  is_late step = timed_out api.now (effective_operation_timeout_minutes api operation i) step

  -- A step that is running takes too long, or its execution gives an error.
  pub data FailingStep (step : StepStatus) : Type 0 where
    by_time : is_late step ≡ true → FailingStep step
    by_error :
        (e : String)
        → is_late step ≡ false
        → (execute_cancel_step api clusters operation i step).completed ≡ err e
        → FailingStep step

  -- Why a cancellation fails.
  pub data Failure : Type 0 where
    by_state : (Interrupted → ⊥) → i.fsm_state ≢ protected → Failure
    by_resuming :
        (e : String)
        → i.fsm_state ≡ protected
        → (execute_resume_schedules api i).1 ≡ err e
        → Failure
    by_step :
        (before : List StepStatus) (step : StepStatus) (after : List StepStatus)
        → next_step operation.status.steps ≡ at before step after
        → is_pending step.state ≡ false
        → FailingStep step
        → Failure

  -- The operation goes on, it has failed, or its instance was protected from the beginning.
  pub data Result (new : OperationStatus) : Type 0 where
    goes_on : new.state ≡ operation.status.state → Result new
    is_failed : new.state ≡ operation_failed → Failure → Result new
    was_protected :
        new.state ≡ operation_completed
        → i.fsm_state ≡ protected
        → new.role_status ≡ some (roles_of i)
        → Result new

  -- A write of a run that does not lead the instance back.
  abbrev pub Interim : Write → Type 0
  Interim (update_status s) = Result s
  Interim (update_instance j) = ⊥
  Interim (settle_instance j) = (j.fsm_state ≡ fsm_failed) × Interrupted
  Interim (pause_data_sync name b) = Unit
  Interim (pause_resource_sync name b) = Unit
  Interim w = ⊥

  -- A run of a cancellation: it protects the instance and then completes the operation, or it does
  -- neither.
  pub data Protects (h : Handled) : Type 0 where
    is_cancelled :
        (latest : Instance) (new : OperationStatus)
        → Finished latest
        → h.0 ≡ update_instance (record latest { fsm_state = protected }) ∷ update_status new ∷ []
        → new.state ≡ operation_completed
        → new.role_status ≡ some (roles_of latest)
        → Protects h
    is_interim : ((latest : Instance) → Finished latest → ⊥) → All Interim h.0 → Protects h

  abbrev M : Handled → Type 0
  M = Each Interim

  idempotent-Protects :
      i.fsm_state ≡ protected
      → (r : Run) → execute_resume_schedules api i ≡ r
      → All Interim r.0
      → M (cancel_idempotently api operation i r)
  unfolding idempotent_status fails_with
  idempotent-Protects e (ws, err m) q h =
      Each-after _ _ _ h
        (Each-status _ _ _ (is_failed refl (by_resuming m e (ap (λ (r : Run). r.1) q))))
  idempotent-Protects e (ws, ok b) q h =
      Each-after _ _ _ h (Each-status _ _ _ (was_protected refl e refl))

  module _ (runnable : Interrupted) where
    module _ (before : List StepStatus) (step : StepStatus) (after : List StepStatus)
        (here : next_step operation.status.steps ≡ at before step after)
        (running : is_pending step.state ≡ false) where
      error-Protects :
          (j : Instance) (e : String)
          → FailingStep step
          → M (step_error api operation cancel j before step after e)
      unfolding step_error fail_operation_on_step_error settled
      error-Protects j e f =
          Each-after _ _ _ (settle-All Interim api cancel j step.name e (λ k t. (refl, runnable)))
            (Each-status _ _ _ (is_failed refl (by_step before step after here running f)))

      executed-Protects :
          is_late step ≡ false
          → (x : Executed) (r : Outcome String Bool)
          → (execute_cancel_step api clusters operation i step).completed ≡ r
          → M (cancel_executed api operation before step after x r)
      unfolding cancel_step_done
      executed-Protects p x (err e) q = error-Protects x.instance e (by_error e p q)
      executed-Protects p x (ok true) q = Each-status _ _ _ (goes_on refl)
      executed-Protects p x (ok false) q = Each-waits _ _

      late-Protects :
          is_late step ≡ true
          → M (
              step_timed_out api operation cancel
                (effective_operation_timeout_minutes api operation i)
                i
                before
                step
                after)
      unfolding step_timed_out settled timed_out_status
      late-Protects p =
          Each-after _ _ _ (settle-All Interim api cancel i step.name _ (λ k t. (refl, runnable))) (
            Each-status _ _ _ (is_failed refl (by_step before step after here running (by_time p))))

    module _ (some_steps : is_empty operation.status.steps ≡ false) where
      finish-Protects :
          next_step operation.status.steps ≡ finished → Protects (finish_cancel api operation i)
      unfolding finish_cancel cancelled_status
      finish-Protects e = answered (api.latest_instance i.name) refl
        where
          answered :
              (a : Answer Instance)
              → api.latest_instance i.name ≡ a
              → Protects (protect_cancelled api operation a)
          answered (found latest) q =
              let f : Finished latest = record {
                is_latest = q;
                all_passed = e;
                has_steps = some_steps;
                is_interrupted = runnable;
              } in
              is_cancelled latest _ f refl refl refl
          answered (not_found m) q =
              is_interim (λ l f. let p : not_found m ≡ found l = sym q ∙ f.is_latest in cc) tt
          answered (failed_request m) q =
              is_interim (λ l f. let p : failed_request m ≡ found l = sym q ∙ f.is_latest in cc) tt

      at-Protects :
          (c : Cursor)
          → next_step operation.status.steps ≡ c
          → Protects (cancel_at api operation clusters i c)
      unfolding cancel_at run_cancel_step started
      at-Protects finished e = finish-Protects e
      at-Protects (at before step after) e =
          let x = execute_cancel_step api clusters operation i step in
          is_interim (λ l f. let p : at before step after ≡ finished = sym e ∙ f.all_passed in cc)
            (if-cases M (is_pending step.state) _ _ (λ q. Each-status _ _ _ (goes_on refl))
              (λ q.
                if-cases M
                  (timed_out api.now (effective_operation_timeout_minutes api operation i) step) _ _
                  (λ p. late-Protects before step after e q p)
                  (λ p.
                    Each-after Interim x.writes
                      (cancel_executed api operation before step after x x.completed)
                      (cancel_step-All Interim (λ n b. tt) (λ n b. tt) api clusters operation i
                        step)
                      (executed-Protects before step after e q p x x.completed refl)))).all

    continue-Protects : Protects (continue_cancel api operation clusters i)
    unfolding continue_cancel with_steps
    continue-Protects =
        if-cases Protects (is_empty operation.status.steps) _ _
          (λ e.
            is_interim (λ l f. let p : true ≡ false = sym e ∙ f.has_steps in cc) (goes_on refl, tt))
          (λ e. at-Protects e (next_step operation.status.steps) refl)

  not_interrupted : can_run_cancel i.fsm_state ≡ false → Interrupted → ⊥
  unfolding can_run_cancel
  not_interrupted e (inl p) = let q : true ≡ false = rw p at e in cc
  not_interrupted e (inr p) = let q : true ≡ false = rw p at e in cc

  not_protected : i.fsm_state ≡ protected → Interrupted → ⊥
  not_protected q (inl p) = let r : protected ≡ failing_over = sym q ∙ p in cc
  not_protected q (inr p) = let r : protected ≡ fsm_failed = sym q ∙ p in cc

  runnable-Protects :
      i.fsm_state ≢ protected
      → Protects (unless_runnable api operation clusters i (can_run_cancel i.fsm_state))
  unfolding fails_with
  runnable-Protects u = by_test (can_run_cancel i.fsm_state) refl
    where
      by_test :
          (b : Bool)
          → can_run_cancel i.fsm_state ≡ b
          → Protects (unless_runnable api operation clusters i b)
      by_test true e = continue-Protects (interrupted i.fsm_state e)
      by_test false e =
          is_interim (λ l f. not_interrupted e f.is_interrupted)
            (is_failed refl (by_state (not_interrupted e) u), tt)

  -- A run of a cancellation of an instance that can be read does one of two things. Either it makes
  -- the instance as read again protected, changing nothing but its state, and then completes the
  -- operation with the roles of that instance, and it writes nothing else; this needs an instance that
  -- fails over or has failed, and an operation with steps, all of which are passed. Or one of these is
  -- missing, or the instance cannot be read again; then it protects no instance, makes one failed only
  -- if the instance fails over or has failed, and leaves the state of the operation; or completes it,
  -- with the roles of the instance, when that was protected already; or fails it, because the instance
  -- is in another state, because the synchronisations of a protected instance cannot be resumed, or
  -- because a step takes too long or gives an error.
  pub handle_cancel-Protects :
      api.instance operation.spec.instance_name ≡ found i
      → Protects (handle_cancel api operation clusters)
  unfolding handle_cancel
  handle_cancel-Protects e =
      subst (λ a. Protects (cancel_of api operation clusters a)) (sym e) (entered i.fsm_state refl)
    where
      entered :
          (s : FsmState) → i.fsm_state ≡ s → Protects (enter_cancel api operation clusters i s)
      entered protected q =
          is_interim (λ l f. not_protected q f.is_interrupted)
            (idempotent-Protects q (execute_resume_schedules api i) refl
              (resume_schedules-All Interim (λ n b. tt) (λ n b. tt) api i)).all
      entered s q =
          subst (λ t. Protects (unless_runnable api operation clusters i (can_run_cancel t))) q
            (runnable-Protects (λ p. let r : s ≡ protected = sym q ∙ p in cc))
