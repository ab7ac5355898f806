-- ===== src/Operation/Failover/Roles.antt =====
-- internal/controller/disasteroperation/controller.go, `handleFailover`: when a failover changes its
-- instance, and how.
use testudo_operator.Base.{
  ◌≡◌, refl, sym, ap, ◌∙◌, subst, ◌⊎◌, inl, inr, String, Bool, true, false, ◌&&◌, not, Option, none,
  some, List, [], ◌∷◌, ◌==◌, is_empty, All, if-cases, Bool-cases, eq_iff,
}
use testudo_operator.Base.Outcome.{Outcome, ok, err}
use testudo_operator.Drill.Types.{Answer, found, not_found, failed_request}
use testudo_operator.Operation.Types.{
  FsmState, protected, failing_over, active, fsm_failed, failover, AutoCancelMode, direct_rollback,
  cancel_path, StepStatus, OperationStatus, Operation, Instance, Write, update_instance,
  settle_instance, Handled, Executed, Api, Clusters,
}
use testudo_operator.Operation.Steps.{is_pending, Cursor, finished, at, next_step, timed_out}
use testudo_operator.Operation.Each.{Each, Each-waits, Each-status, Each-writes, Each-after}
use testudo_operator.Operation.Each.Parts.{settle-All, failover_step-All}
use testudo_operator.Operation.Failure.{settled, resolve_failover_auto_cancel_mode}
use testudo_operator.Operation.InFlight.{conflicts, first_conflict, find_other_in_flight_operation}
use testudo_operator.Operation.AutoCancel.{
  by_mode, handle_failover_step_failure, mark_failover_no_auto_cancel,
  mark_failover_direct_rollback_success, start_failover_auto_cancel_path,
}
use testudo_operator.Operation.AutoCancel.Ended.{
  Only, Ending, ends_well, is_unread, ends_badly, starts, advances, stays, compensation-Ending,
}
use testudo_operator.Operation.Failover.{
  execute_failover_step, initialize_failover_steps, compensates, switched, switch_by, switch_latest,
  finish_failover, failover_step_waits, failover_executed, run_failover_step, failover_at,
  continue_failover, invalid_state, enter_failover, unless_conflict, among, failover_of,
  handle_failover, is_set, target_primary,
}
use testudo_operator.Base.Assoc.{lookup}

first_conflict-none :
    (name self : String) (os : List Operation)
    → first_conflict name self os ≡ none
    → All (λ o. conflicts name self o ≡ false) os
first_conflict-none name self [] h = tt
first_conflict-none name self (o ∷ os) h = elim (Bool-cases (conflicts name self o)) [
  | inl e ↦ absurd (let p : some o ≡ none = sym (rw e refl) ∙ h in cc)
  | inr e ↦ (e, first_conflict-none name self os (rw e at h))
]

module _ (api : Api) (operation : Operation) (i : Instance) where
  -- No other failover of the instance of the operation is listed as in flight.
  abbrev pub Undisturbed : List Operation → Type 0
  Undisturbed os =
      (operation.spec.instance_name ≡ "")
      ⊎ All (λ o. conflicts operation.spec.instance_name operation.name o ≡ false) os

  -- The instance that a failover of `i` writes: `i` when it begins, and afterwards the instance as it
  -- is read again.
  pub data Changed (j : Instance) : Type 0 where
    is_entered :
        (os : List Operation)
        → i.fsm_state ≡ protected
        → api.operations ≡ ok os
        → Undisturbed os
        → j ≡ record i { fsm_state = failing_over }
        → Changed j
    is_switched :
        (latest : Instance)
        → api.latest_instance i.name ≡ found latest
        → latest.fsm_state ≡ failing_over
        → is_empty operation.status.steps ≡ false
        → next_step operation.status.steps ≡ finished
        → j ≡ record latest {
          fsm_state = active;
          primary_cluster = latest.secondary_cluster;
          secondary_cluster = latest.primary_cluster;
        }
        → Changed j
    is_restored :
        (latest : Instance)
        → api.latest_instance i.name ≡ found latest
        → next_step operation.status.auto_cancel_steps ≡ finished
        → j ≡ record latest { fsm_state = protected; reason = ""; message = "" }
        → Changed j

  abbrev pub Changes : Write → Type 0
  Changes (update_instance j) = Changed j
  Changes (settle_instance j) = (j.fsm_state ≡ protected) ⊎ (j.fsm_state ≡ fsm_failed)
  Changes w = Unit

  abbrev M : Handled → Type 0
  M = Each Changes

  settled-Changes :
      (name message : String) (j : Instance)
      → Changes (settle_instance (settled failover name message j))
  unfolding settled
  settled-Changes name message j =
      if-cases (λ k. Changes (settle_instance k)) _ _ _ (λ e. inl refl) (λ e. inr refl)

  module _ (k : Instance) (same : k.name ≡ i.name) where
    abbrev read_again :
        (a : Answer Instance) → api.latest_instance k.name ≡ a → api.latest_instance i.name ≡ a
    read_again a e = ap api.latest_instance (sym same) ∙ e

    module _ (before : List StepStatus) (step : StepStatus) (after : List StepStatus) where
      failure-Changes :
          (j : Instance) (e : String)
          → M (handle_failover_step_failure api operation j before step after e)
      unfolding handle_failover_step_failure mark_failover_no_auto_cancel
          mark_failover_direct_rollback_success start_failover_auto_cancel_path
      failure-Changes j e = by_mode-Changes (resolve_failover_auto_cancel_mode step.name)
        where
          by_mode-Changes : (m : AutoCancelMode) → M (by_mode api operation j before step after e m)
          by_mode-Changes direct_rollback =
              Each-after _ _ _
                (settle-All Changes api failover j step.name e
                  (λ l t. settled-Changes step.name t l))
                (Each-status _ _ _ tt)
          by_mode-Changes cancel_path = Each-status _ _ _ tt
          by_mode-Changes m =
              Each-after _ _ _
                (settle-All Changes api failover j step.name e
                  (λ l t. settled-Changes step.name t l))
                (Each-status _ _ _ tt)

      executed-Changes :
          (x : Executed) (r : Outcome String Bool)
          → M (failover_executed api operation before step after x r)
      unfolding failover_step_waits
      executed-Changes x (err e) = failure-Changes x.instance _
      executed-Changes x (ok false) =
          if-cases M (x.step_message == step.message) _ _ (λ q. Each-waits _ _)
            (λ q. Each-status _ _ _ tt)
      executed-Changes x (ok true) = Each-status _ _ _ tt

    module _ (some_steps : is_empty operation.status.steps ≡ false) where
      finish-Changes :
          next_step operation.status.steps ≡ finished → M (finish_failover api operation k)
      unfolding finish_failover switched
      finish-Changes e = answered (api.latest_instance k.name) refl
        where
          by_state :
              (latest : Instance)
              → api.latest_instance k.name ≡ found latest
              → (s : FsmState) → latest.fsm_state ≡ s
              → M (switch_by api operation latest s)
          by_state latest q failing_over p = record {
            all = (is_switched latest (read_again (found latest) q) p some_steps e refl, (tt, tt));
          }
          by_state latest q active p = Each-status _ _ _ tt
          by_state latest q s p = Each-waits _ _

          answered :
              (a : Answer Instance)
              → api.latest_instance k.name ≡ a
              → M (switch_latest api operation a)
          answered (found latest) q = by_state latest q latest.fsm_state refl
          answered (not_found m) q = Each-waits _ _
          answered (failed_request m) q = Each-waits _ _

      at-Changes :
          (clusters : Clusters) (c : Cursor)
          → next_step operation.status.steps ≡ c
          → M (failover_at api operation clusters k c)
      unfolding failover_at run_failover_step
      at-Changes clusters finished e = finish-Changes e
      at-Changes clusters (at before step after) e =
          let x = execute_failover_step api clusters operation k step in
          if-cases M (is_pending step.state) _ _ (λ q. Each-status _ _ _ tt)
            (λ q.
              if-cases M (timed_out api.now operation.spec.timeout_minutes step) _ _
                (λ p. failure-Changes before step after k _)
                (λ p.
                  Each-after Changes x.writes
                    (failover_executed api operation before step after x x.completed)
                    (failover_step-All Changes (λ n b. tt) (λ n b. tt) api clusters operation k
                      step)
                    (executed-Changes before step after x x.completed)))

    only : (new : OperationStatus) (w : Write) → Only new w → Changes w
    only new (update_instance j) e = absurd e
    only new (settle_instance j) e = inr e
    only new w e = tt

    settled_writes-All :
        (new : OperationStatus) (ws : List Write) → All (Only new) ws → All Changes ws
    settled_writes-All new [] h = tt
    settled_writes-All new (w ∷ ws) h = (only new w h.0, settled_writes-All new ws h.1)

    compensated :
        (clusters : Clusters) (h : Handled) → Ending api operation k clusters h → All Changes h.0
    compensated clusters h (ends_well latest new f q e s a m) =
        subst (All Changes) (sym e)
          (is_restored latest (read_again (found latest) q) f refl, (tt, tt))
    compensated clusters h (is_unread f u e) = subst (All Changes) (sym e) tt
    compensated clusters h (ends_badly before step after new e f w s a m) =
        settled_writes-All new h.0 w.0
    compensated clusters h (starts before step after new e p w c s) = settled_writes-All new h.0 w.0
    compensated clusters h (advances before step after new e x w c s) =
        settled_writes-All new h.0 w.0
    compensated clusters h (stays before step after new e x w c) = settled_writes-All new h.0 w

    continue-Changes : (clusters : Clusters) → M (continue_failover api operation clusters k)
    unfolding continue_failover initialize_failover_steps
    continue-Changes clusters =
        if-cases M (is_empty operation.status.steps) _ _
          (λ e.
            if-cases M (is_set (lookup target_primary operation.annotations)) _ _
              (λ q. Each-status _ _ _ tt) (λ q. Each-writes _ _ _ (tt, tt)))
          (λ e.
            if-cases M
              (compensates operation.status.auto_cancel_status
                && not (is_empty operation.status.auto_cancel_steps))
              _ _
              (λ q. record {
                all = compensated clusters _ (compensation-Ending api operation k clusters);
              })
              (λ q. at-Changes e clusters (next_step operation.status.steps) refl))

  undisturbed :
      (os : List Operation)
      → find_other_in_flight_operation operation.spec.instance_name operation.name os ≡ none
      → Undisturbed os
  unfolding find_other_in_flight_operation
  undisturbed os h = elim (Bool-cases (operation.spec.instance_name == "")) [
    | inl e ↦ inl ((eq_iff operation.spec.instance_name "").0 e)
    | inr e ↦ inr (first_conflict-none _ _ os (rw e at h))
  ]

  -- A failover of an instance that can be read writes it for three reasons. It makes a protected
  -- instance fail over when no other failover of it is listed as in flight, and keeps its roles. It
  -- makes the instance as read again active, and exchanges its clusters, only when that one is failing
  -- over and the operation has steps, all of which are passed. It protects the instance as read again,
  -- with its roles, only when all the steps of the compensation are passed. An instance that it
  -- settles after a failed step is protected or failed.
  pub handle_failover-Changes :
      (clusters : Clusters)
      → api.instance operation.spec.instance_name ≡ found i
      → All Changes (handle_failover api operation clusters).0
  unfolding handle_failover invalid_state
  handle_failover-Changes clusters e =
      subst (λ a. All Changes (failover_of api operation clusters a).0) (sym e)
        (listed api.operations refl).all
    where
      entered :
          (os : List Operation)
          → api.operations ≡ ok os
          → Undisturbed os
          → (s : FsmState) → i.fsm_state ≡ s
          → M (enter_failover api operation clusters i s)
      entered os l u protected q =
          let begun = record i { fsm_state = failing_over } in
          Each-after Changes (update_instance begun ∷ [])
            (continue_failover api operation clusters begun) (is_entered os q l u refl, tt)
            (continue-Changes begun refl clusters)
      entered os l u failing_over q = continue-Changes i refl clusters
      entered os l u s q = Each-status _ _ _ tt

      unless :
          (os : List Operation)
          → api.operations ≡ ok os
          → (c : Option Operation)
          → find_other_in_flight_operation operation.spec.instance_name operation.name os ≡ c
          → M (unless_conflict api operation clusters i c)
      unless os l none u = entered os l (undisturbed os u) i.fsm_state refl
      unless os l (some o) u = Each-status _ _ _ tt

      listed :
          (r : Outcome String (List Operation))
          → api.operations ≡ r
          → M (among api operation clusters i r)
      listed (err m) l = Each-waits _ _
      listed (ok os) l = unless os l _ refl
