-- ===== src/Drill/Reconcile/Transitions.antt =====
-- internal/controller/disasterdrill/controller.go: the state diagram of a drill.
use testudo_operator.Base.{Bool, true, false, not, ◌&&◌, ◌≡◌, refl, sym, subst, arith, if-cases}
use testudo_operator.Drill.Types.{
  DrillState, unset, pending, ready, executing, completed, failed, cleaning_up, cleaned_up,
  other_state, DrillStatus, Drill, Api, Handled,
}
use testudo_operator.Drill.Diagram.{
  Edge, stays, starts, cleans_completed, cleans_failed, was_cleaned_completed, was_cleaned_failed,
  was_not_cleaned, restarts_completed, restarts_failed, restarts_cleaned, Moves, Moves-waits,
  Moves-status,
}
use testudo_operator.Drill.Reason.{normalize_drill_status_error}
use testudo_operator.Drill.Pending.Moves.{handle_pending-Moves}
use testudo_operator.Drill.Ready.Moves.{handle_ready-Moves, handle_executing-Moves}
use testudo_operator.Drill.Cleanup.{trigger_cleanup}
use testudo_operator.Drill.Cleanup.Moves.{trigger_cleanup-Moves, handle_cleaning_up-Moves}
use testudo_operator.Drill.Reconcile.{
  should_restart, restarts, reset_drill, handle_deletion, handle_ended, handle_state,
  after_normalized, reconcile,
}

split : (c r : Bool) → not c && r ≡ true → (c ≡ false) × (r ≡ true)
split true r h = cc
split false r h = (refl, h)

module _ (api : Api) (drill : Drill) where
  abbrev M : DrillState → Handled → Type 0
  M = Moves drill.spec (should_restart drill)

  reset-Moves :
      (from : DrillState)
      → (drill.spec.confirmed ≡ false → Edge drill.spec (should_restart drill) from pending)
      → M from (reset_drill api drill)
  unfolding reset_drill
  reset-Moves from k =
      if-cases (M from) _ _ _ (λ e. record { edges = (tt, tt) }) (λ e. Moves-status _ _ (k e))

  ended-Moves :
      (from : DrillState)
      → (drill.spec.clean_up ≡ true → M from (trigger_cleanup api drill))
      → (drill.spec.clean_up ≡ false
          → drill.spec.confirmed ≡ false
          → should_restart drill ≡ true
          → Edge drill.spec (should_restart drill) from pending)
      → M from (handle_ended api drill)
  ended-Moves from c k = if-cases (M from) drill.spec.clean_up _ _ c (λ e.
      if-cases (M from) (should_restart drill) _ _ (λ r. reset-Moves from (λ q. k e q r))
        (λ r. Moves-waits _))

  handle_state-Moves : (s : DrillState) → drill.status.state ≡ s → M s (handle_state api drill s)
  unfolding handle_state
  handle_state-Moves unset h = Moves-status _ _ starts
  handle_state-Moves pending h = handle_pending-Moves api drill (should_restart drill)
  handle_state-Moves ready h = handle_ready-Moves api drill (should_restart drill) h
  handle_state-Moves executing h = handle_executing-Moves api drill (should_restart drill)
  handle_state-Moves completed h =
      ended-Moves completed
        (λ e.
          (trigger_cleanup-Moves api drill (should_restart drill) completed
            (was_cleaned_completed e) (was_not_cleaned e) (cleans_completed e)))
        (λ e q r. restarts_completed e q r)
  handle_state-Moves failed h =
      ended-Moves failed
        (λ e.
          (trigger_cleanup-Moves api drill (should_restart drill) failed (was_cleaned_failed e)
            (stays failed) (cleans_failed e)))
        (λ e q r. restarts_failed e q r)
  handle_state-Moves cleaning_up h = handle_cleaning_up-Moves api drill (should_restart drill)
  handle_state-Moves cleaned_up h =
      if-cases (M cleaned_up) (not drill.spec.clean_up && should_restart drill) _ _
        (λ e.
          let (c, r) = split drill.spec.clean_up (should_restart drill) e in
          reset-Moves cleaned_up (λ q. restarts_cleaned c q r))
        (λ e. Moves-waits _)
  handle_state-Moves other_state h = Moves-waits _

normalize-kept :
    (s : DrillStatus)
    → ((normalize_drill_status_error s).0.state ≡ s.state)
      × ((normalize_drill_status_error s).0.completion_time ≡ s.completion_time)
unfolding normalize_drill_status_error
normalize-kept s = (ground arith, ground arith)

after_normalized-Moves :
    (api : Api) (drill : Drill) (n : DrillStatus × Bool)
    → n.0.state ≡ drill.status.state
    → n.0.completion_time ≡ drill.status.completion_time
    → Moves drill.spec (should_restart drill) drill.status.state (after_normalized api drill n)
unfolding should_restart
after_normalized-Moves api drill (s, true) a b = Moves-status _ _ (
    subst (λ t. Edge drill.spec (should_restart drill) drill.status.state t) (sym a)
      (stays drill.status.state))
after_normalized-Moves api drill (s, false) a b =
    subst
      (λ c.
        Moves drill.spec (restarts drill.restart_at c) drill.status.state
          (after_normalized api drill (s, false)))
      b
      (subst
        (λ t.
          Moves drill.spec (restarts drill.restart_at s.completion_time) t
            (after_normalized api drill (s, false)))
        a (handle_state-Moves api (record drill { status = s }) s.state refl))

-- Every write of a status changes the state along an edge of the diagram, or leaves it. In particular
-- only the operation of a confirmed drill is executed, a clean-up needs the flag for it, and a restart
-- the annotation, a specification that is not confirmed and no flag for a clean-up.
pub reconcile-Moves :
    (api : Api) (drill : Drill)
    → Moves drill.spec (should_restart drill) drill.status.state (reconcile api drill)
unfolding reconcile handle_deletion
reconcile-Moves api drill =
    let M = Moves drill.spec (should_restart drill) drill.status.state in
    let n = normalize_drill_status_error drill.status in
    let (state, time) = normalize-kept drill.status in
    if-cases M drill.deleting _ _ (λ e. record { edges = (tt, tt) })
      (λ e.
        if-cases M (not drill.has_finalizer) _ _ (λ f. record { edges = (tt, tt) })
          (λ f.
            if-cases M (not drill.labels_current) _ _ (λ g. record { edges = (tt, tt) })
              (λ g. after_normalized-Moves api drill n state time)))
