-- ===== src/Drill/Reconcile.antt =====
-- internal/controller/disasterdrill/controller.go: `Reconcile`, `handleDeletion`, `shouldRestart` and
-- `resetDrill`.
pub mod Transitions
pub mod Execution
pub mod Traces
use testudo_operator.Base.{
  ℕ, String, Bool, true, false, not, ◌&&◌, ◌||◌, Option, none, some, List, [], ◌∷◌, ltb,
  if◌then◌else◌,
}
use testudo_operator.Drill.Types.{
  DrillState, unset, pending, ready, executing, completed, failed, cleaning_up, cleaned_up,
  other_state, DrillSpec, DrillStatus, empty_status, Drill, Api, add_finalizer, remove_finalizer,
  update_labels, update_spec, done, requeue, Handled, waits, writes_status,
}
use testudo_operator.Drill.Reason.{normalize_drill_status_error}
use testudo_operator.Drill.Pending.{handle_pending}
use testudo_operator.Drill.Ready.{handle_ready, handle_executing}
use testudo_operator.Drill.Cleanup.{trigger_cleanup, handle_cleaning_up}

abbrev restarts_after : Option ℕ → ℕ → Bool
restarts_after none restart = true
restarts_after (some completion) restart = ltb completion restart

abbrev restarts : Option ℕ → Option ℕ → Bool
restarts none completion = false
restarts (some restart) completion = restarts_after completion restart

unfoldable pub should_restart : Drill → Bool
should_restart drill = restarts drill.restart_at drill.status.completion_time

unfoldable pub reset_drill : Api → Drill → Handled
reset_drill api drill =
    if drill.spec.confirmed
    then (update_spec (record drill.spec { confirmed = false }) ∷ [], requeue)
    else writes_status
        (record empty_status {
          state = pending;
          start_time = some api.now;
          message = "演练已重置，重新开始校验...";
        })
        requeue

unfoldable pub handle_deletion : Drill → Handled
handle_deletion drill = (remove_finalizer ∷ [], done)

abbrev handle_ended : Api → Drill → Handled
handle_ended api drill =
    if drill.spec.clean_up
    then trigger_cleanup api drill
    else if should_restart drill
    then reset_drill api drill
    else waits done

unfoldable pub handle_state : Api → Drill → DrillState → Handled
handle_state api drill unset =
    writes_status
      (record drill.status {
        state = pending;
        start_time = some api.now;
        message = "演练已创建，正在校验...";
      })
      requeue
handle_state api drill pending = handle_pending api drill
handle_state api drill ready = handle_ready api drill
handle_state api drill executing = handle_executing api drill
handle_state api drill completed = handle_ended api drill
handle_state api drill failed = handle_ended api drill
handle_state api drill cleaning_up = handle_cleaning_up api drill
handle_state api drill cleaned_up =
    if not drill.spec.clean_up && should_restart drill then reset_drill api drill else waits done
handle_state api drill other_state = waits done

-- A change of the reason is written at once.
abbrev after_normalized : Api → Drill → DrillStatus × Bool → Handled
after_normalized api drill (s, true) = writes_status s requeue
after_normalized api drill (s, false) =
    let normalized = record drill { status = s } in handle_state api normalized s.state

unfoldable pub reconcile : Api → Drill → Handled
reconcile api drill =
    if drill.deleting
    then handle_deletion drill
    else if not drill.has_finalizer
    then (add_finalizer ∷ [], requeue)
    else if not drill.labels_current
    then (update_labels ∷ [], requeue)
    else after_normalized api drill (normalize_drill_status_error drill.status)
