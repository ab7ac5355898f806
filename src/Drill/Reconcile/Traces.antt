-- ===== src/Drill/Reconcile/Traces.antt =====
-- internal/controller/disasterdrill/controller.go: what holds of a drill after any runs and edits.
use testudo_operator.Base.{
  ℕ, Bool, true, false, not, ◌&&◌, ◌≡◌, refl, sym, subst, Option, is_empty, ◌==◌, In, if-cases,
}
use testudo_operator.Drill.Types.{
  DrillState, unset, pending, ready, executing, completed, failed, cleaning_up, cleaned_up,
  other_state, DrillSpec, DrillStatus, empty_status, Drill, Api, Write, add_finalizer,
  remove_finalizer, update_labels, update_spec, create_operation, update_status,
}
use testudo_operator.Drill.Shown.{
  needs_modes, Shown, ShowsOnly, ShowsOnly-waits, ShowsOnly-status, ShowsOnly-other,
}
use testudo_operator.Drill.Reason.{is_failed, normalize_drill_status_error}
use testudo_operator.Drill.Pending.Modes.{handle_pending-ShowsOnly}
use testudo_operator.Drill.Ready.Modes.{handle_ready-ShowsOnly, handle_executing-ShowsOnly}
use testudo_operator.Drill.Cleanup.Modes.{trigger_cleanup-ShowsOnly, handle_cleaning_up-ShowsOnly}
use testudo_operator.Drill.Reconcile.{
  should_restart, reset_drill, handle_deletion, handle_ended, handle_state, after_normalized,
  reconcile,
}

-- The drill in the API server after a write was accepted.
unfoldable pub applied : Write → Drill → Drill
applied add_finalizer drill = record drill { has_finalizer = true }
applied remove_finalizer drill = record drill { has_finalizer = false }
applied update_labels drill = record drill { labels_current = true }
applied (update_spec spec) drill = record drill { spec = spec }
applied (create_operation o) drill = drill
applied (update_status s) drill = record drill { status = s }

-- A write of a run on the drill as it is, which the API server accepts; an edit of the specification; a
-- change of the metadata. A run on an older drill has its writes refused for their resource version.
pub data Step : Drill → Drill → Type 0 where
  runs :
      (api : Api) (drill : Drill) (w : Write)
      → In w (reconcile api drill).0
      → Step drill (applied w drill)
  edits : (drill : Drill) (spec : DrillSpec) → Step drill (record drill { spec = spec })
  marks :
      (drill : Drill) (deleting labels_current : Bool) (restart_at : Option ℕ)
      → Step drill (record drill {
        deleting = deleting;
        labels_current = labels_current;
        restart_at = restart_at;
      })

pub data Reachable : Drill → Type 0 where
  created : (drill : Drill) → drill.status ≡ empty_status → Reachable drill
  follows : (a b : Drill) → Reachable a → Step a b → Reachable b

reset-ShowsOnly : (api : Api) (drill : Drill) → ShowsOnly (reset_drill api drill)
unfolding reset_drill
reset-ShowsOnly api drill =
    if-cases ShowsOnly drill.spec.confirmed _ _ (λ e. ShowsOnly-other _ _ (λ s f. cc))
      (λ e. ShowsOnly-status _ _ refl)

ended-ShowsOnly : (api : Api) (drill : Drill) → ShowsOnly (handle_ended api drill)
ended-ShowsOnly api drill =
    if-cases ShowsOnly drill.spec.clean_up _ _ (λ e. trigger_cleanup-ShowsOnly api drill)
      (λ e.
        if-cases ShowsOnly (should_restart drill) _ _ (λ f. reset-ShowsOnly api drill)
          (λ f. ShowsOnly-waits _))

handle_state-ShowsOnly :
    (api : Api) (drill : Drill) (state : DrillState)
    → needs_modes state && is_empty drill.status.instance_restore_modes ≡ false
    → ShowsOnly (handle_state api drill state)
unfolding handle_state
handle_state-ShowsOnly api drill unset h = ShowsOnly-status _ _ refl
handle_state-ShowsOnly api drill pending h = handle_pending-ShowsOnly api drill
handle_state-ShowsOnly api drill ready h = handle_ready-ShowsOnly api drill h
handle_state-ShowsOnly api drill executing h = handle_executing-ShowsOnly api drill h
handle_state-ShowsOnly api drill completed h = ended-ShowsOnly api drill
handle_state-ShowsOnly api drill failed h = ended-ShowsOnly api drill
handle_state-ShowsOnly api drill cleaning_up h = handle_cleaning_up-ShowsOnly api drill
handle_state-ShowsOnly api drill cleaned_up h =
    if-cases ShowsOnly (not drill.spec.clean_up && should_restart drill) _ _
      (λ e. reset-ShowsOnly api drill) (λ e. ShowsOnly-waits _)
handle_state-ShowsOnly api drill other_state h = ShowsOnly-waits _

normalize-Shown : (s : DrillStatus) → Shown s → Shown (normalize_drill_status_error s).0
unfolding normalize_drill_status_error
normalize-Shown s h =
    let P : DrillStatus × Bool → Type 0 = λ n. Shown n.0 in
    if-cases P (is_failed s.state) _ _ (λ f. if-cases P (s.reason == "") _ _ (λ e. h) (λ e. h))
      (λ f. if-cases P (not (s.reason == "")) _ _ (λ e. h) (λ e. h))

reconcile-ShowsOnly :
    (api : Api) (drill : Drill) → Shown drill.status → ShowsOnly (reconcile api drill)
unfolding reconcile handle_deletion
reconcile-ShowsOnly api drill h =
    if-cases ShowsOnly drill.deleting _ _ (λ e. ShowsOnly-other _ _ (λ s f. cc))
      (λ e.
        if-cases ShowsOnly (not drill.has_finalizer) _ _ (λ f. ShowsOnly-other _ _ (λ s g. cc))
          (λ f.
            if-cases ShowsOnly (not drill.labels_current) _ _ (λ g. ShowsOnly-other _ _ (λ s k. cc))
              (λ g.
                continued (normalize_drill_status_error drill.status)
                  (normalize-Shown drill.status h))))
  where
    continued : (n : DrillStatus × Bool) → Shown n.0 → ShowsOnly (after_normalized api drill n)
    continued (s, true) k = ShowsOnly-status _ _ k
    continued (s, false) k = handle_state-ShowsOnly api (record drill { status = s }) s.state k

applied-Shown :
    (api : Api) (drill : Drill) (w : Write)
    → In w (reconcile api drill).0
    → Shown drill.status
    → Shown (applied w drill).status
unfolding applied
applied-Shown api drill add_finalizer i h = h
applied-Shown api drill remove_finalizer i h = h
applied-Shown api drill update_labels i h = h
applied-Shown api drill (update_spec spec) i h = h
applied-Shown api drill (create_operation o) i h = h
applied-Shown api drill (update_status s) i h = (reconcile-ShowsOnly api drill h).shown s i

Step-Shown : (a b : Drill) → Step a b → Shown a.status → Shown b.status
Step-Shown _ _ (runs api drill w i) h = applied-Shown api drill w i h
Step-Shown _ _ (edits drill spec) h = h
Step-Shown _ _ (marks drill deleting labels_current restart_at) h = h

-- After any runs of the controller, edits of the specification and changes of the metadata, a drill
-- that is ready, executing or completed shows the restore mode of at least one instance.
pub Reachable-Shown : (drill : Drill) → Reachable drill → Shown drill.status
Reachable-Shown _ (created drill e) = subst Shown (sym e) refl
Reachable-Shown _ (follows a b r s) = Step-Shown a b s (Reachable-Shown a r)
