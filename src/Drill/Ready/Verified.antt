-- ===== src/Drill/Ready/Verified.antt =====
-- internal/controller/disasterdrill/controller.go, `handleReady`: what has been checked when a drill starts.
use testudo_operator.Base.{
  String, Bool, true, false, not, ◌≡◌, ◌≢◌, refl, sym, ◌∙◌, subst, Option, none, some, [], ◌∷◌,
  ◌==◌, eq_iff, In, arith, ◌⊎◌, inl, inr, if-cases,
}
use testudo_operator.Base.Assoc.{Assoc}
use testudo_operator.Base.Outcome.{Outcome, ok, err}
use testudo_operator.Drill.Types.{
  ready, executing, RestoreMode, DrillStatus, Drill, Instance, Answer, found, not_found,
  failed_request, Api, Write, create_operation, update_status, Answered, Handled, waits,
  writes_status,
}
use testudo_operator.Drill.Mode.{
  Checked, restore_modes_equal, collect_current_restore_modes, compare_snapshot, compared_to,
  refresh_restore_mode_snapshot,
}
use testudo_operator.Drill.Ready.{handle_ready, execute, after_refresh, check_topology}

-- The backups that there are now allow the modes of the snapshot.
pub record Unchanged (api : Api) (drill : Drill) : Type 0 where
  pub current : Assoc RestoreMode
  pub collected : collect_current_restore_modes api drill.spec ≡ ok current
  pub same : restore_modes_equal drill.status.instance_restore_modes current ≡ true

-- The drill is confirmed, the target of an instance's drill is not the primary cluster of the instance
-- as it is now, and the modes of the snapshot are the ones that the backups allow now.
pub record Verified (api : Api) (drill : Drill) : Type 0 where
  pub is_confirmed : drill.spec.confirmed ≡ true
  pub topology :
      (drill.spec.instance_name ≡ "")
      ⊎ ((i : Instance) × (api.instance drill.spec.instance_name ≡ found i)
          × (drill.status.target_cluster ≢ i.primary_cluster))
  pub backups : Unchanged api drill

-- The writes that start a drill: of an operation, and of the state `Executing`.
abbrev pub Starts : Write → Type 0
Starts (create_operation o) = Unit
Starts (update_status s) = s.state ≡ executing
Starts w = ⊥

-- What a reconciliation needs to start a drill.
pub record StartsOnly (P : Type 0) (h : Handled) : Type 0 where
  pub started : (w : Write) → In w h.0 → Starts w → P

module _ {P : Type 0} where
  pub StartsOnly-if_known : (h : Handled) → P → StartsOnly P h
  StartsOnly-if_known h p = record { started = λ w i s. p }

  pub StartsOnly-waits : (a : Answered) → StartsOnly P (waits a)
  StartsOnly-waits a = record { started = λ w i s. absurd i }

  pub StartsOnly-status :
      (s : DrillStatus) (a : Answered) → s.state ≢ executing → StartsOnly P (writes_status s a)
  StartsOnly-status s a n = record { started = λ w i. go w i }
    where
      go : (w : Write) → In w (update_status s ∷ []) → Starts w → P
      go w (inl e) k = absurd (n (subst Starts e k))
      go w (inr e) k = absurd e

confirmed_of : (b : Bool) → not b ≡ false → b ≡ true
confirmed_of true h = refl
confirmed_of false h = cc

empty_of : (name : String) → not (name == "") ≡ false → name ≡ ""
empty_of name h = (eq_iff name "").0 (confirmed_of (name == "") h)

-- The refresh asks for no write only if nothing has changed.
compare_snapshot-same :
    (s : DrillStatus) (current : Assoc RestoreMode)
    → compare_snapshot s current ≡ ok none
    → restore_modes_equal s.instance_restore_modes current ≡ true
unfolding compare_snapshot
compare_snapshot-same s current h = ground arith

compare_snapshot-state :
    (s t : DrillStatus) (current : Assoc RestoreMode)
    → compare_snapshot s current ≡ ok (some t)
    → t.state ≡ s.state
unfolding compare_snapshot
compare_snapshot-state s t current h = ground arith

module _ (api : Api) (drill : Drill) (r : drill.status.state ≡ ready) where
  ready-not_executing : (s : DrillStatus) → s.state ≡ drill.status.state → s.state ≢ executing
  ready-not_executing s e f = let g : ready ≡ executing = sym r ∙ sym e ∙ f in cc

  compared-Unchanged :
      (c : Checked (Assoc RestoreMode))
      → collect_current_restore_modes api drill.spec ≡ c
      → StartsOnly (Unchanged api drill) (after_refresh api drill (compared_to drill.status c))
  compared-Unchanged (err e) q = StartsOnly-status _ _ (λ f. cc)
  compared-Unchanged (ok current) q = refreshed (compare_snapshot drill.status current) refl
    where
      refreshed :
          (o : Outcome (String × String) (Option DrillStatus))
          → compare_snapshot drill.status current ≡ o
          → StartsOnly (Unchanged api drill) (after_refresh api drill o)
      refreshed (err (reason, e)) h = StartsOnly-status _ _ (λ f. cc)
      refreshed (ok none) h = StartsOnly-if_known _ record {
        current = current;
        collected = q;
        same = compare_snapshot-same drill.status current h;
      }
      refreshed (ok (some t)) h =
          StartsOnly-status t _
            (ready-not_executing t (compare_snapshot-state drill.status t current h))

  execute-Unchanged : StartsOnly (Unchanged api drill) (execute api drill)
  unfolding execute refresh_restore_mode_snapshot
  execute-Unchanged = compared-Unchanged (collect_current_restore_modes api drill.spec) refl

  module _ (confirmed : drill.spec.confirmed ≡ true) where
    check_topology-Verified :
        (a : Answer Instance)
        → api.instance drill.spec.instance_name ≡ a
        → StartsOnly (Verified api drill) (check_topology api drill a)
    check_topology-Verified (not_found e) q = StartsOnly-status _ _ (λ f. cc)
    check_topology-Verified (failed_request e) q = StartsOnly-status _ _ (λ f. cc)
    check_topology-Verified (found i) q =
        if-cases (StartsOnly (Verified api drill))
          (drill.status.target_cluster == i.primary_cluster) _ _
          (λ e. StartsOnly-status _ _ (λ f. cc))
          (λ e. record {
            started = λ w m s. record {
              is_confirmed = confirmed;
              topology = inr (
                i,
                q,
                (λ p. ground (arith, eq_iff drill.status.target_cluster i.primary_cluster)),
              );
              backups = execute-Unchanged.started w m s;
            };
          })

  pub handle_ready-Verified : StartsOnly (Verified api drill) (handle_ready api drill)
  unfolding handle_ready
  handle_ready-Verified =
      let P = StartsOnly (Verified api drill) in
      if-cases P (not drill.spec.confirmed) _ _ (λ e. StartsOnly-waits _)
        (λ e.
          let c = confirmed_of drill.spec.confirmed e in
          if-cases P (not (drill.spec.instance_name == "")) _ _
            (λ f. check_topology-Verified c (api.instance drill.spec.instance_name) refl)
            (λ f. record {
              started = λ w m s. record {
                is_confirmed = c;
                topology = inl (empty_of drill.spec.instance_name f);
                backups = execute-Unchanged.started w m s;
              };
            }))
