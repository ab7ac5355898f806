-- ===== src/Drill/Reconcile/Execution.antt =====
-- internal/controller/disasterdrill/controller.go, `Reconcile`: what has been checked when a drill starts.
use testudo_operator.Base.{
  true, false, not, ◌≡◌, sym, ◌∙◌, subst, [], ◌∷◌, In, arith, Bool-cases, ◌⊎◌, inl, inr, if-cases,
  ◌==◌,
}
use testudo_operator.Drill.Types.{
  ready, executing, DrillStatus, Drill, Api, Write, add_finalizer, remove_finalizer, update_labels,
  Answered, Handled,
}
use testudo_operator.Drill.Reason.{normalize_drill_status_error}
use testudo_operator.Drill.Ready.Verified.{
  Verified, Starts, StartsOnly, StartsOnly-status, handle_ready-Verified,
}
use testudo_operator.Drill.Reconcile.{handle_state, after_normalized, reconcile, handle_deletion}

normalize-ready :
    (s : DrillStatus)
    → s.state ≡ ready
    → (normalize_drill_status_error s ≡ (record s { reason = "" }, true))
      ⊎ (normalize_drill_status_error s ≡ (s, false))
unfolding normalize_drill_status_error
normalize-ready s r = elim (Bool-cases (s.reason == "")) [
  | inl e ↦ inr (ground arith)
  | inr e ↦ inl (ground arith)
]

in_ready :
    (api : Api) (drill : Drill)
    → drill.status.state ≡ ready
    → StartsOnly (Verified api drill) (handle_state api drill ready)
unfolding handle_state
in_ready api drill r = handle_ready-Verified api drill r

-- A reconciliation of a ready drill creates an operation, or writes the state `Executing`, only if the
-- drill is confirmed, the target of an instance's drill is not the primary cluster of the instance as
-- it is then, and the modes of restoration that were shown are those that the backups allow then.
pub reconcile-Verified :
    (api : Api) (drill : Drill) (w : Write)
    → drill.status.state ≡ ready
    → In w (reconcile api drill).0
    → Starts w
    → Verified api drill
unfolding reconcile handle_deletion
reconcile-Verified api drill w r i s = verified.started w i s
  where
    P : Handled → Type 0
    P = StartsOnly (Verified api drill)

    metadata : (v : Write) (a : Answered) → ¬ Starts v → P (v ∷ [], a)
    metadata v a n = record {
      started = λ w i s. elim i [ inl e ↦ absurd (n (subst Starts e s)) | inr e ↦ absurd e ];
    }

    continued : P (after_normalized api drill (normalize_drill_status_error drill.status))
    continued = elim (normalize-ready drill.status r) [
      | inl e ↦
          subst (λ n. P (after_normalized api drill n)) (sym e)
            (StartsOnly-status _ _ (λ f. let g : ready ≡ executing = sym r ∙ f in cc))
      | inr e ↦
          subst (λ n. P (after_normalized api drill n)) (sym e)
            (subst (λ t. P (handle_state api drill t)) (sym r) (in_ready api drill r))
    ]

    verified : P (reconcile api drill)
    verified =
        if-cases P drill.deleting _ _ (λ e. metadata remove_finalizer _ (λ f. f))
          (λ e.
            if-cases P (not drill.has_finalizer) _ _ (λ f. metadata add_finalizer _ (λ g. g))
              (λ f.
                if-cases P (not drill.labels_current) _ _ (λ g. metadata update_labels _ (λ h. h))
                  (λ g. continued)))
