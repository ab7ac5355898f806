-- ===== src/Operation/Course/Terminal.antt =====
-- internal/controller/disasteroperation/controller.go, `Reconcile`: an operation that has ended.
use testudo_operator.Base.{
  ◌≡◌, refl, sym, subst, [], ◌∷◌, String, Bool, true, false, not, ◌||◌, Option, none, some, ◌==◌,
  All, if-cases,
}
use testudo_operator.Base.Text.{join}
use testudo_operator.Base.Outcome.{Outcome, ok, err}
use testudo_operator.Drill.Types.{
  OperationState, operation_unset, operation_pending, operation_running, operation_completed,
  operation_failed, Answer, found, not_found, failed_request,
}
use testudo_operator.Operation.Types.{
  OperationStatus, Operation, Instance, Group, Write, update_status, update_operation,
  mark_task_event, sync_statistics, Statistics, Handled, Api, Clusters,
}
use testudo_operator.Operation.Reports.{annotated, report_ended, statistics_of}
use testudo_operator.Operation.Each.Reports.{report_ended-All}
use testudo_operator.Operation.Each.{Each, Each-waits, Each-writes}
use testudo_operator.Operation.InFlight.{is_in_flight_operation_state}
use testudo_operator.Operation.Failure.{normalize_operation_status_error, is_failed}
use testudo_operator.Operation.Reconcile.{
  has_owner, has_owner_of_kind, is_of_drill, add_owner, owned_by_instance, owned_by_group,
  ensure_owner_references, after_normalized, after_owners, reconcile_operation,
}

-- One operation that has ended in its state.
abbrev pub Counts : OperationState → Statistics → Type 0
Counts operation_completed n =
    (n.total ≡ 1) × (n.completed ≡ 1) × (n.failed ≡ 0) × (n.in_progress ≡ 0)
Counts operation_failed n = (n.total ≡ 1) × (n.completed ≡ 0) × (n.failed ≡ 1) × (n.in_progress ≡ 0)
Counts s n = ⊥

-- A write of the status that sets the reason only; no other kind of write but that of the object's
-- metadata, of the mark of its reported end and of its statistics.
abbrev pub Final : Operation → Write → Type 0
Final old (update_status s) = s ≡ record old.status { reason = s.reason }
Final old (update_operation o) = (o.spec ≡ old.spec) × (o.status ≡ old.status)
Final old (mark_task_event key time) =
    (key ≡ "testudo.softcdata.com/task-finished-emitted") × (annotated key old.annotations ≡ "")
Final old (sync_statistics name n) =
    (name ≡ join "" ("op-" ∷ old.name ∷ "-stats" ∷ [])) × Counts old.status.state n
Final old w = ⊥

module _ (api : Api) (clusters : Clusters) (operation : Operation) where
  abbrev M : Handled → Type 0
  M = Each (Final operation)

  abbrev Renamed : OperationStatus × Bool → Type 0
  Renamed r = r.0 ≡ record operation.status { reason = r.0.reason }

  normalized-Renamed : Renamed (normalize_operation_status_error operation.status)
  unfolding normalize_operation_status_error
  normalized-Renamed =
      if-cases Renamed (is_failed operation.status.state) _ _
        (λ e. if-cases Renamed (operation.status.reason == "") _ _ (λ q. refl) (λ q. refl))
        (λ e. if-cases Renamed (operation.status.reason == "") _ _ (λ q. refl) (λ q. refl))

  ended-Final :
      (s : OperationState)
      → operation.status.state ≡ s
      → Counts s (statistics_of s)
      → All (Final operation) (report_ended api operation s)
  ended-Final s q c =
      report_ended-All (Final operation) api operation s (λ e. (refl, e))
        (refl, subst (λ t. Counts t (statistics_of s)) (sym q) c)

  normalized-Final :
      (s : OperationState) (r : OperationStatus × Bool)
      → operation.status.state ≡ s
      → is_in_flight_operation_state s ≡ false
      → Renamed r
      → M (after_normalized api clusters operation s r)
  unfolding is_in_flight_operation_state statistics_of
  normalized-Final operation_completed (status, true) q e h = record {
    all = (h, ended-Final operation_completed q (refl, refl, refl, refl));
  }
  normalized-Final operation_completed (status, false) q e h =
      Each-writes _ _ _ (ended-Final operation_completed q (refl, refl, refl, refl))
  normalized-Final operation_failed (status, true) q e h = record {
    all = (h, ended-Final operation_failed q (refl, refl, refl, refl));
  }
  normalized-Final operation_failed (status, false) q e h =
      Each-writes _ _ _ (ended-Final operation_failed q (refl, refl, refl, refl))
  normalized-Final operation_unset r q e h = absurd (cc)
  normalized-Final operation_pending r q e h = absurd (cc)
  normalized-Final operation_running r q e h = absurd (cc)

  -- What is added is an owner.
  abbrev Kept : Outcome String (Option Operation) → Type 0
  Kept (ok (some o)) = (o.spec ≡ operation.spec) × (o.status ≡ operation.status)
  Kept r = Unit

  added-Kept : (kind name uid : String) → Kept (ok (add_owner operation kind name uid))
  added-Kept kind name uid =
      if-cases (λ (o : Option Operation). Kept (ok o))
        (name == "" || uid == "" || has_owner kind name operation.owner_references) _ _ (λ e. tt)
        (λ e. (refl, refl))

  ensured-Kept : Kept (ensure_owner_references api operation)
  unfolding ensure_owner_references
  ensured-Kept =
      if-cases Kept
        (is_of_drill operation.spec.operation_type
          || has_owner_of_kind "DisasterDrill" operation.owner_references)
        _ _ (λ e. tt)
        (λ e.
          if-cases Kept (not (operation.spec.instance_name == "")) _ _
            (λ q. of_instance (api.instance operation.spec.instance_name))
            (λ q.
              if-cases Kept (not (operation.spec.group_name == "")) _ _
                (λ p. of_group (api.group operation.spec.group_name)) (λ p. tt)))
    where
      of_instance : (a : Answer Instance) → Kept (owned_by_instance operation a)
      of_instance (found i) = added-Kept "DisasterInstance" i.name i.uid
      of_instance (not_found e) = tt
      of_instance (failed_request e) = tt

      of_group : (a : Answer Group) → Kept (owned_by_group operation a)
      of_group (found g) = added-Kept "DisasterGroup" g.name g.uid
      of_group (not_found e) = tt
      of_group (failed_request e) = tt

  owners-Final :
      is_in_flight_operation_state operation.status.state ≡ false
      → (r : Outcome String (Option Operation)) → Kept r
      → M (after_owners api clusters operation r)
  owners-Final h (err e) k = Each-waits _ _
  owners-Final h (ok (some o)) k = record { all = (k, tt) }
  owners-Final h (ok none) k =
      if-cases M operation.labels_current _ _
        (λ e.
          normalized-Final operation.status.state
            (normalize_operation_status_error operation.status) refl h normalized-Renamed)
        (λ e. record { all = ((refl, refl), tt) })

  -- A reconciliation of an operation that is completed or failed changes neither its specification
  -- nor any field of its status but the reason, and starts nothing: beside the operation's metadata,
  -- where it marks the end as reported if that is not marked yet, it writes only the statistics of
  -- the operation, which count it in its state. Events and task reports are left out.
  pub reconcile-ended :
      is_in_flight_operation_state operation.status.state ≡ false
      → All (Final operation) (reconcile_operation api clusters operation).0
  unfolding reconcile_operation
  reconcile-ended h = (owners-Final h (ensure_owner_references api operation) ensured-Kept).all
