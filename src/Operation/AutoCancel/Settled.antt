-- ===== src/Operation/AutoCancel/Settled.antt =====
-- internal/controller/disasteroperation/controller.go, `settleInstanceStateOnStepFailure`: the instance
-- after a failed step of a failover.
use testudo_operator.Base.{
  ◌++◌, ap, In-append_left, if◌then◌else◌, ◌≡◌, refl, String, List, [], ◌∷◌, ◌==◌, sym, ◌∙◌, In,
  inl, eq_iff, if-cases,
}
use testudo_operator.Drill.Types.{Answer, found, not_found, failed_request}
use testudo_operator.Operation.Types.{
  FsmState, failing_over, failover, StepStatus, Instance, Write, settle_instance, Api,
}
use testudo_operator.Operation.Failure.{
  should_rollback_failover_to_protected, settled, expects, or_unknown, settle_latest,
  settle_instance_state_on_step_failure,
}

module _ (api : Api) (i : Instance) (step : StepStatus) (message : String) where
  -- The instance as read again is settled with its roles, when it is still failing over.
  pub data Settles (ws : List Write) : Type 0 where
    unnamed : step.name ≡ "" → Settles ws
    not_failing_over :
        ((j : Instance) → api.latest_instance i.name ≡ found j → j.fsm_state ≡ failing_over → ⊥)
        → Settles ws
    settles :
        (j k : Instance)
        → api.latest_instance i.name ≡ found j
        → k.primary_cluster ≡ j.primary_cluster
        → k.secondary_cluster ≡ j.secondary_cluster
        → In (settle_instance k) ws
        → Settles ws

  pub Settles-append : (ws vs : List Write) → Settles ws → Settles (ws ++ vs)
  Settles-append ws vs (unnamed e) = unnamed e
  Settles-append ws vs (not_failing_over h) = not_failing_over h
  Settles-append ws vs (settles j k e p q w) =
      settles j k e p q (In-append_left (settle_instance k) ws vs w)

  abbrev KeepsRoles : Instance → Instance → Type 0
  KeepsRoles j k =
      (k.primary_cluster ≡ j.primary_cluster) × (k.secondary_cluster ≡ j.secondary_cluster)

  settled-KeepsRoles : (e : String) (j : Instance) → KeepsRoles j (settled failover step.name e j)
  unfolding settled
  settled-KeepsRoles e j =
      if-cases (KeepsRoles j) (should_rollback_failover_to_protected step.name) _ _
        (λ q. (refl, refl)) (λ q. (refl, refl))

  pub settle-Settles :
      Settles (settle_instance_state_on_step_failure api failover i step.name message)
  unfolding settle_instance_state_on_step_failure expects
  settle-Settles =
      if-cases Settles (step.name == "") _ _ (λ e. unnamed ((eq_iff step.name "").0 e))
        (λ e. answered (api.latest_instance i.name) refl)
    where
      by_state :
          (j : Instance)
          → api.latest_instance i.name ≡ found j
          → (s : FsmState) → j.fsm_state ≡ s
          → Settles (
              if expects failover s
              then settle_instance (settled failover step.name (or_unknown message) j) ∷ []
              else [])
      by_state j q failing_over p =
          let k = settled failover step.name (or_unknown message) j in
          let (a, b) = settled-KeepsRoles (or_unknown message) j in settles j k q a b (inl refl)
      by_state j q s p = not_failing_over (λ l r t.
          let same : found l ≡ found j = sym r ∙ q in
          let here : l ≡ j = cc in
          let other : s ≡ failing_over =
            sym p ∙ (ap (λ (x : Instance). x.fsm_state) (sym here) ∙ t) in
          cc)

      answered :
          (a : Answer Instance)
          → api.latest_instance i.name ≡ a
          → Settles (settle_latest failover step.name (or_unknown message) a)
      answered (found j) q = by_state j q j.fsm_state refl
      answered (not_found m) q =
          not_failing_over (λ l r t. let p : not_found m ≡ found l = sym q ∙ r in cc)
      answered (failed_request m) q =
          not_failing_over (λ l r t. let p : failed_request m ≡ found l = sym q ∙ r in cc)
