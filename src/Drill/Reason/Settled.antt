-- ===== src/Drill/Reason/Settled.antt =====
-- internal/controller/disasterdrill/controller.go, `normalizeDrillStatusError`: a failed drill has a reason
-- and no other drill has one.
use testudo_operator.Base.{
  String, ◌≡◌, refl, sym, ap, ◌∙◌, inl, inr, Bool, false, not, List, [], ◌∷◌, arith, ◌==◌,
  Bool-cases, reverse_onto, if-cases, if◌then◌else◌,
}
use testudo_operator.Drill.Types.{StepStatus, DrillStatus}
use testudo_operator.Drill.Reason.{
  is_failed, map_drill_failure_message_to_reason, reason_of_steps, derive_drill_failure_reason,
  normalize_drill_status_error,
}

abbrev Named : String → Type 0
Named reason = reason == "" ≡ false

-- A reason, or another one if it is empty.
Named-or :
    (reason otherwise : String)
    → Named otherwise
    → Named (if not (reason == "") then reason else otherwise)
Named-or reason otherwise h = elim (Bool-cases (reason == "")) [ inl e ↦ rw e h | inr e ↦ rw e e ]

reason_of_steps-named : (steps : List StepStatus) → reason_of_steps steps == "" ≡ false
unfolding reason_of_steps
reason_of_steps-named [] = refl
reason_of_steps-named (step ∷ older) =
    let mapped = map_drill_failure_message_to_reason step.step_message in
    if-cases Named (not step.step_failed) _ _ (λ e. reason_of_steps-named older)
      (λ e. Named-or mapped "OperationFailed" refl)

derive_drill_failure_reason-named : (s : DrillStatus) → derive_drill_failure_reason s == "" ≡ false
unfolding derive_drill_failure_reason
derive_drill_failure_reason-named s =
    Named-or (map_drill_failure_message_to_reason s.message)
      (reason_of_steps (reverse_onto s.steps [])) (reason_of_steps-named (reverse_onto s.steps []))

abbrev Settled : DrillStatus → Type 0
Settled s = is_failed s.state ≡ not (s.reason == "")

normalize-Settled : (s : DrillStatus) → Settled (normalize_drill_status_error s).0
unfolding normalize_drill_status_error
normalize-Settled s =
    let P : DrillStatus × Bool → Type 0 = λ n. Settled n.0 in
    if-cases P (is_failed s.state) _ _
      (λ f.
        if-cases P (s.reason == "") _ _
          (λ e. f ∙ ap not (sym (derive_drill_failure_reason-named s))) (λ e. f ∙ ap not (sym e)))
      (λ f. if-cases P (not (s.reason == "")) _ _ (λ e. f) (λ e. f ∙ sym e))

Settled-normalize : (s : DrillStatus) → Settled s → normalize_drill_status_error s ≡ (s, false)
unfolding normalize_drill_status_error
Settled-normalize s h = ground arith

-- The normalized status has a reason exactly if the drill has failed, and is not changed again.
pub normalize_drill_status_error-settled :
    (s : DrillStatus)
    → (is_failed (normalize_drill_status_error s).0.state
        ≡ not ((normalize_drill_status_error s).0.reason == ""))
      × (normalize_drill_status_error (normalize_drill_status_error s).0
          ≡ ((normalize_drill_status_error s).0, false))
normalize_drill_status_error-settled s = (
  normalize-Settled s,
  Settled-normalize (normalize_drill_status_error s).0 (normalize-Settled s),
)
