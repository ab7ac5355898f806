-- ===== src/Operation/AutoCancel/Classified.antt =====
-- internal/controller/disasteroperation/controller.go, `handleFailoverStepFailure`: what a failed step of
-- a failover leads to.
use testudo_operator.Base.{◌≡◌, String, Bool, true, false, List, [], ◌∷◌, ◌≢◌, All, In}
use testudo_operator.Drill.Types.{OperationState, operation_running, operation_failed}
use testudo_operator.Operation.Types.{
  OperationStatus, protected, fsm_failed, StepStatus, Operation, Instance, Write, update_status,
  settle_instance, Api, AutoCancelMode, direct_rollback, cancel_path, no_auto_cancel,
  AutoCancelStatus, not_triggered, auto_cancel_running, succeeded,
}
use testudo_operator.Operation.Steps.{put_step, mark_step_failed}
use testudo_operator.Operation.Each.{Each}
use testudo_operator.Operation.AutoCancel.{handle_failover_step_failure}
use testudo_operator.Operation.AutoCancel.Settled.{Settles}

-- The state of the operation, of its compensation and of the instance, for each mode.
abbrev pub state_in : AutoCancelMode → OperationState
state_in cancel_path = operation_running
state_in m = operation_failed

abbrev pub status_in : AutoCancelMode → AutoCancelStatus
status_in direct_rollback = succeeded
status_in cancel_path = auto_cancel_running
status_in m = not_triggered

abbrev pub manual_in : AutoCancelMode → Bool
manual_in direct_rollback = false
manual_in cancel_path = false
manual_in m = true

abbrev pub InstanceIn : AutoCancelMode → Instance → Type 0
InstanceIn direct_rollback i = (i.fsm_state ≡ protected) × (i.reason ≡ "")
InstanceIn cancel_path i = ⊥
InstanceIn m i = (i.fsm_state ≡ fsm_failed) × (i.reason ≡ "StepFailed")

module _ (api : Api) (operation : Operation) (i : Instance) (before : List StepStatus)
    (step : StepStatus) (after : List StepStatus) (message : String) where
  abbrev pub Classified : AutoCancelMode → Write → Type 0
  Classified m (update_status s) =
      (s.auto_cancel_mode ≡ m)
      × (s.state ≡ state_in m)
      × (s.auto_cancel_status ≡ status_in m)
      × (s.manual_intervention_required ≡ manual_in m)
      × (s.auto_cancel_trigger_step ≡ step.name)
      × (s.steps ≡ put_step before (mark_step_failed api.now message step) after)
  Classified m (settle_instance j) = InstanceIn m j
  Classified m w = ⊥

  -- The steps that a compensation can undo.
  abbrev pub compensated_names : List String
  compensated_names =
      "PauseSchedules" ∷ "FinalSync" ∷ "ScaleDownSource" ∷ "ScaleUpTarget" ∷ "CheckReplicas" ∷ []

  abbrev Settling : AutoCancelMode → List Write → Type 0
  Settling cancel_path ws = Unit
  Settling m ws = Settles api i step message ws

  abbrev Marks : List Write → Type 0
  Marks ws = (s : OperationStatus) × In (update_status s) ws

  abbrev pub writes : List Write
  writes = (handle_failover_step_failure api operation i before step after message).0

  -- A status is written, and all that is written is that of the mode.
  abbrev pub Following : AutoCancelMode → Type 0
  Following m = All (Classified m) writes × ((s : OperationStatus) × In (update_status s) writes)

  -- What the name of the failed step leads to.
  pub data StepFailure : Type 0 where
    at_check :
        step.name ≡ "PreCheck"
        → Following direct_rollback
        → Settles api i step message writes
        → StepFailure
    at_work : In step.name compensated_names → Following cancel_path → StepFailure
    elsewhere :
        step.name ≢ "PreCheck"
        → (In step.name compensated_names → ⊥)
        → Following no_auto_cancel
        → Settles api i step message writes
        → StepFailure
