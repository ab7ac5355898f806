-- ===== src/Operation/Course.antt =====
-- internal/controller/disasteroperation/controller.go: how a handler may change the status of an
-- operation, as an abstract machine that knows the steps only.
pub mod Failovers
pub mod Syncs
pub mod Handlers
pub mod Compensation
pub mod Loops
pub mod Drills
pub mod Entry
pub mod Groups
pub mod Reconciled
pub mod Terminal
pub mod Ordered
use testudo_operator.Base.{◌≡◌, refl, Bool, true, false, ◌||◌, ◌⊎◌, inl, inr, List, [], All, arith}
use testudo_operator.Drill.Types.{OperationState, operation_completed, operation_failed, Answered}
use testudo_operator.Operation.Types.{
  StepState, step_unset, step_pending, step_running, step_completed, step_failed, StepStatus,
  AutoCancelStatus, auto_cancel_running, OperationStatus, Write, update_status,
}
use testudo_operator.Operation.Steps.{is_pending, is_running}
use testudo_operator.Operation.Steps.Order.{Changed, Progress, IsPending}

-- A step that was running failed.
pub data Fails (s t : StepStatus) : Type 0 where
  fails : s.state ≡ step_running → t.state ≡ step_failed → t.name ≡ s.name → Fails s t

-- The operation has failed, or its compensation has begun.
abbrev pub Stopped : OperationStatus → Type 0
Stopped new = (new.state ≡ operation_failed) ⊎ (new.auto_cancel_status ≡ auto_cancel_running)

-- The transitions of the abstract machine: the steps stay, are laid out, the first open one of them
-- goes on, it fails and the operation stops, or the operation is completed.
pub data Follows (old new : OperationStatus) : Type 0 where
  keeps :
      new.steps ≡ old.steps
      → (new.auto_cancel_status ≡ old.auto_cancel_status) ⊎ (new.state ≡ operation_failed)
      → Follows old new
  begins : old.steps ≡ [] → All IsPending new.steps → Follows old new
  advances :
      Changed Progress old.steps new.steps
      → new.auto_cancel_status ≡ old.auto_cancel_status
      → Follows old new
  stops : Changed Fails old.steps new.steps → Stopped new → Follows old new
  ends : new.state ≡ operation_completed → Follows old new

-- A write of the operation's own status is such a transition.
abbrev pub Next : OperationStatus → Write → Type 0
Next old (update_status new) = Follows old new
Next old w = Unit

pub running-of_open :
    (s : StepState) → is_pending s || is_running s ≡ true → is_pending s ≡ false → s ≡ step_running
running-of_open step_unset h p = absurd (cc)
running-of_open step_pending h p = absurd (cc)
running-of_open step_running h p = refl
running-of_open step_completed h p = absurd (cc)
running-of_open step_failed h p = absurd (cc)

pub pending-of_test : (s : StepState) → is_pending s ≡ true → s ≡ step_pending
pending-of_test step_pending h = refl
pending-of_test step_unset h = absurd (cc)
pending-of_test step_running h = absurd (cc)
pending-of_test step_completed h = absurd (cc)
pending-of_test step_failed h = absurd (cc)
