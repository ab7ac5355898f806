-- ===== src/Operation/Each.antt =====
-- What holds of each write of one reconciliation; one rule for each way to answer.
pub mod Triggers
pub mod Reports
pub mod Parts
use testudo_operator.Base.{◌≡◌, List, [], ◌∷◌, ◌++◌, All, All-append}
use testudo_operator.Drill.Types.{Answered}
use testudo_operator.Operation.Types.{
  OperationStatus, Write, update_status, Handled, waits, writes_status,
}
use testudo_operator.Operation.Steps.{after_writes}

pub record Each (P : Write → Type 0) (h : Handled) : Type 0 where
  pub all : All P h.0

module _ (P : Write → Type 0) where
  pub Each-waits : (answer : Answered) → Each P (waits answer)
  Each-waits answer = record { all = tt }

  pub Each-status :
      (s : OperationStatus) (answer : Answered)
      → P (update_status s)
      → Each P (writes_status s answer)
  Each-status s answer p = record { all = (p, tt) }

  pub Each-writes : (ws : List Write) (answer : Answered) → All P ws → Each P (ws, answer)
  Each-writes ws answer p = record { all = p }

  pub Each-after :
      (ws : List Write) (h : Handled) → All P ws → Each P h → Each P (after_writes ws h)
  Each-after ws (vs, answer) p q = record { all = All-append P ws vs p q.all }
