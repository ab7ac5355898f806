-- ===== src/Drill/Diagram.antt =====
-- The state diagram that the handlers of internal/controller/disasterdrill/controller.go share.
use testudo_operator.Base.{Bool, true, false, ◌≡◌, [], ◌∷◌, All}
use testudo_operator.Drill.Types.{
  DrillState, unset, pending, ready, executing, completed, failed, cleaning_up, cleaned_up,
  DrillSpec, Write, update_status, create_operation, Operation, DrillStatus, Answered, Handled,
  waits, writes_status,
}

-- The state diagram, with what the specification has to say for a change of the state.
pub data Edge (spec : DrillSpec) (restart : Bool) : DrillState → DrillState → Type 0 where
  stays : (s : DrillState) → Edge spec restart s s
  starts : Edge spec restart unset pending
  passes : Edge spec restart pending ready
  rejected : Edge spec restart pending failed
  executes : spec.confirmed ≡ true → Edge spec restart ready executing
  blocked : spec.confirmed ≡ true → Edge spec restart ready failed
  finishes : Edge spec restart executing completed
  breaks : Edge spec restart executing failed
  cleans_completed : spec.clean_up ≡ true → Edge spec restart completed cleaning_up
  cleans_failed : spec.clean_up ≡ true → Edge spec restart failed cleaning_up
  was_cleaned_completed : spec.clean_up ≡ true → Edge spec restart completed cleaned_up
  was_cleaned_failed : spec.clean_up ≡ true → Edge spec restart failed cleaned_up
  was_not_cleaned : spec.clean_up ≡ true → Edge spec restart completed failed
  is_cleaned : Edge spec restart cleaning_up cleaned_up
  is_not_cleaned : Edge spec restart cleaning_up failed
  restarts_completed :
      spec.clean_up ≡ false
      → spec.confirmed ≡ false
      → restart ≡ true
      → Edge spec restart completed pending
  restarts_failed :
      spec.clean_up ≡ false
      → spec.confirmed ≡ false
      → restart ≡ true
      → Edge spec restart failed pending
  restarts_cleaned :
      spec.clean_up ≡ false
      → spec.confirmed ≡ false
      → restart ≡ true
      → Edge spec restart cleaned_up pending

-- A write that changes the state changes it along an edge.
abbrev pub Allowed : DrillSpec → Bool → DrillState → Write → Type 0
Allowed spec restart from (update_status s) = Edge spec restart from s.state
Allowed spec restart from w = Unit

-- All writes of a reconciliation are allowed; one rule for each way to end it.
pub record Moves (spec : DrillSpec) (restart : Bool) (from : DrillState) (h : Handled)
    : Type 0 where
  pub edges : All (Allowed spec restart from) h.0

module _ {spec : DrillSpec} {restart : Bool} {from : DrillState} where
  pub Moves-waits : (a : Answered) → Moves spec restart from (waits a)
  Moves-waits a = record { edges = tt }

  pub Moves-status :
      (s : DrillStatus) (a : Answered)
      → Edge spec restart from s.state
      → Moves spec restart from (writes_status s a)
  Moves-status s a e = record { edges = (e, tt) }

  pub Moves-created :
      (o : Operation) (s : DrillStatus) (a : Answered)
      → Edge spec restart from s.state
      → Moves spec restart from (create_operation o ∷ update_status s ∷ [], a)
  Moves-created o s a e = record { edges = (tt, (e, tt)) }
