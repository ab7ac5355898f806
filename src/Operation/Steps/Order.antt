-- ===== src/Operation/Steps/Order.antt =====
-- The cursor of the step loop: what it passes over, and how replacing the step at it changes the steps.
use testudo_operator.Base.{
  ◌≡◌, refl, ap, ◌⊎◌, inl, inr, true, false, ◌||◌, List, [], ◌∷◌, All, if-cases, ◌∙◌,
}
use testudo_operator.Operation.Types.{step_pending, step_running, step_completed, StepStatus}
use testudo_operator.Operation.Steps.{
  is_pending, is_running, Cursor, finished, at, behind, next_step, put_step,
}

-- One step is replaced by one that it may change to; the steps before it are neither pending nor
-- running, and no other step changes.
pub data Changed (C : StepStatus → StepStatus → Type 0)
    : List StepStatus → List StepStatus → Type 0 where
  here : (s t : StepStatus) (ss : List StepStatus) → C s t → Changed C (s ∷ ss) (t ∷ ss)
  later :
      (s : StepStatus) (ss ts : List StepStatus)
      → is_pending s.state || is_running s.state ≡ false
      → Changed C ss ts
      → Changed C (s ∷ ss) (s ∷ ts)

-- What holds where the loop stops, if it stops at a step.
abbrev pub AtStep : (List StepStatus → StepStatus → List StepStatus → Type 0) → Cursor → Type 0
AtStep P finished = Unit
AtStep P (at before step after) = P before step after

abbrev pub IsOpen : StepStatus → Type 0
IsOpen s = is_pending s.state || is_running s.state ≡ true

abbrev pub IsPassed : StepStatus → Type 0
IsPassed s = is_pending s.state || is_running s.state ≡ false

-- The cursor's step is the first that is pending or running, and may change.
pub record Stops (C : StepStatus → StepStatus → Type 0) (ss before : List StepStatus)
    (step : StepStatus) (after : List StepStatus) : Type 0 where
  pub is_open : IsOpen step
  pub whole : ss ≡ put_step before step after
  pub passed : All IsPassed before
  pub changes : (t : StepStatus) → C step t → Changed C ss (put_step before t after)

module _ (C : StepStatus → StepStatus → Type 0) where
  behind-Stops :
      (s : StepStatus) (ss : List StepStatus)
      → IsPassed s
      → (c : Cursor) → AtStep (Stops C ss) c
      → AtStep (Stops C (s ∷ ss)) (behind s c)
  behind-Stops s ss p finished h = tt
  behind-Stops s ss p (at before step after) h = record {
    is_open = h.is_open;
    whole = ap (λ ts. s ∷ ts) h.whole;
    passed = (p, h.passed);
    changes = λ t c. later s ss (put_step before t after) p (h.changes t c);
  }

  pub next_step-Stops : (ss : List StepStatus) → AtStep (Stops C ss) (next_step ss)
  unfolding next_step
  next_step-Stops [] = tt
  next_step-Stops (s ∷ ss) =
      if-cases (AtStep (Stops C (s ∷ ss))) (is_pending s.state || is_running s.state) _ _
        (λ o. record { is_open = o; whole = refl; passed = tt; changes = λ t c. here s t ss c })
        (λ p. behind-Stops s ss p (next_step ss) (next_step-Stops ss))

abbrev pub IsPending : StepStatus → Type 0
IsPending s = s.state ≡ step_pending

-- Pending steps behind completed ones, with at most one running between them.
abbrev pub InOrder : List StepStatus → Type 0
InOrder [] = Unit
InOrder (s ∷ ss) = ((s.state ≡ step_completed) × InOrder ss) ⊎ (IsOpen s × All IsPending ss)

-- What a handler may make of a step, its failure apart.
pub data Progress (s t : StepStatus) : Type 0 where
  starts : s.state ≡ step_pending → t.state ≡ step_running → t.name ≡ s.name → Progress s t
  completes : s.state ≡ step_running → t.state ≡ step_completed → t.name ≡ s.name → Progress s t
  reports : t.state ≡ s.state → t.name ≡ s.name → Progress s t

pub pending-InOrder : (ss : List StepStatus) → All IsPending ss → InOrder ss
pending-InOrder [] h = tt
pending-InOrder (s ∷ ss) (p, rest) = inr (simp p, rest)

-- Progress keeps the order.
pub Changed-InOrder : (ss ts : List StepStatus) → Changed Progress ss ts → InOrder ss → InOrder ts
Changed-InOrder _ _ (here s t ss (starts p r n)) (inl (q, rest)) = absurd (cc)
Changed-InOrder _ _ (here s t ss (starts p r n)) (inr (q, rest)) = inr (simp r, rest)
Changed-InOrder _ _ (here s t ss (completes p r n)) (inl (q, rest)) = absurd (cc)
Changed-InOrder _ _ (here s t ss (completes p r n)) (inr (q, rest)) =
    inl (r, pending-InOrder ss rest)
Changed-InOrder _ _ (here s t ss (reports r n)) (inl (q, rest)) = inl (r ∙ q, rest)
Changed-InOrder _ _ (here s t ss (reports r n)) (inr (q, rest)) = inr (rw r q, rest)
Changed-InOrder _ _ (later s ss ts p c) (inl (q, rest)) = inl (q, Changed-InOrder ss ts c rest)
Changed-InOrder _ _ (later s ss ts p c) (inr (q, rest)) = absurd (cc)
