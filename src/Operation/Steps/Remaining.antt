-- ===== src/Operation/Steps/Remaining.antt =====
-- How much of an operation's steps is still to be done.
use testudo_operator.Base.{
  ℕ, suc, ◌≡◌, refl, ◌+◌, false, ◌||◌, List, [], ◌∷◌, is_empty, if◌then◌else◌, arith,
}
use testudo_operator.Operation.Types.{
  StepState, step_unset, step_pending, step_running, step_completed, step_failed, StepStatus,
}
use testudo_operator.Operation.Steps.{
  is_pending, is_running, Cursor, finished, at, behind, next_step,
}
use testudo_operator.Operation.Steps.Order.{Changed, here, later}

-- The reconciliations that a step takes at least.
abbrev pub weight : StepState → ℕ
weight step_pending = 2
weight step_running = 1
weight s = 0

abbrev pub remaining : List StepStatus → ℕ
remaining [] = 0
remaining (s ∷ ss) = weight s.state + remaining ss

-- One reconciliation's work on a step.
abbrev pub Lighter : StepStatus → StepStatus → Type 0
Lighter s t = weight s.state ≡ suc (weight t.state)

pub Changed-remaining :
    (ss ts : List StepStatus) → Changed Lighter ss ts → remaining ss ≡ suc (remaining ts)
Changed-remaining _ _ (here s t ss h) = omega arith
Changed-remaining _ _ (later s ss ts p c) = omega (arith, Changed-remaining ss ts c)

weightless-IsPassed : (s : StepState) → weight s ≡ 0 → is_pending s || is_running s ≡ false
weightless-IsPassed step_unset h = refl
weightless-IsPassed step_pending h = absurd (omega arith)
weightless-IsPassed step_running h = absurd (omega arith)
weightless-IsPassed step_completed h = refl
weightless-IsPassed step_failed h = refl

-- The loop passes over all steps when nothing is left of them.
pub next_step-finished : (ss : List StepStatus) → remaining ss ≡ 0 → next_step ss ≡ finished
unfolding next_step
next_step-finished [] h = refl
next_step-finished (s ∷ ss) h =
    let p = weightless-IsPassed s.state (omega arith) in
    let rest = next_step-finished ss (omega arith) in rw p (rw rest refl)

pub finished-remaining : (ss : List StepStatus) → next_step ss ≡ finished → remaining ss ≡ 0
unfolding next_step
finished-remaining [] e = refl
finished-remaining (s ∷ ss) e = split s.state refl (next_step ss) refl (finished-remaining ss) e
  where
    split :
        (state : StepState)
        → s.state ≡ state
        → (c : Cursor) → next_step ss ≡ c
        → (next_step ss ≡ finished → remaining ss ≡ 0)
        → (if is_pending state || is_running state then at [] s ss else behind s c) ≡ finished
        → weight s.state + remaining ss ≡ 0
    split step_pending p c q h e = absurd (cc)
    split step_running p c q h e = absurd (cc)
    split state p (at before step after) q h e = absurd (cc)
    split step_unset p finished q h e = let none_left = h q in rw p (omega arith)
    split step_completed p finished q h e = let none_left = h q in rw p (omega arith)
    split step_failed p finished q h e = let none_left = h q in rw p (omega arith)

pub Changed-nonempty :
    (C : StepStatus → StepStatus → Type 0) (ss ts : List StepStatus)
    → Changed C ss ts
    → is_empty ts ≡ false
Changed-nonempty C _ _ (here s t ss h) = refl
Changed-nonempty C _ _ (later s ss ts p c) = refl
