-- ===== src/Drill/Shown.antt =====
-- internal/controller/disasterdrill: the restore modes that the status of a drill shows.
use testudo_operator.Base.{
  Bool, true, false, ◌&&◌, ◌≡◌, sym, subst, [], ◌∷◌, is_empty, In, inl, inr,
}
use testudo_operator.Drill.Types.{
  DrillState, ready, executing, completed, DrillStatus, Operation, create_operation, Write,
  update_status, Answered, Handled, waits, writes_status,
}

-- A drill that waits for its confirmation, is executed or has been executed.
abbrev pub needs_modes : DrillState → Bool
needs_modes ready = true
needs_modes executing = true
needs_modes completed = true
needs_modes s = false

-- Such a drill shows the restore mode of at least one instance.
abbrev pub Shown : DrillStatus → Type 0
Shown s = needs_modes s.state && is_empty s.instance_restore_modes ≡ false

-- All statuses that a reconciliation writes are such; one rule for each way to end it.
pub record ShowsOnly (h : Handled) : Type 0 where
  pub shown : (s : DrillStatus) → In (update_status s) h.0 → Shown s

pub ShowsOnly-waits : (a : Answered) → ShowsOnly (waits a)
ShowsOnly-waits a = record { shown = λ s i. absurd i }

pub ShowsOnly-status : (s : DrillStatus) (a : Answered) → Shown s → ShowsOnly (writes_status s a)
ShowsOnly-status s a h = record {
  shown = λ t i. elim i [ inl e ↦ let q : t ≡ s = cc in subst Shown (sym q) h | inr e ↦ absurd e ];
}

pub ShowsOnly-created :
    (o : Operation) (s : DrillStatus) (a : Answered)
    → Shown s
    → ShowsOnly (create_operation o ∷ update_status s ∷ [], a)
ShowsOnly-created o s a h = record {
  shown = λ t i. elim i [
    | inl e ↦ cc
    | inr (inl e) ↦ let q : t ≡ s = cc in subst Shown (sym q) h
    | inr (inr e) ↦ absurd e
  ];
}

pub ShowsOnly-other :
    (w : Write) (a : Answered)
    → ((s : DrillStatus) → ¬ (update_status s ≡ w))
    → ShowsOnly (w ∷ [], a)
ShowsOnly-other w a n = record {
  shown = λ t i. elim i [ inl e ↦ absurd (n t e) | inr e ↦ absurd e ];
}
