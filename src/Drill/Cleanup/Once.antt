-- ===== src/Drill/Cleanup/Once.antt =====
-- internal/controller/disasterdrill/controller.go, `triggerCleanup`: there is one clean-up for a drill.
use testudo_operator.Base.{
  ◌≡◌, refl, ap, subst, inl, inr, Bool, true, false, not, ◌&&◌, Option, none, some, List, [], ◌∷◌,
  In, All, if-cases, if◌then◌else◌,
}
use testudo_operator.Drill.Types.{
  DrillStatus, Drill, Operation, OperationState, operation_unset, operation_pending,
  operation_running, operation_completed, operation_failed, Api, create_operation, Answered,
  Handled, waits, writes_status,
}
use testudo_operator.Drill.Ready.{is_terminal}
use testudo_operator.Drill.Cleanup.{
  is_cleanup, newest_cleanup_operation, cleanup_operations, sync_cleanup_operation_status,
  sync_by_state, with_cleanups, of_listed, trigger_cleanup,
}

abbrev pub NoCleanup : List Operation → Type 0
NoCleanup os = All (λ o. is_cleanup o.operation_type ≡ false) os

neither :
    (kind terminal : Bool) (x y : Operation) (running ended : Option Operation)
    → (if kind && not (kind && terminal) then some x else running) ≡ none
    → (if kind && terminal then some y else ended) ≡ none
    → (running ≡ none) × (ended ≡ none) × (kind ≡ false)
neither true true x y running ended h k = cc
neither true false x y running ended h k = cc
neither false terminal x y running ended h k = (h, k, refl)

cleanup_operations-none :
    (os : List Operation) (running ended : Option Operation)
    → cleanup_operations os running ended ≡ (none, none)
    → (running ≡ none) × (ended ≡ none) × NoCleanup os
unfolding cleanup_operations
cleanup_operations-none [] running ended h = (ap (λ p. p.0) h, ap (λ p. p.1) h, tt)
cleanup_operations-none (o ∷ os) running ended h =
    let (r, e, n) = cleanup_operations-none os _ _ h in
    let (a, b, c) =
      neither (is_cleanup o.operation_type) (is_terminal o.operation_state)
        (newest_cleanup_operation running o) (newest_cleanup_operation ended o) running ended r e in
    (a, b, (c, n))

-- What a reconciliation needs to create an operation.
record CreatesOnly (P : Type 0) (h : Handled) : Type 0 where
  created : (o : Operation) → In (create_operation o) h.0 → P

waits_creates : {P : Type 0} (a : Answered) → CreatesOnly P (waits a)
waits_creates a = record { created = λ o i. absurd i }

status_creates : {P : Type 0} (s : DrillStatus) (a : Answered) → CreatesOnly P (writes_status s a)
status_creates s a = record { created = λ o i. elim i [ inl e ↦ cc | inr f ↦ absurd f ] }

module _ (api : Api) (drill : Drill) (P : Type 0) where
  by_state_creates :
      (o : Operation) (s : OperationState) → CreatesOnly P (sync_by_state api.now drill.status o s)
  by_state_creates o operation_unset = waits_creates _
  by_state_creates o operation_pending = waits_creates _
  by_state_creates o operation_running = waits_creates _
  by_state_creates o operation_completed =
      if-cases (CreatesOnly P) _ _ _ (λ e. waits_creates _) (λ e. status_creates _ _)
  by_state_creates o operation_failed =
      if-cases (CreatesOnly P) _ _ _ (λ e. waits_creates _) (λ e. status_creates _ _)

  sync_creates :
      (o : Operation) → CreatesOnly P (sync_cleanup_operation_status api.now drill.status o)
  unfolding sync_cleanup_operation_status
  sync_creates o = by_state_creates o o.operation_state

  with_cleanups_creates :
      (c : Option Operation × Option Operation)
      → (c ≡ (none, none) → P)
      → CreatesOnly P (with_cleanups api drill c)
  with_cleanups_creates (some o, ended) k = status_creates _ _
  with_cleanups_creates (none, some o) k = sync_creates o
  with_cleanups_creates (none, none) k = record { created = λ o i. k refl }

-- An operation is created for a clean-up only if none of the operations that carry the drill's label is
-- a clean-up, running or ended, also one of an earlier run of the drill.
pub trigger_cleanup-once :
    (api : Api) (drill : Drill) (os : List Operation) (o : Operation)
    → api.operations_of_drill drill.name ≡ some os
    → In (create_operation o) (trigger_cleanup api drill).0
    → NoCleanup os
unfolding trigger_cleanup
trigger_cleanup-once api drill os o h i =
    let c = cleanup_operations os none none in
    (with_cleanups_creates api drill (NoCleanup os) c
        (λ e. (cleanup_operations-none os none none e).2)).created
      o (subst (λ l. In (create_operation o) (of_listed api drill l).0) h i)
