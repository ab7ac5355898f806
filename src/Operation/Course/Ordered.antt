-- ===== src/Operation/Course/Ordered.antt =====
-- internal/controller/disasteroperation/controller.go: the order of the steps of an operation, over
-- reconciliations of which any number of writes may have got lost.
use testudo_operator.Base.{
  ◌≡◌, refl, ◌∙◌, ◌⊎◌, inl, inr, ℕ, zero, suc, true, false, ap, Bool-cases, List, [], ◌∷◌, All,
}
use testudo_operator.Base.Assoc.{insert}
use testudo_operator.Drill.Types.{operation_failed}
use testudo_operator.Operation.Types.{
  OperationStatus, auto_cancel_running, Operation, Write, update_status, update_operation,
  mark_task_event, Api, Clusters,
}
use testudo_operator.Operation.Steps.Order.{InOrder, Changed-InOrder, pending-InOrder}
use testudo_operator.Operation.InFlight.{is_in_flight_operation_state, superseded_status}
use testudo_operator.Operation.Reconcile.{reconcile_operation}
use testudo_operator.Operation.Course.{Follows, keeps, begins, advances, stops, ends, Next}
use testudo_operator.Operation.Course.Reconciled.{reconcile_follows}
use testudo_operator.Operation.Course.Terminal.{Final, reconcile-ended}

-- As long as the operation has not ended and is not being compensated, its steps are in order.
abbrev pub Ordered : OperationStatus → Type 0
Ordered s =
    is_in_flight_operation_state s.state ≡ true
    → (s.auto_cancel_status ≡ auto_cancel_running) ⊎ InOrder s.steps

ended-Ordered : (s : OperationStatus) → is_in_flight_operation_state s.state ≡ false → Ordered s
ended-Ordered s e h = absurd (cc)

failed-Ordered : (s : OperationStatus) → s.state ≡ operation_failed → Ordered s
unfolding is_in_flight_operation_state
failed-Ordered s e h = absurd (cc)

follows-Ordered :
    (old new : OperationStatus)
    → is_in_flight_operation_state old.state ≡ true
    → Follows old new
    → Ordered old
    → Ordered new
unfolding is_in_flight_operation_state
follows-Ordered old new e (keeps same (inr failed)) o h = failed-Ordered new failed h
follows-Ordered old new e (keeps same (inl status)) o h = elim (o e) [
  | inl c ↦ inl (status ∙ c)
  | inr i ↦ inr (rw same i)
]
follows-Ordered old new e (begins none_yet pending) o h = inr (pending-InOrder new.steps pending)
follows-Ordered old new e (advances c status) o h = elim (o e) [
  | inl a ↦ inl (status ∙ a)
  | inr i ↦ inr (Changed-InOrder old.steps new.steps c i)
]
follows-Ordered old new e (stops c (inl failed)) o h = failed-Ordered new failed h
follows-Ordered old new e (stops c (inr running)) o h = inl running
follows-Ordered old new e (ends completed) o h = absurd (cc)

-- What a write leaves in the object of the operation.
unfoldable pub applied : Write → Operation → Operation
applied (update_status s) o = record o { status = s }
applied (update_operation new) o = record new { status = o.status }
applied (mark_task_event key time) o = record o { annotations = insert key time o.annotations }
applied w o = o

-- The first `k` writes of a list reach the server.
unfoldable pub committed : ℕ → List Write → Operation → Operation
unfolding applied
committed zero ws o = o
committed (suc k) [] o = o
committed (suc k) (w ∷ ws) o = committed k ws (applied w o)

-- What happens to an operation: it is reconciled, and the first writes reach the server, or another
-- operation supersedes it at some time.
pub data Event : Type 0 where
  reconciled : Api → Clusters → ℕ → Event
  superseded : ℕ → Operation → Event

unfoldable pub after_event : Event → Operation → Operation
unfolding committed
after_event (reconciled api clusters k) o = committed k (reconcile_operation api clusters o).0 o
after_event (superseded now by) o = record o { status = superseded_status now by o }

unfoldable pub after_events : List Event → Operation → Operation
unfolding after_event
after_events [] o = o
after_events (e ∷ es) o = after_events es (after_event e o)

abbrev OrderedWrite : Write → Type 0
OrderedWrite (update_status s) = Ordered s
OrderedWrite w = Unit

successor-OrderedWrite :
    (old : OperationStatus) (ws : List Write)
    → is_in_flight_operation_state old.state ≡ true
    → Ordered old
    → All (Next old) ws
    → All OrderedWrite ws
successor-OrderedWrite old [] e o h = tt
successor-OrderedWrite old (w ∷ ws) e o (p, rest) =
    (each w p, successor-OrderedWrite old ws e o rest)
  where
    each : (w : Write) → Next old w → OrderedWrite w
    each (update_status s) p = follows-Ordered old s e p o
    each w p = tt

last-OrderedWrite :
    (old : Operation) (ws : List Write)
    → is_in_flight_operation_state old.status.state ≡ false
    → All (Final old) ws
    → All OrderedWrite ws
last-OrderedWrite old [] e h = tt
last-OrderedWrite old (w ∷ ws) e (p, rest) = (each w p, last-OrderedWrite old ws e rest)
  where
    each : (w : Write) → Final old w → OrderedWrite w
    each (update_status s) p =
        ended-Ordered s (ap (λ (t : OperationStatus). is_in_flight_operation_state t.state) p ∙ e)
    each (update_operation o) p = tt
    each w p = tt

reconcile-OrderedWrite :
    (api : Api) (clusters : Clusters) (operation : Operation)
    → Ordered operation.status
    → All OrderedWrite (reconcile_operation api clusters operation).0
reconcile-OrderedWrite api clusters operation o =
    elim (Bool-cases (is_in_flight_operation_state operation.status.state)) [
      | inl e ↦
          successor-OrderedWrite operation.status _ e o (reconcile_follows api operation clusters)
      | inr e ↦ last-OrderedWrite operation _ e (reconcile-ended api clusters operation e)
    ]

committed-Ordered :
    (k : ℕ) (ws : List Write) (o : Operation)
    → All OrderedWrite ws
    → Ordered o.status
    → Ordered (committed k ws o).status
unfolding committed applied
committed-Ordered zero ws o h p = p
committed-Ordered (suc k) [] o h p = p
committed-Ordered (suc k) (w ∷ ws) o (q, rest) p =
    committed-Ordered k ws (applied w o) rest (written w q)
  where
    written : (w : Write) → OrderedWrite w → Ordered (applied w o).status
    written (update_status s) q = q
    written w q = p

event-Ordered : (e : Event) (o : Operation) → Ordered o.status → Ordered (after_event e o).status
unfolding after_event superseded_status
event-Ordered (reconciled api clusters k) o h =
    committed-Ordered k (reconcile_operation api clusters o).0 o
      (reconcile-OrderedWrite api clusters o h) h
event-Ordered (superseded now by) o h = failed-Ordered (superseded_status now by o) refl

-- The order of the steps, over any sequence of reconciliations, each of which sees another state of
-- the API server and of the clusters and loses its writes from some point on, and of supersessions by
-- other operations: if the steps were in order before it, or the operation had ended or was being
-- compensated, the same holds after it. In order, no step is pending or running before one that is
-- completed, at most one is running, and none has failed.
pub after_events-Ordered :
    (es : List Event) (operation : Operation)
    → Ordered operation.status
    → Ordered (after_events es operation).status
unfolding after_events
after_events-Ordered [] operation h = h
after_events-Ordered (e ∷ es) operation h =
    after_events-Ordered es (after_event e operation) (event-Ordered e operation h)
