-- ===== src/Operation/Failover/Repeated.antt =====
-- internal/controller/disasteroperation/controller.go: `handleFailover` and `handleUndo` after the last
-- write of the instance reached the server, but the one of the operation did not.
use testudo_operator.Base.{◌≡◌, refl, false, none, List, [], ◌∷◌, is_empty}
use testudo_operator.Base.Outcome.{ok}
use testudo_operator.Drill.Types.{operation_failed, found}
use testudo_operator.Operation.Types.{
  failing_over, active, protected, Operation, Instance, Api, Clusters, update_instance,
  update_status,
}
use testudo_operator.Operation.Steps.{fails_with}
use testudo_operator.Operation.Steps.Remaining.{remaining, next_step-finished}
use testudo_operator.Operation.InFlight.{find_other_in_flight_operation}
use testudo_operator.Operation.Failover.{
  handle_failover, continue_failover, compensates, failover_at, finish_failover, switched,
  failed_over_status, invalid_state,
}
use testudo_operator.Operation.Undo.{
  handle_undo, continue_undo, undo_at, finish_undo, undone_status,
}
use testudo_operator.Operation.Failover.Completes.{all_applied}
use testudo_operator.Operation.Course.Ordered.{applied}

-- No other failover of the instance is in flight.
pub record Alone (operation : Operation) (api : Api) : Type 0 where
  pub others : List Operation
  pub lists : api.operations ≡ ok others
  pub alone :
      find_other_in_flight_operation operation.spec.instance_name operation.name others ≡ none

module _ (operation : Operation) (i : Instance) (api later : Api) (clusters : Clusters)
    (none_left : remaining operation.status.steps ≡ 0)
    (nonempty : is_empty operation.status.steps ≡ false) where
  -- A failover whose steps are all done switches the roles of an instance that is failing over, and
  -- completes the operation. If the instance is written and the operation is not, the next
  -- reconciliation finds the instance active, and the operation fails, whatever the clusters answer:
  -- the branch of the code for an instance that is active already is not reached.
  pub handle_failover_repeated :
      compensates operation.status.auto_cancel_status ≡ false
      → i.fsm_state ≡ failing_over
      → Alone operation api
      → Alone operation later
      → api.instance operation.spec.instance_name ≡ found i
      → api.latest_instance i.name ≡ found i
      → later.instance operation.spec.instance_name ≡ found (switched i)
      → ((handle_failover api operation clusters).0
          ≡ update_instance (switched i)
            ∷ update_status (failed_over_status api operation (switched i))
            ∷ [])
        × ((all_applied (handle_failover later operation clusters).0 operation).status.state
            ≡ operation_failed)
  unfolding handle_failover continue_failover failover_at finish_failover switched invalid_state
      all_applied applied
  handle_failover_repeated plain failing once again sees sees_latest sees_switched = (
    rw sees (
        rw once.lists (
          rw once.alone (
            rw failing (
              rw nonempty (
                rw plain (
                  rw (next_step-finished operation.status.steps none_left)
                    (rw sees_latest (rw failing refl)))))))),
    rw sees_switched (rw again.lists (rw again.alone refl)),
  )

  -- An undo whose steps are all done protects an instance that is active, and completes the operation.
  -- If the instance is written and the operation is not, the next reconciliation finds the instance
  -- protected, and the operation fails, whatever the clusters answer.
  pub handle_undo_repeated :
      i.fsm_state ≡ active
      → api.instance operation.spec.instance_name ≡ found i
      → api.latest_instance i.name ≡ found i
      → later.instance operation.spec.instance_name ≡ found (record i { fsm_state = protected })
      → ((handle_undo api operation clusters).0
          ≡ update_instance (record i { fsm_state = protected })
            ∷ update_status (undone_status api operation i)
            ∷ [])
        × ((all_applied (handle_undo later operation clusters).0 operation).status.state
            ≡ operation_failed)
  unfolding handle_undo continue_undo undo_at finish_undo all_applied applied fails_with
  handle_undo_repeated is_active sees sees_latest sees_protected = (
    rw sees (
        rw is_active (
          rw nonempty (
            rw (next_step-finished operation.status.steps none_left)
              (rw sees_latest (rw is_active refl))))),
    rw sees_protected refl,
  )
