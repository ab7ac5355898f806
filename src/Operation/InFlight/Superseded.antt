-- ===== src/Operation/InFlight/Superseded.antt =====
-- internal/controller/disasteroperation/controller.go, `supersedeInFlightOperations`: what a cancellation
-- or an undo leaves of the failovers that it takes over.
use testudo_operator.Base.{◌≡◌, ◌≢◌, String, false, List, All, In}
use testudo_operator.Base.Outcome.{Outcome, ok, err}
use testudo_operator.Drill.Types.{operation_failed, found, not_found}
use testudo_operator.Operation.Types.{failover, Operation, Write, update_status_of, Api}
use testudo_operator.Operation.Schedules.{Run}
use testudo_operator.Operation.Steps.{is_running}
use testudo_operator.Operation.InFlight.{is_in_flight_operation_state, superseded_status}

-- A write that ends another operation and leaves no step of it running.
abbrev pub EndsOther : Write → Type 0
EndsOther (update_status_of name s) =
    (s.state ≡ operation_failed)
    × (s.reason ≡ "SupersededByNewOperation")
    × All (λ step. is_running step.state ≡ false) s.steps
EndsOther w = ⊥

-- The names are not both the same instance or group; the empty name is none.
abbrev pub Unshared : String → String → Type 0
Unshared own other = other ≡ own → own ≡ ""

module _ (operation : Operation) where
  -- Why an operation is not superseded: it is the one that supersedes, it has ended, it is no
  -- failover, or it is on no instance and no group that the other one is on.
  pub data Spared (candidate : Operation) : Type 0 where
    is_itself : candidate.name ≡ operation.name → Spared candidate
    is_over : is_in_flight_operation_state candidate.status.state ≡ false → Spared candidate
    of_other_type : candidate.spec.operation_type ≢ failover → Spared candidate
    is_elsewhere :
        Unshared operation.spec.instance_name candidate.spec.instance_name
        → Unshared operation.spec.group_name candidate.spec.group_name
        → Spared candidate

module _ (api : Api) (operation : Operation) where
  -- A candidate that is to be superseded is gone or has ended by the time it is read again, or it is
  -- ended by one of the writes.
  pub data Taken (ws : List Write) (candidate : Operation) : Type 0 where
    is_spared : Spared operation candidate → Taken ws candidate
    is_gone : (e : String) → api.latest_operation candidate.name ≡ not_found e → Taken ws candidate
    has_ended :
        (latest : Operation)
        → api.latest_operation candidate.name ≡ found latest
        → is_in_flight_operation_state latest.status.state ≡ false
        → Taken ws candidate
    is_ended :
        (latest : Operation)
        → api.latest_operation candidate.name ≡ found latest
        → In (update_status_of candidate.name (superseded_status api.now operation latest)) ws
        → Taken ws candidate

  abbrev Complete : List Operation → List Write → Type 0
  Complete os ws = All (Taken ws) os × All EndsOther ws

  abbrev CompleteOutcome : List Operation → Run → Type 0
  CompleteOutcome os (ws, ok b) = Complete os ws
  CompleteOutcome os (ws, err e) = Unit
