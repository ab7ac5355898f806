-- ===== src/Operation/InFlight.antt =====
-- internal/controller/disasteroperation/controller.go: the operations that have not ended, and those
-- that a cancellation or an undo supersedes.
pub mod Superseded
use testudo_operator.Base.{
  ℕ, String, Bool, true, false, not, ◌&&◌, ◌||◌, Option, none, some, List, [], ◌∷◌, ◌++◌, map, ◌==◌,
  if◌then◌else◌,
}
use testudo_operator.Base.Outcome.{Outcome, ok, err}
use testudo_operator.Base.Text.{join}
use testudo_operator.Drill.Types.{
  OperationState, operation_unset, operation_pending, operation_running, operation_completed,
  operation_failed, Answer, found, not_found, failed_request,
}
use testudo_operator.Operation.Types.{
  OperationType, failover, undo, cancel, StepStatus, step_running, OperationStatus, Operation,
  Write, update_status_of, operation_type_text, Api,
}
use testudo_operator.Operation.Schedules.{Run, then_run, completes}
use testudo_operator.Operation.Steps.{is_running, mark_step_failed}

unfoldable pub is_in_flight_operation_state : OperationState → Bool
is_in_flight_operation_state operation_completed = false
is_in_flight_operation_state operation_failed = false
is_in_flight_operation_state s = true

abbrev pub is_failover : OperationType → Bool
is_failover failover = true
is_failover t = false

-- Whether another operation of type failover stands in the way; the function is called with that
-- type only.
abbrev pub conflicts : String → String → Operation → Bool
conflicts instance_name self o =
    not (o.name == self)
    && o.spec.instance_name == instance_name
    && is_failover o.spec.operation_type
    && is_in_flight_operation_state o.status.state

abbrev pub first_conflict : String → String → List Operation → Option Operation
first_conflict instance_name self [] = none
first_conflict instance_name self (o ∷ os) =
    let rest = first_conflict instance_name self os in
    if conflicts instance_name self o then some o else rest

unfoldable pub find_other_in_flight_operation : String → String → List Operation → Option Operation
find_other_in_flight_operation instance_name self os =
    if instance_name == "" then none else first_conflict instance_name self os

unfoldable pub should_supersede_operation : OperationType → OperationType → Bool
should_supersede_operation cancel candidate = is_failover candidate
should_supersede_operation undo candidate = is_failover candidate
should_supersede_operation t candidate = false

abbrev pub superseded_step : ℕ → String → StepStatus → StepStatus
superseded_step now message step =
    if is_running step.state then mark_step_failed now message step else step

-- The status of an operation that another one takes over.
unfoldable pub superseded_status : ℕ → Operation → Operation → OperationStatus
superseded_status now operation latest =
    let message = join "" (
      "操作被 "
      ∷ operation_type_text operation.spec.operation_type
      ∷ "("
      ∷ operation.name
      ∷ ") 接管，当前 "
      ∷ operation_type_text latest.spec.operation_type
      ∷ " 流程终止"
      ∷ []) in
    record latest.status {
      state = operation_failed;
      reason = "SupersededByNewOperation";
      message = message;
      completion_time = some now;
      steps = map (superseded_step now message) latest.status.steps;
    }

abbrev pub shares : String → String → Bool
shares own other = not (own == "") && other == own

unfoldable pub supersedes : Operation → Operation → Bool
supersedes operation candidate =
    not (candidate.name == operation.name)
    && is_in_flight_operation_state candidate.status.state
    && should_supersede_operation operation.spec.operation_type candidate.spec.operation_type
    && (shares operation.spec.instance_name candidate.spec.instance_name
        || shares operation.spec.group_name candidate.spec.group_name)

-- One candidate, read again before it is written.
abbrev pub supersede_latest : ℕ → Operation → String → Answer Operation → Run
supersede_latest now operation name (found latest) =
    if is_in_flight_operation_state latest.status.state
    then (update_status_of name (superseded_status now operation latest) ∷ [], ok true)
    else completes
supersede_latest now operation name (not_found e) = completes
supersede_latest now operation name (failed_request e) = ([], err e)

-- The loop over the candidates: what is written before a request fails stays written.
unfoldable pub supersede_listed : Api → Operation → List Operation → Run
supersede_listed api operation [] = completes
supersede_listed api operation (candidate ∷ os) =
    let rest = supersede_listed api operation os in
    if supersedes operation candidate
    then then_run
        (supersede_latest api.now operation candidate.name (api.latest_operation candidate.name))
        rest
    else rest

abbrev pub supersede_of : Api → Operation → Outcome String (List Operation) → Run
supersede_of api operation (err e) = ([], err e)
supersede_of api operation (ok os) = supersede_listed api operation os

unfoldable pub supersede_in_flight_operations : Api → Operation → Run
supersede_in_flight_operations api operation =
    if should_supersede_operation operation.spec.operation_type failover
    then supersede_of api operation api.operations
    else completes
