-- ===== src/Operation/Reports.antt =====
-- internal/controller/disasteroperation/controller.go: what a reconciliation notes about the beginning
-- and the end of an operation, `markOperationTaskEvent` and `syncStatistics`.
use testudo_operator.Base.{String, Option, none, some, List, [], ◌∷◌, ◌++◌, ◌==◌, if◌then◌else◌}
use testudo_operator.Base.Assoc.{Assoc, lookup}
use testudo_operator.Base.Text.{join}
use testudo_operator.Drill.Types.{
  OperationState, operation_running, operation_completed, operation_failed, Answer, found,
}
use testudo_operator.Operation.Types.{
  Operation, Write, mark_task_event, sync_statistics, Statistics, Api,
}

abbrev pub task_started : String
task_started = "testudo.softcdata.com/task-started-emitted"

abbrev pub task_finished : String
task_finished = "testudo.softcdata.com/task-finished-emitted"

abbrev pub text_or_empty : Option String → String
text_or_empty none = ""
text_or_empty (some t) = t

abbrev pub annotated : String → Assoc String → String
annotated key m = text_or_empty (lookup key m)

abbrev pub mark_latest : Api → String → Answer Operation → List Write
mark_latest api key (found latest) =
    if annotated key latest.annotations == ""
    then mark_task_event key (api.time_text api.now) ∷ []
    else []
mark_latest api key answer = []

-- The annotation that says that the event was reported, unless it is there.
unfoldable pub mark_operation_task_event : Api → Operation → String → List Write
mark_operation_task_event api operation key =
    if annotated key operation.annotations == ""
    then mark_latest api key (api.latest_operation operation.name)
    else []

-- One operation, in its state.
unfoldable pub statistics_of : OperationState → Statistics
statistics_of operation_completed = record { total = 1; completed = 1; failed = 0; in_progress = 0 }
statistics_of operation_failed = record { total = 1; completed = 0; failed = 1; in_progress = 0 }
statistics_of operation_running = record { total = 1; completed = 0; failed = 0; in_progress = 1 }
statistics_of s = record { total = 1; completed = 0; failed = 0; in_progress = 0 }

unfoldable pub synced_statistics : Operation → OperationState → List Write
synced_statistics operation s =
    sync_statistics (join "" ("op-" ∷ operation.name ∷ "-stats" ∷ [])) (statistics_of s) ∷ []

-- What follows for an operation that has ended.
unfoldable pub report_ended : Api → Operation → OperationState → List Write
report_ended api operation s =
    mark_operation_task_event api operation task_finished ++ synced_statistics operation s
