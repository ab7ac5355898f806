-- ===== src/Operation/Steps.antt =====
-- internal/controller/disasteroperation/controller.go: the steps of an operation, their loop, their
-- timeout, and what the handlers share.
pub mod Order
pub mod Overdue
pub mod Remaining
use testudo_operator.Base.{
  ℕ, String, Bool, true, false, not, ◌&&◌, ◌||◌, Option, none, some, List, [], ◌∷◌, ◌++◌, map, ◌==◌,
  ◌+◌, ◌-◌, ◌*◌, ◌%◌, ltb, leb, nat_eq, if◌then◌else◌, decimal,
}
use testudo_operator.Base.Text.{join, trim_space, has_prefix}
use testudo_operator.Drill.Types.{OperationState, operation_failed, done, request_error}
use testudo_operator.Operation.Types.{
  StepState, step_pending, step_running, step_completed, step_failed, StepStatus, RoleStatus,
  OperationStatus, Operation, Instance, Write, Handled, writes_status,
}

abbrev pub is_pending : StepState → Bool
is_pending step_pending = true
is_pending s = false

abbrev pub is_running : StepState → Bool
is_running step_running = true
is_running s = false

-- Where the loop over the steps stops: at the first step that is pending or running, between the
-- steps before and after it, or behind the last one.
pub data Cursor : Type 0 where
  finished : Cursor
  at : List StepStatus → StepStatus → List StepStatus → Cursor

abbrev pub behind : StepStatus → Cursor → Cursor
behind s finished = finished
behind s (at before step after) = at (s ∷ before) step after

unfoldable pub next_step : List StepStatus → Cursor
next_step [] = finished
next_step (s ∷ ss) =
    let rest = next_step ss in
    if is_pending s.state || is_running s.state then at [] s ss else behind s rest

-- The steps, with the one at the cursor replaced: the code changes it in place.
abbrev pub put_step : List StepStatus → StepStatus → List StepStatus → List StepStatus
put_step before step after = before ++ step ∷ after

abbrev pub pending_step : String → StepStatus
pending_step name = record {
  name = name;
  state = step_pending;
  start_time = none;
  completion_time = none;
  message = "";
}

unfoldable pub initial_steps : List String → List StepStatus
initial_steps names = map pending_step names

unfoldable pub start_step : ℕ → StepStatus → StepStatus
start_step now step = record step { state = step_running; start_time = some now }

-- `step.State = "Completed"` with its time and its message.
unfoldable pub complete_step : ℕ → String → StepStatus → StepStatus
complete_step now message step = record step {
  state = step_completed;
  completion_time = some now;
  message = message;
}

unfoldable pub mark_step_failed : ℕ → String → StepStatus → StepStatus
mark_step_failed now message step = record step {
  state = step_failed;
  completion_time = some now;
  message = message;
}

-- `elapsed > time.Duration(minutes) * time.Minute`, on 64-bit nanoseconds that wrap around.
unfoldable pub overdue : ℕ → ℕ → Bool
overdue elapsed minutes =
    let timeout = (minutes * 60000000000) % 18446744073709551616 in
    leb (9223372036854775808) timeout || ltb timeout (elapsed * 1000000000)

abbrev pub started_overdue : ℕ → ℕ → Option ℕ → Bool
started_overdue now minutes none = false
started_overdue now minutes (some t) = not (nat_eq minutes 0) && overdue (now - t) minutes

-- The check of a running step's time; a step that carries no start time has no limit.
unfoldable pub timed_out : ℕ → ℕ → StepStatus → Bool
timed_out now minutes step = started_overdue now minutes step.start_time

abbrev pub elapsed_since : ℕ → Option ℕ → ℕ
elapsed_since now none = 0
elapsed_since now (some t) = now - t

-- `duration_text` is the text of a duration of whole seconds.
unfoldable pub build_step_timeout_message : (ℕ → String) → ℕ → ℕ → StepStatus → String
build_step_timeout_message duration_text elapsed minutes step =
    let base =
      join "" ("步骤超时 (已等待 " ∷ duration_text elapsed ∷ "，超时设置 " ∷ decimal minutes ∷ " 分钟)" ∷ []) in
    let detail = trim_space step.message in
    if detail == "" || detail == "已完成" || has_prefix detail "步骤超时"
    then base
    else join "" (base ∷ "；阻塞详情: " ∷ detail ∷ [])

-- `operation.Status` with a failure that has no further fields.
unfoldable pub fails_with : OperationStatus → String → Handled
fails_with status message =
    writes_status (record status { state = operation_failed; message = message }) done

-- The first status of a handler's steps; `s ∷ ss` are their names.
unfoldable pub with_steps : String → List String → OperationStatus → OperationStatus
with_steps s ss status = record status { steps = initial_steps (s ∷ ss); current_step = s }

-- The step at the cursor is started.
unfoldable pub started :
    ℕ → OperationStatus → List StepStatus → StepStatus → List StepStatus → OperationStatus
started now status before step after = record status {
  steps = put_step before (start_step now step) after;
  current_step = step.name;
}

-- The roles of an instance, as the status of an operation records them.
abbrev pub roles_of : Instance → RoleStatus
roles_of i = record { primary_cluster = i.primary_cluster; secondary_cluster = i.secondary_cluster }

abbrev pub after_writes : List Write → Handled → Handled
after_writes ws (rest, answer) = (ws ++ rest, answer)
