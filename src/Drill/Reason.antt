-- ===== src/Drill/Reason.antt =====
-- internal/controller/disasterdrill/controller.go: the reason of a failed drill, derived from its texts.
pub mod Settled
use testudo_operator.Base.{
  String, Bool, true, false, not, ◌&&◌, ◌||◌, List, [], ◌∷◌, ◌==◌, reverse_onto, if◌then◌else◌,
}
use testudo_operator.Base.Text.{contains}
use testudo_operator.Drill.Types.{DrillState, failed, StepStatus, DrillStatus}

-- `state == DrillStateFailed`.
abbrev pub is_failed : DrillState → Bool
is_failed failed = true
is_failed s = false

unfoldable pub contains_any : String → List String → Bool
contains_any message [] = false
contains_any message (part ∷ parts) =
    if not (part == "") && contains message part then true else contains_any message parts

unfoldable pub map_drill_failure_message_to_reason : String → String
map_drill_failure_message_to_reason message =
    if message == ""
    then ""
    else if contains_any message ("不能同时指定" ∷ "必须指定" ∷ "状态不是 Ready" ∷ "校验失败" ∷ [])
    then "ValidationFailed"
    else if contains_any message ("危险操作拦截" ∷ "拓扑" ∷ [])
    then "TopologyChanged"
    else if contains_any message ("内部错误" ∷ [])
    then "InternalError"
    else if contains_any message ("Operation" ∷ "operation" ∷ [])
        && contains_any message ("未找到" ∷ "缺少" ∷ [])
    then "OperationNotFound"
    else if contains_any message ("清理" ∷ []) && contains_any message ("失败" ∷ [])
    then "CleanupFailed"
    else if contains_any message ("演练失败" ∷ "失败" ∷ [])
    then "OperationFailed"
    else "DrillFailed"

-- The loop over the steps, the newest first: what it returns, `DrillFailed` where it finds none.
unfoldable pub reason_of_steps : List StepStatus → String
reason_of_steps [] = "DrillFailed"
reason_of_steps (step ∷ older) =
    let rest = reason_of_steps older in
    let mapped = map_drill_failure_message_to_reason step.step_message in
    if not step.step_failed then rest else if not (mapped == "") then mapped else "OperationFailed"

unfoldable pub derive_drill_failure_reason : DrillStatus → String
derive_drill_failure_reason s =
    let reason = map_drill_failure_message_to_reason s.message in
    if not (reason == "") then reason else reason_of_steps (reverse_onto s.steps [])

-- The status, and whether it has changed.
unfoldable pub normalize_drill_status_error : DrillStatus → DrillStatus × Bool
normalize_drill_status_error s =
    if is_failed s.state
    then (if s.reason == ""
        then (
          record s { reason = derive_drill_failure_reason s },
          not (derive_drill_failure_reason s == ""),
        )
        else (s, false))
    else if not (s.reason == "")
    then (record s { reason = "" }, true)
    else (s, false)
