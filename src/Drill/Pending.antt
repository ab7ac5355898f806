-- ===== src/Drill/Pending.antt =====
-- internal/controller/disasterdrill/controller.go: `handlePending` and the validations of an instance's
-- and of a group's drill.
pub mod Moves
pub mod Modes
use testudo_operator.Base.{
  ℕ, String, Bool, true, false, not, ◌&&◌, ◌||◌, Option, none, some, List, [], ◌∷◌, ◌==◌, is_empty,
  if◌then◌else◌,
}
use testudo_operator.Base.Outcome.{Outcome, ok, err, ◌>>=◌}
use testudo_operator.Base.Assoc.{Assoc, insert, has_key}
use testudo_operator.Base.Text.{join}
use testudo_operator.Drill.Types.{
  failed, ready, RestoreMode, DrillSpec, ValidationResults, DrillStatus, empty_results, Drill,
  Instance, Answer, found, not_found, failed_request, Api, done, request_error, Handled, waits,
  writes_status,
}
use testudo_operator.Drill.Mode.{
  Checked, resolve_instance_restore_mode, set_drill_restore_mode_snapshot, join_levels,
}

-- The status as a validation leaves it, and the target cluster or the text of the error.
abbrev pub Validated : Type 0
Validated = DrillStatus × Checked String

-- A request for a named object.
abbrev get_named : {A : Type 0} → String → String → Answer A → Checked A
get_named kind name (found a) = ok a
get_named kind name (not_found e) = err (join "" (kind ∷ " " ∷ name ∷ " 未找到" ∷ []))
get_named kind name (failed_request e) = err e

abbrev with_results : DrillStatus → ValidationResults → DrillStatus
with_results s results = record s { validation_results = some results }

-- The status after the backups of an instance were looked at.
abbrev no_backup : DrillStatus → ValidationResults → DrillStatus
no_backup s results = record s {
  validation_results = some (record results { backup_available = false });
  reason = "BackupUnavailable";
}

abbrev is_protected : Instance → Bool
is_protected i = i.fsm_state == "Protected" || i.fsm_state == "Active"

abbrev results_of_instance : Instance → ValidationResults
results_of_instance i = record {
  instance_valid = true;
  cluster_reachable = false;
  backup_available = false;
  last_data_sync_time = i.last_data_sync_time;
  last_resource_sync_time = i.last_resource_sync_time;
}

abbrev instance_with_mode : DrillSpec → DrillStatus → Instance → Checked RestoreMode → Validated
instance_with_mode spec s i (err e) = (no_backup s (results_of_instance i), err e)
instance_with_mode spec s i (ok mode) = (
  set_drill_restore_mode_snapshot
      (with_results s (record (results_of_instance i) { backup_available = true }))
      ((i.name, mode) ∷ []),
  ok (if spec.target_cluster == "" then i.secondary_cluster else spec.target_cluster),
)

abbrev validate_found_instance : Api → DrillSpec → DrillStatus → Checked Instance → Validated
validate_found_instance api spec s (err e) = (s, err e)
validate_found_instance api spec s (ok i) =
    if not (is_protected i) && not spec.skip_validation
    then (
      with_results s empty_results,
      err (join "" ("实例 " ∷ i.name ∷ " 状态必须是 Protected 或 Active" ∷ [])),
    )
    else instance_with_mode spec s i (resolve_instance_restore_mode api i)

unfoldable pub validate_instance_drill : Api → DrillSpec → DrillStatus → Validated
validate_instance_drill api spec s =
    validate_found_instance api spec s
      (get_named "DisasterInstance" spec.instance_name (api.instance spec.instance_name))

-- An error of the loop over a group: whether it is one of the backups, and its text.
abbrev pub GroupModes : Type 0 → Type 0
GroupModes = Outcome (Bool × String)

abbrev tagged : {A : Type 0} → Bool → Checked A → GroupModes A
tagged of_backup (ok a) = ok a
tagged of_backup (err e) = err (of_backup, e)

unfoldable pub group_restore_modes :
    Api → List String → Assoc RestoreMode → GroupModes (Assoc RestoreMode)
group_restore_modes api [] modes = ok modes
group_restore_modes api (name ∷ names) modes =
    let known = group_restore_modes api names modes in
    tagged false (get_named "容灾组内实例" name (api.instance name)) >>= λ i.
    if has_key name modes
    then known
    else tagged true (resolve_instance_restore_mode api i) >>= λ mode.
        group_restore_modes api names (insert name mode modes)

abbrev group_results : ValidationResults
group_results = record empty_results { instance_valid = true }

abbrev with_group_modes : DrillSpec → DrillStatus → GroupModes (Assoc RestoreMode) → Validated
with_group_modes spec s (err (true, e)) = (no_backup s group_results, err e)
with_group_modes spec s (err (false, e)) = (with_results s group_results, err e)
with_group_modes spec s (ok []) =
    (no_backup s group_results, err (join "" ("容灾组 " ∷ spec.group_name ∷ " 不包含可演练实例" ∷ [])))
with_group_modes spec s (ok (m ∷ ms)) = (
  set_drill_restore_mode_snapshot
      (with_results s (record group_results { backup_available = true })) (m ∷ ms),
  ok (if spec.target_cluster == "" then "(Auto)" else spec.target_cluster),
)

abbrev validate_found_group :
    Api → DrillSpec → DrillStatus → Checked (List (List String)) → Validated
validate_found_group api spec s (err e) = (s, err e)
validate_found_group api spec s (ok levels) =
    with_group_modes spec s (group_restore_modes api (join_levels levels) [])

unfoldable pub validate_group_drill : Api → DrillSpec → DrillStatus → Validated
validate_group_drill api spec s =
    validate_found_group api spec s
      (get_named "DisasterGroup" spec.group_name (api.group_levels spec.group_name))

-- `drill.Status.ValidationResults`, an empty one where there is none.
abbrev or_empty_results : Option ValidationResults → ValidationResults
or_empty_results none = empty_results
or_empty_results (some results) = results

abbrev reachable : DrillStatus → Bool → DrillStatus
reachable s b = record s {
  validation_results =
      some (record (or_empty_results s.validation_results) { cluster_reachable = b });
}

abbrev invalid_spec : DrillStatus → String → Handled
invalid_spec s message = writes_status (record s { state = failed; message = message }) done

abbrev invalid_cluster : DrillStatus → String → Handled
invalid_cluster s message =
    writes_status
      (record (reachable s false) {
        state = failed;
        reason = "ValidationFailed";
        message = message;
      })
      done

abbrev becomes_ready : ℕ → DrillStatus → Handled
becomes_ready now s =
    writes_status
      (record s {
        state = ready;
        reason = "";
        ready_time = some now;
        message = "演练已就绪，请设置 spec.confirmed=true 开始执行";
      })
      done

abbrev with_target_cluster : Api → DrillSpec → DrillStatus → String → Answer String → Handled
with_target_cluster api spec s target (not_found e) =
    invalid_cluster s (join "" ("目标集群 " ∷ target ∷ " 未找到" ∷ []))
with_target_cluster api spec s target (failed_request e) = waits request_error
with_target_cluster api spec s target (found status) =
    if not (status == "Ready") && not spec.skip_validation
    then invalid_cluster s (join "" ("目标集群 " ∷ target ∷ " 状态不是 Ready，当前: " ∷ status ∷ []))
    else becomes_ready api.now s

abbrev after_validation : Api → DrillSpec → Validated → Handled
after_validation api spec (s, err e) =
    writes_status
      (record (reachable s false) {
        state = failed;
        message = e;
        reason = if s.reason == "" then "ValidationFailed" else s.reason;
      })
      done
after_validation api spec (s, ok target) =
    let t = reachable (record s { target_cluster = target }) true in
    if not (target == "") && not (target == "(Auto)")
    then with_target_cluster api spec t target (api.cluster_status target)
    else becomes_ready api.now t

unfoldable pub handle_pending : Api → Drill → Handled
handle_pending api drill =
    let spec = drill.spec in
    if not (spec.instance_name == "") && not (spec.group_name == "")
    then invalid_spec drill.status "InstanceName 和 GroupName 不能同时指定"
    else if spec.instance_name == "" && spec.group_name == ""
    then invalid_spec drill.status "必须指定 InstanceName 或 GroupName"
    else if not (spec.instance_name == "")
    then after_validation api spec (validate_instance_drill api spec drill.status)
    else after_validation api spec (validate_group_drill api spec drill.status)
