-- ===== src/Drill/Mode.antt =====
-- internal/controller/disasterdrill/backup_mode.go: whether the backups of an instance allow a drill,
-- and in which mode.
pub mod Classified
pub mod Same
pub mod Aggregate
use testudo_operator.Base.{
  ℕ, String, Bool, true, false, not, ◌&&◌, Option, none, some, List, [], ◌∷◌, ◌++◌, ◌==◌, nat_eq,
  length, is_empty, if◌then◌else◌,
}
use testudo_operator.Base.Outcome.{Outcome, ok, err, ◌>>=◌, reject_if, ◌>>◌}
use testudo_operator.Base.Assoc.{Assoc, lookup, insert, has_key}
use testudo_operator.Base.Text.{trim_space, join}
use testudo_operator.Drill.Types.{
  RestoreMode, no_mode, reuse, full_restore, resource_only, mixed, DrillSpec, DrillStatus, Instance,
  DataSync, ResourceSync, Answer, found, not_found, failed_request, Api,
}

-- An error is its text.
abbrev pub Checked : Type 0 → Type 0
Checked = Outcome String

-- `history[len(history)-1]`.
abbrev pub last : {A : Type 0} → List A → Option A
last [] = none
last (x ∷ []) = some x
last (x ∷ y ∷ ys) = last (y ∷ ys)

abbrev pub is_explicit_no_data : Option (String × String) → Bool
is_explicit_no_data none = false
is_explicit_no_data (some (status, reason)) = status == "True" && reason == "NoPVCFound"

abbrev pub resource_only_after : Option String → Checked RestoreMode
resource_only_after none = err "DataSync 声明 NoPVCFound，但缺少最新 Skipped 同步历史"
resource_only_after (some status) =
    if status == "Skipped"
    then ok resource_only
    else err (join "" ("DataSync 声明 NoPVCFound，但最新同步历史状态为 " ∷ status ∷ "，不是 Skipped" ∷ []))

-- The checks of the data sync, once those of the resource sync have passed.
abbrev pub data_sync_mode : Option DataSync → Checked RestoreMode
data_sync_mode none = err "DataSync 未找到"
data_sync_mode (some d) =
    if not (d.state == "Ready")
    then err (join "" ("DataSync 状态不是 Ready，当前: " ∷ d.state ∷ []))
    else if is_explicit_no_data d.no_data_volumes
    then resource_only_after (last d.history)
    else if trim_space d.last_backup_name == ""
    then err "DataSync 没有可用的数据备份，且未明确标记 NoPVCFound"
    else ok full_restore

unfoldable pub classify_drill_restore_mode :
    Option DataSync → Option ResourceSync → Checked RestoreMode
classify_drill_restore_mode d none = err "ResourceSync 未找到"
classify_drill_restore_mode d (some r) =
    if not (r.state == "Ready")
    then err (join "" ("ResourceSync 状态不是 Ready，当前: " ∷ r.state ∷ []))
    else if trim_space r.last_backup_name == ""
    then err "ResourceSync 没有可用的资源备份"
    else data_sync_mode d

-- A request whose error is passed on after some words.
abbrev get_or : {A : Type 0} → String → Answer A → Checked A
get_or words (found a) = ok a
get_or words (not_found e) = err (join "" (words ∷ ": " ∷ e ∷ []))
get_or words (failed_request e) = err (join "" (words ∷ ": " ∷ e ∷ []))

abbrev wrap : {A : Type 0} → String → Checked A → Checked A
wrap words (ok a) = ok a
wrap words (err e) = err (join "" (words ∷ e ∷ []))

unfoldable pub resolve_instance_restore_mode : Api → Instance → Checked RestoreMode
resolve_instance_restore_mode api i =
    reject_if (trim_space i.data_sync_name == "")
      (join "" ("实例 " ∷ i.name ∷ " 未记录 DataSync 名称" ∷ []))
    >> reject_if (trim_space i.resource_sync_name == "")
        (join "" ("实例 " ∷ i.name ∷ " 未记录 ResourceSync 名称" ∷ []))
    >> (get_or (join "" ("获取 DataSync " ∷ i.data_sync_name ∷ " 失败" ∷ []))
          (api.data_sync i.data_sync_name)
        >>= λ d.
            reject_if (not (d.instance == i.name)) (
              join ""
                ("DataSync " ∷ i.data_sync_name ∷ " 关联实例为 " ∷ d.instance ∷ "，不是 " ∷ i.name ∷ []))
            >> (get_or (join "" ("获取 ResourceSync " ∷ i.resource_sync_name ∷ " 失败" ∷ []))
                  (api.resource_sync i.resource_sync_name)
                >>= λ r.
                    reject_if (not (r.instance == i.name)) (
                      join "" (
                        "ResourceSync " ∷ i.resource_sync_name ∷ " 关联实例为 " ∷ r.instance ∷ "，不是 "
                        ∷ i.name ∷ []))
                    >> wrap (join "" ("实例 " ∷ i.name ∷ " 备份校验失败: " ∷ []))
                        (classify_drill_restore_mode (some d) (some r))))

abbrev pub mode_eq : RestoreMode → RestoreMode → Bool
mode_eq no_mode no_mode = true
mode_eq reuse reuse = true
mode_eq full_restore full_restore = true
mode_eq resource_only resource_only = true
mode_eq mixed mixed = true
mode_eq a b = false

-- The loop with the aggregate so far; Go visits the entries of the map in any order.
unfoldable pub aggregate_from : RestoreMode → Assoc RestoreMode → RestoreMode
aggregate_from aggregate [] = aggregate
aggregate_from aggregate ((name, mode) ∷ modes) =
    let next = if mode_eq aggregate no_mode then mode else aggregate in
    let rest = aggregate_from next modes in
    if mode_eq aggregate no_mode then rest else if not (mode_eq aggregate mode) then mixed else rest

unfoldable pub aggregate_drill_restore_mode : Assoc RestoreMode → RestoreMode
aggregate_drill_restore_mode modes = aggregate_from no_mode modes

-- `m[name]`, the empty mode for a missing name.
abbrev pub mode_of : String → Assoc RestoreMode → RestoreMode
mode_of name modes = elim (lookup name modes) [ none ↦ no_mode | some mode ↦ mode ]

unfoldable pub same_modes : Assoc RestoreMode → Assoc RestoreMode → Bool
same_modes [] right = true
same_modes ((name, mode) ∷ left) right =
    if not (mode_eq (mode_of name right) mode) then false else same_modes left right

unfoldable pub restore_modes_equal : Assoc RestoreMode → Assoc RestoreMode → Bool
restore_modes_equal left right =
    if not (nat_eq (length left) (length right)) then false else same_modes left right

abbrev pub set_drill_restore_mode_snapshot : DrillStatus → Assoc RestoreMode → DrillStatus
set_drill_restore_mode_snapshot s modes = record s {
  instance_restore_modes = modes;
  restore_mode = aggregate_drill_restore_mode modes;
}

-- The names of the levels, in the order of the two loops.
abbrev pub join_levels : List (List String) → List String
join_levels [] = []
join_levels (level ∷ levels) = level ++ join_levels levels

-- The loops of `collectCurrentRestoreModes` over the instances of a group.
unfoldable pub collect_modes : Api → List String → Assoc RestoreMode → Checked (Assoc RestoreMode)
collect_modes api [] modes = ok modes
collect_modes api (name ∷ names) modes =
    let skipped = collect_modes api names modes in
    if has_key name modes
    then skipped
    else get_or (join "" ("获取容灾组实例 " ∷ name ∷ " 失败" ∷ [])) (api.instance name) >>= λ i.
        resolve_instance_restore_mode api i >>= λ mode.
        collect_modes api names (insert name mode modes)

abbrev nonempty_modes : String → Assoc RestoreMode → Checked (Assoc RestoreMode)
nonempty_modes group [] = err (join "" ("DisasterGroup " ∷ group ∷ " 不包含可演练实例" ∷ []))
nonempty_modes group (m ∷ ms) = ok (m ∷ ms)

unfoldable pub collect_current_restore_modes : Api → DrillSpec → Checked (Assoc RestoreMode)
collect_current_restore_modes api spec =
    if not (spec.instance_name == "")
    then (get_or (join "" ("获取 DisasterInstance " ∷ spec.instance_name ∷ " 失败" ∷ []))
          (api.instance spec.instance_name)
        >>= λ i. resolve_instance_restore_mode api i >>= λ mode. ok ((i.name, mode) ∷ []))
    else get_or (join "" ("获取 DisasterGroup " ∷ spec.group_name ∷ " 失败" ∷ []))
        (api.group_levels spec.group_name)
      >>= λ levels. collect_modes api (join_levels levels) [] >>= λ modes.
          nonempty_modes spec.group_name modes

-- The text of the last error leaves the two maps out.
-- The changed status, if it has to be written, or the reason and the text of an error.
unfoldable pub compare_snapshot :
    DrillStatus → Assoc RestoreMode → Outcome (String × String) (Option DrillStatus)
compare_snapshot s current =
    if is_empty s.instance_restore_modes
    then ok (some (set_drill_restore_mode_snapshot s current))
    else if not (restore_modes_equal s.instance_restore_modes current)
    then err ("BackupStateChanged", "演练 Ready 后备份恢复模式发生变化，请重新创建或重置演练")
    else if not (mode_eq s.restore_mode (aggregate_drill_restore_mode current))
    then ok (some (record s { restore_mode = aggregate_drill_restore_mode current }))
    else ok none

abbrev pub compared_to :
    DrillStatus → Checked (Assoc RestoreMode) → Outcome (String × String) (Option DrillStatus)
compared_to s (err e) = err ("BackupUnavailable", e)
compared_to s (ok current) = compare_snapshot s current

unfoldable pub refresh_restore_mode_snapshot :
    Api → DrillSpec → DrillStatus → Outcome (String × String) (Option DrillStatus)
refresh_restore_mode_snapshot api spec s = compared_to s (collect_current_restore_modes api spec)
