-- ===== src/Drill/Mode/Classified.antt =====
-- internal/controller/disasterdrill/backup_mode.go, `classifyDrillRestoreMode`: which backups allow which
-- mode.
use testudo_operator.Base.{
  String, ◌≡◌, ◌≢◌, ◌↔◌, sym, ap, ◌∙◌, ◌⊎◌, inl, inr, true, false, Option, none, some, arith,
  eq_iff, ◌==◌, Bool-cases,
}
use testudo_operator.Base.Outcome.{ok}
use testudo_operator.Base.Text.{trim_space}
use testudo_operator.Drill.Types.{RestoreMode, full_restore, resource_only, DataSync, ResourceSync}
use testudo_operator.Drill.Mode.{
  last, is_explicit_no_data, resource_only_after, classify_drill_restore_mode,
}

-- The resources are backed up, and the data too, or there is none and the last synchronisation says so.
pub record Restorable (d : DataSync) (r : ResourceSync) (mode : RestoreMode) : Type 0 where
  pub resources_ready : r.state ≡ "Ready"
  pub resources_backed_up : trim_space r.last_backup_name ≢ ""
  pub data_ready : d.state ≡ "Ready"
  pub by_data :
      ((mode ≡ resource_only)
        × (is_explicit_no_data d.no_data_volumes ≡ true)
        × (last d.history ≡ some "Skipped"))
      ⊎ ((mode ≡ full_restore)
          × (is_explicit_no_data d.no_data_volumes ≡ false)
          × (trim_space d.last_backup_name ≢ ""))

resource_only_after-ok :
    (o : Option String) (mode : RestoreMode)
    → resource_only_after o ≡ ok mode
    → (mode ≡ resource_only) × (o ≡ some "Skipped")
resource_only_after-ok none mode h = cc
resource_only_after-ok (some s) mode h = elim (Bool-cases (s == "Skipped")) [
  | inl e ↦ (ground arith, ap some ((eq_iff s "Skipped").0 e))
  | inr e ↦ ground arith
]

-- A drill may restore in a mode exactly if the resource sync is ready and names a backup, the data sync
-- is ready, and: the mode is `ResourceOnly`, the data sync states that it found no volume and its last
-- synchronisation was skipped; or the mode is `FullRestore`, it does not state that, and names a backup.
pub classify_drill_restore_mode_lem :
    (d : DataSync) (r : ResourceSync) (mode : RestoreMode)
    → (classify_drill_restore_mode (some d) (some r) ≡ ok mode) ↔ Restorable d r mode
unfolding classify_drill_restore_mode
classify_drill_restore_mode_lem d r mode = (classified, restorable)
  where
    classified : classify_drill_restore_mode (some d) (some r) ≡ ok mode → Restorable d r mode
    classified h = record {
      resources_ready = ground (arith, eq_iff r.state "Ready");
      resources_backed_up = λ e. ground (arith, eq_iff (trim_space r.last_backup_name) "");
      data_ready = ground (arith, eq_iff d.state "Ready");
      by_data = elim (Bool-cases (is_explicit_no_data d.no_data_volumes)) [
        | inl e ↦
            inl
              (let q = resource_only_after-ok (last d.history) mode (ground arith) in (q.0, e, q.1))
        | inr e ↦
            inr (ground arith, e, (λ g. ground (arith, eq_iff (trim_space d.last_backup_name) "")))
      ];
    }

    restorable : Restorable d r mode → classify_drill_restore_mode (some d) (some r) ≡ ok mode
    restorable h = elim h.by_data [
      | inl (m, e, l) ↦
          let skipped : resource_only_after (last d.history) ≡ ok mode =
            ap resource_only_after l ∙ ap ok (sym m) in
          ground (
            arith,
            h.resources_ready,
            h.resources_backed_up,
            h.data_ready,
            eq_iff r.state "Ready",
            eq_iff d.state "Ready",
            eq_iff (trim_space r.last_backup_name) "",
          )
      | inr (m, e, n) ↦ ground (
        arith,
        h.resources_ready,
        h.resources_backed_up,
        h.data_ready,
        eq_iff r.state "Ready",
        eq_iff d.state "Ready",
        eq_iff (trim_space r.last_backup_name) "",
        eq_iff (trim_space d.last_backup_name) "",
      )
    ]
