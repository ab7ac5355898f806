-- ===== src/Drill/Pending/Modes.antt =====
-- internal/controller/disasterdrill/controller.go, `handlePending`: a drill that becomes ready shows its
-- restore modes.
use testudo_operator.Base.{
  String, true, false, not, ◌&&◌, ◌≡◌, refl, List, [], ◌∷◌, ◌==◌, is_empty, if-cases,
}
use testudo_operator.Base.Assoc.{Assoc}
use testudo_operator.Base.Outcome.{ok, err}
use testudo_operator.Drill.Types.{
  RestoreMode, DrillStatus, Drill, Instance, Answer, found, not_found, failed_request, Api,
}
use testudo_operator.Drill.Shown.{ShowsOnly, ShowsOnly-waits, ShowsOnly-status}
use testudo_operator.Drill.Mode.{Checked, resolve_instance_restore_mode, join_levels}
use testudo_operator.Drill.Pending.{
  Validated, get_named, is_protected, instance_with_mode, validate_found_instance,
  validate_instance_drill, GroupModes, group_restore_modes, with_group_modes, validate_found_group,
  validate_group_drill, with_target_cluster, reachable, after_validation, handle_pending,
}

-- A validation that passes leaves the restore modes in the status.
pub record Snapshot (v : Validated) : Type 0 where
  pub taken : (target : String) → v.1 ≡ ok target → is_empty v.0.instance_restore_modes ≡ false

module _ (api : Api) (drill : Drill) where
  with_mode-Snapshot :
      (i : Instance) (m : Checked RestoreMode)
      → Snapshot (instance_with_mode drill.spec drill.status i m)
  with_mode-Snapshot i (ok mode) = record { taken = λ t e. refl }
  with_mode-Snapshot i (err x) = record { taken = λ t e. cc }

  instance-Snapshot : Snapshot (validate_instance_drill api drill.spec drill.status)
  unfolding validate_instance_drill
  instance-Snapshot = named (
      get_named "DisasterInstance" drill.spec.instance_name (api.instance drill.spec.instance_name))
    where
      named :
          (c : Checked Instance) → Snapshot (validate_found_instance api drill.spec drill.status c)
      named (err x) = record { taken = λ t e. cc }
      named (ok i) =
          if-cases Snapshot (not (is_protected i) && not drill.spec.skip_validation) _ _
            (λ e. record { taken = λ t f. cc })
            (λ e. with_mode-Snapshot i (resolve_instance_restore_mode api i))

  group-Snapshot : Snapshot (validate_group_drill api drill.spec drill.status)
  unfolding validate_group_drill
  group-Snapshot =
      named
        (get_named "DisasterGroup" drill.spec.group_name (api.group_levels drill.spec.group_name))
    where
      collected :
          (m : GroupModes (Assoc RestoreMode))
          → Snapshot (with_group_modes drill.spec drill.status m)
      collected (err (true, x)) = record { taken = λ t e. cc }
      collected (err (false, x)) = record { taken = λ t e. cc }
      collected (ok []) = record { taken = λ t e. cc }
      collected (ok (m ∷ ms)) = record { taken = λ t e. refl }

      named :
          (c : Checked (List (List String)))
          → Snapshot (validate_found_group api drill.spec drill.status c)
      named (err x) = record { taken = λ t e. cc }
      named (ok levels) = collected (group_restore_modes api (join_levels levels) [])

  with_target-ShowsOnly :
      (s : DrillStatus) (target : String) (a : Answer String)
      → is_empty s.instance_restore_modes ≡ false
      → ShowsOnly (with_target_cluster api drill.spec s target a)
  with_target-ShowsOnly s target (found status) k =
      if-cases ShowsOnly (not (status == "Ready") && not drill.spec.skip_validation) _ _
        (λ e. ShowsOnly-status _ _ refl) (λ e. ShowsOnly-status _ _ k)
  with_target-ShowsOnly s target (not_found e) k = ShowsOnly-status _ _ refl
  with_target-ShowsOnly s target (failed_request e) k = ShowsOnly-waits _

  after_validation-ShowsOnly :
      (v : Validated) → Snapshot v → ShowsOnly (after_validation api drill.spec v)
  after_validation-ShowsOnly (s, err e) h = ShowsOnly-status _ _ refl
  after_validation-ShowsOnly (s, ok target) h =
      let k = h.taken target refl in
      if-cases ShowsOnly (not (target == "") && not (target == "(Auto)")) _ _
        (λ e.
          with_target-ShowsOnly (reachable (record s { target_cluster = target }) true) target
            (api.cluster_status target) k)
        (λ e. ShowsOnly-status _ _ k)

  pub handle_pending-ShowsOnly : ShowsOnly (handle_pending api drill)
  unfolding handle_pending
  handle_pending-ShowsOnly =
      let spec = drill.spec in
      if-cases ShowsOnly (not (spec.instance_name == "") && not (spec.group_name == "")) _ _
        (λ e. ShowsOnly-status _ _ refl)
        (λ e.
          if-cases ShowsOnly (spec.instance_name == "" && spec.group_name == "") _ _
            (λ f. ShowsOnly-status _ _ refl)
            (λ f.
              if-cases ShowsOnly (not (spec.instance_name == "")) _ _
                (λ g.
                  after_validation-ShowsOnly (validate_instance_drill api spec drill.status)
                    instance-Snapshot)
                (λ g.
                  after_validation-ShowsOnly (validate_group_drill api spec drill.status)
                    group-Snapshot)))
