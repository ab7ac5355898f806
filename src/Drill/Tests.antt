-- ===== src/Drill/Tests.antt =====
-- Runs of the drill controller.
use testudo_operator.Base.{inr, ◌≡◌, ◌↔◌, refl, true, false, not, ◌==◌, none, some, [], ◌∷◌, inl}
use testudo_operator.Base.Outcome.{ok}
use testudo_operator.Base.Text.{apart, trim_space}
use testudo_operator.Drill.Mode.Same.{restore_modes_equal_sound}
use testudo_operator.Drill.Mode.Aggregate.{Agrees, aggregate_drill_restore_mode-Agrees}
use testudo_operator.Base.Assoc.{Assoc, lookup}
use testudo_operator.Drill.Types.{
  RestoreMode, pending, update_status, ready, completed, failed, full_restore, resource_only,
  DrillStatus, empty_status, Drill, Instance, DataSync, ResourceSync, Operation, found, not_found,
  created, Api, create_operation,
}
use testudo_operator.Drill.Diagram.{Moves}
use testudo_operator.Drill.Mode.{
  mode_of, classify_drill_restore_mode, resolve_instance_restore_mode, aggregate_from,
  aggregate_drill_restore_mode, same_modes, restore_modes_equal, collect_current_restore_modes,
  compare_snapshot, refresh_restore_mode_snapshot,
}
use testudo_operator.Drill.Reason.{is_failed, normalize_drill_status_error}
use testudo_operator.Drill.Mode.Classified.{Restorable, classify_drill_restore_mode_lem}
use testudo_operator.Drill.Reason.Settled.{normalize_drill_status_error-settled}
use testudo_operator.Drill.Cleanup.{
  cleanup_operations, cleanup_operation, create_cleanup, trigger_cleanup,
}
use testudo_operator.Drill.Cleanup.Once.{NoCleanup, trigger_cleanup-once}
use testudo_operator.Drill.Ready.{running_operation, drill_operation, execute, handle_ready}
use testudo_operator.Drill.Ready.Verified.{Verified}
use testudo_operator.Drill.Reconcile.{should_restart, handle_state, reconcile}
use testudo_operator.Drill.Pending.{validate_instance_drill, handle_pending}
use testudo_operator.Drill.Shown.{Shown}
use testudo_operator.Drill.Reconcile.Traces.{applied, runs, Reachable, follows, Reachable-Shown}
use testudo_operator.Drill.Reconcile.Transitions.{reconcile-Moves}
use testudo_operator.Drill.Reconcile.Execution.{reconcile-Verified}

abbrev shop : Instance
shop = record {
  name = "shop";
  fsm_state = "Protected";
  primary_cluster = "east";
  secondary_cluster = "west";
  data_sync_name = "shop-data";
  resource_sync_name = "shop-resources";
  last_data_sync_time = none;
  last_resource_sync_time = none;
}

abbrev server : Api
server = record {
  instance = λ name. found shop;
  group_levels = λ name. not_found "none";
  cluster_status = λ name. found "Ready";
  data_sync = λ name. found (record {
    instance = "shop";
    state = "Ready";
    last_backup_name = "d1";
    no_data_volumes = none;
    history = [];
  });
  resource_sync =
      λ name. found (record { instance = "shop"; state = "Ready"; last_backup_name = "r1" });
  operation = λ name. not_found "none";
  operations_of_drill = λ name. some [];
  create = λ o. created;
  now = 100;
}

abbrev confirmed_drill : Drill
confirmed_drill = record {
  name = "exercise";
  deleting = false;
  has_finalizer = true;
  labels_current = true;
  restart_at = none;
  spec = record {
    instance_name = "shop";
    group_name = "";
    target_cluster = "";
    namespace_mapping = [];
    skip_validation = false;
    confirmed = true;
    wait_until_ready = false;
    clean_up = false;
  };
  status = record empty_status {
    state = ready;
    target_cluster = "west";
    restore_mode = full_restore;
    instance_restore_modes = ("shop", full_restore) ∷ [];
  };
}

reconcile-Moves_example :
    Moves confirmed_drill.spec
      (should_restart confirmed_drill)
      ready
      (reconcile server confirmed_drill)
reconcile-Moves_example = reconcile-Moves server confirmed_drill

reconcile-Verified_example : Verified server confirmed_drill
unfolding reconcile normalize_drill_status_error handle_state handle_ready execute
    refresh_restore_mode_snapshot collect_current_restore_modes resolve_instance_restore_mode
    classify_drill_restore_mode compare_snapshot restore_modes_equal same_modes
    aggregate_drill_restore_mode aggregate_from running_operation lookup trim_space
reconcile-Verified_example =
    reconcile-Verified server confirmed_drill
      (create_operation (drill_operation 100 confirmed_drill)) refl (inl refl) tt

abbrev data_sync : DataSync
data_sync = record {
  instance = "shop";
  state = "Ready";
  last_backup_name = "";
  no_data_volumes = some ("True", "NoPVCFound");
  history = "Completed" ∷ "Skipped" ∷ [];
}

abbrev resource_sync : ResourceSync
resource_sync = record { instance = "shop"; state = "Ready"; last_backup_name = "r1" }

classify_drill_restore_mode_lem_example :
    (classify_drill_restore_mode (some data_sync) (some resource_sync) ≡ ok resource_only)
    ↔ Restorable data_sync resource_sync resource_only
classify_drill_restore_mode_lem_example =
    classify_drill_restore_mode_lem data_sync resource_sync resource_only

abbrev ended_drill : Drill
ended_drill = record confirmed_drill {
  spec = record confirmed_drill.spec { clean_up = true };
  status = record confirmed_drill.status { state = completed; operation_name = "" };
}

abbrev first_operation : Operation
first_operation = drill_operation 50 confirmed_drill

abbrev later_server : Api
later_server = record server { operations_of_drill = λ name. some (first_operation ∷ []) }

trigger_cleanup-once_example : NoCleanup (first_operation ∷ [])
unfolding trigger_cleanup cleanup_operations create_cleanup drill_operation
trigger_cleanup-once_example =
    trigger_cleanup-once later_server ended_drill (first_operation ∷ [])
      (cleanup_operation 100 ended_drill) refl (inl refl)

abbrev failed_status : DrillStatus
failed_status = record empty_status { state = failed; message = "演练失败: x" }

normalize_drill_status_error-settled_example :
    (is_failed (normalize_drill_status_error failed_status).0.state
      ≡ not ((normalize_drill_status_error failed_status).0.reason == ""))
    × (normalize_drill_status_error (normalize_drill_status_error failed_status).0
        ≡ ((normalize_drill_status_error failed_status).0, false))
normalize_drill_status_error-settled_example = normalize_drill_status_error-settled failed_status

abbrev new_drill : Drill
new_drill = record confirmed_drill { status = empty_status }

abbrev checked_status : DrillStatus
checked_status = record empty_status {
  state = pending;
  start_time = some 100;
  message = "演练已创建，正在校验...";
}

abbrev pending_drill : Drill
pending_drill = record confirmed_drill { status = checked_status }

abbrev ready_status : DrillStatus
ready_status = record checked_status {
  state = ready;
  target_cluster = "west";
  restore_mode = full_restore;
  instance_restore_modes = ("shop", full_restore) ∷ [];
  ready_time = some 100;
  message = "演练已就绪，请设置 spec.confirmed=true 开始执行";
  validation_results = some (record {
    instance_valid = true;
    cluster_reachable = true;
    backup_available = true;
    last_data_sync_time = none;
    last_resource_sync_time = none;
  });
}

abbrev ready_drill : Drill
ready_drill = record confirmed_drill { status = ready_status }

reached : Reachable ready_drill
unfolding applied reconcile normalize_drill_status_error handle_state handle_pending
    validate_instance_drill resolve_instance_restore_mode classify_drill_restore_mode
    aggregate_drill_restore_mode aggregate_from trim_space
reached =
    follows pending_drill ready_drill
      (follows new_drill pending_drill (Reachable.created new_drill refl)
        (runs server new_drill (update_status checked_status) (inl refl)))
      (runs server pending_drill (update_status ready_status) (inl refl))

Reachable-Shown_example : Shown ready_status
Reachable-Shown_example = Reachable-Shown ready_drill reached

abbrev shown_modes : Assoc RestoreMode
shown_modes = ("shop", full_restore) ∷ ("mail", resource_only) ∷ []

abbrev current_modes : Assoc RestoreMode
current_modes = ("mail", resource_only) ∷ ("shop", full_restore) ∷ []

restore_modes_equal_sound_example : mode_of "mail" shown_modes ≡ mode_of "mail" current_modes
unfolding restore_modes_equal same_modes lookup
restore_modes_equal_sound_example =
    restore_modes_equal_sound shown_modes current_modes "mail"
      ((λ i. elim i [ inl e ↦ apart "shop" "mail" refl e | inr f ↦ f ]), ((λ i. i), tt))
      (λ n i. elim i [ inl e ↦ cc | inr (inl e) ↦ cc | inr (inr f) ↦ f ]) refl

aggregate_drill_restore_mode-Agrees_example :
    Agrees full_restore (("mail", resource_only) ∷ []) (aggregate_drill_restore_mode shown_modes)
aggregate_drill_restore_mode-Agrees_example =
    aggregate_drill_restore_mode-Agrees "shop" full_restore (("mail", resource_only) ∷ []) (λ e. cc)
