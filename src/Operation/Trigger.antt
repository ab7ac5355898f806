-- ===== src/Operation/Trigger.antt =====
-- internal/controller/disasteroperation/controller.go, `handleSync`: how it triggers the synchronisations
-- of an instance.
use testudo_operator.Base.{
  ℕ, String, Bool, not, ◌&&◌, Option, none, some, List, [], ◌∷◌, ◌++◌, ◌==◌, if◌then◌else◌,
}
use testudo_operator.Base.Assoc.{Assoc}
use testudo_operator.Base.Text.{join}
use testudo_operator.Drill.Types.{Answer, found, not_found, failed_request}
use testudo_operator.Operation.Types.{
  Instance, Sync, Write, trigger_data_sync, trigger_resource_sync, Api,
}

-- The writes of a trigger and its errors; a synchronisation in progress is left alone.
abbrev pub Triggered : Type 0
Triggered = List Write × List String

abbrev pub not_triggered : Triggered
not_triggered = ([], [])

module _ (kind name : String) where
  abbrev pub trigger_error : String → Triggered
  trigger_error e = ([], join "" (kind ∷ "(" ∷ name ∷ "): " ∷ e ∷ []) ∷ [])

  abbrev pub trigger_update : Write → Option String → Triggered
  trigger_update w none = (w ∷ [], [])
  trigger_update w (some e) = trigger_error e

  abbrev pub trigger_answered : Write → Option String → Answer Sync → Triggered
  trigger_answered w failure (found s) =
      if s.state == "InProgress" then not_triggered else trigger_update w failure
  trigger_answered w failure (not_found e) = trigger_error e
  trigger_answered w failure (failed_request e) = trigger_error e

abbrev pub both : Triggered → Triggered → Triggered
both (ws, es) (vs, ds) = (ws ++ vs, es ++ ds)

abbrev pub data_trigger : Api → Bool → Instance → Triggered
data_trigger api with_data i =
    let d = i.data_sync_name in
    if with_data && not (d == "")
    then trigger_answered "DataSync" d (trigger_data_sync d api.now) (api.data_sync_triggered d)
        (api.data_sync d)
    else not_triggered

abbrev pub resource_trigger : Api → Bool → Instance → Triggered
resource_trigger api with_resource i =
    let r = i.resource_sync_name in
    if with_resource && not (r == "")
    then trigger_answered "ResourceSync" r (trigger_resource_sync r api.now)
        (api.resource_sync_triggered r) (api.resource_sync r)
    else not_triggered

unfoldable pub trigger_syncs : Api → Bool → Bool → Instance → Triggered
trigger_syncs api with_data with_resource i =
    both (data_trigger api with_data i) (resource_trigger api with_resource i)

abbrev pub trigger_key : String
trigger_key = "testudo.softcdata.com/sync-triggered-at"

unfoldable pub remove_annotation : String → Assoc String → Assoc String
remove_annotation k [] = []
remove_annotation k ((j, v) ∷ m) =
    let rest = remove_annotation k m in if j == k then rest else (j, v) ∷ rest

abbrev pub annotation : Option String → String
annotation none = ""
annotation (some t) = t

abbrev pub time_or_zero : Option ℕ → ℕ
time_or_zero none = 0
time_or_zero (some t) = t
