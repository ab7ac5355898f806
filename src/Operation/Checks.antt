-- ===== src/Operation/Checks.antt =====
-- internal/controller/disasteroperation/controller.go, `handleSync`: how it finds out that the
-- synchronisations have run.
use testudo_operator.Base.{
  ℕ, String, Bool, false, not, ◌&&◌, ◌||◌, Option, none, some, List, [], ◌∷◌, ◌++◌, ◌==◌, nat_eq,
  leb, reverse_onto, if◌then◌else◌,
}
use testudo_operator.Base.Text.{join}
use testudo_operator.Drill.Types.{Answer, found}
use testudo_operator.Operation.Types.{Condition, Instance, Sync, Api}

-- `!t.Before(since)` for the time of a synchronisation.
abbrev pub synced_since : ℕ → Option ℕ → Bool
synced_since since none = false
synced_since since (some t) = leb since t

unfoldable pub resource_sync_failure_detail : Sync → String
resource_sync_failure_detail s =
    if not (s.message == "")
    then s.message
    else if not (s.reason == "")
    then s.reason
    else "state=Failed"

abbrev pub names : String → Condition → Bool
names t c = c.condition_type == t || c.condition_reason == t

abbrev pub tells_failure : ℕ → Condition → Bool
tells_failure since c =
    c.condition_true
    && (names "BuildRestoreSpecFailed" c
        || names "BackupFailed" c
        || names "SyncFailed" c
        || names "RestoreFailed" c)
    && leb since c.last_transition_time

abbrev pub text_of : Condition → String
text_of c =
    if not (c.condition_message == "")
    then c.condition_message
    else if not (c.condition_reason == "")
    then c.condition_reason
    else c.condition_type

-- The first condition of a list, the newest first, that tells of a failure.
unfoldable pub failure_in : ℕ → List Condition → Option String
failure_in since [] = none
failure_in since (c ∷ cs) =
    let rest = failure_in since cs in if tells_failure since c then some (text_of c) else rest

-- The zero time, of an operation that carries no readable time, is 0: it is before every other one.
unfoldable pub has_resource_sync_failure_since : Sync → ℕ → Option String
has_resource_sync_failure_since s since =
    if s.state == "Failed" && (nat_eq since 0 || synced_since since s.last_sync_time)
    then some (resource_sync_failure_detail s)
    else failure_in since (reverse_onto s.conditions [])

-- What the checks of the synchronisations found: a failure, or what is not ready yet.
pub record Checked : Type 0 where
  pub failed_error : Option String
  pub pending_info : List String

abbrev pub unwatched : Checked
unwatched = record { failed_error = none; pending_info = [] }

abbrev pub is_waiting : String → Checked
is_waiting info = record { failed_error = none; pending_info = info ∷ [] }

abbrev pub has_failed : String → Checked
has_failed e = record { failed_error = some e; pending_info = [] }

abbrev pub info_of : String → String → String → String
info_of kind name state = join "" (kind ∷ "(" ∷ name ∷ ")=" ∷ state ∷ [])

-- A synchronisation with no other sign of a failure.
unfoldable pub check_synced : String → ℕ → Sync → Checked
check_synced kind since s =
    if not (synced_since since s.last_sync_time)
    then is_waiting (info_of kind s.name "WaitingStart")
    else if s.state == "Failed"
    then has_failed (join "" (kind ∷ " " ∷ s.name ∷ " is Failed" ∷ []))
    else if s.state == "Ready"
    then unwatched
    else is_waiting (info_of kind s.name s.state)

abbrev pub check_data : ℕ → String → Answer Sync → Checked
check_data since name (found s) = check_synced "DataSync" since s
check_data since name answer = is_waiting (info_of "DataSync" name "GetError")

abbrev pub unless_failed : ℕ → Sync → Option String → Checked
unless_failed since s (some e) =
    has_failed (join "" ("ResourceSync " ∷ s.name ∷ " is Failed: " ∷ e ∷ []))
unless_failed since s none = check_synced "ResourceSync" since s

abbrev pub check_resource : ℕ → String → Answer Sync → Checked
check_resource since name (found s) =
    unless_failed since s (has_resource_sync_failure_since s since)
check_resource since name answer = is_waiting (info_of "ResourceSync" name "GetError")

abbrev pub then_check : Checked → Checked → Checked
then_check first second = elim first.failed_error [
  | some e ↦ first
  | none ↦ record {
    failed_error = second.failed_error;
    pending_info = first.pending_info ++ second.pending_info;
  }
]

unfoldable pub check_syncs : Api → Bool → Bool → Instance → ℕ → Checked
check_syncs api with_data with_resource i since =
    then_check
      (if with_data && not (i.data_sync_name == "")
        then check_data since i.data_sync_name (api.data_sync i.data_sync_name)
        else unwatched)
      (if with_resource && not (i.resource_sync_name == "")
        then check_resource since i.resource_sync_name (api.resource_sync i.resource_sync_name)
        else unwatched)
