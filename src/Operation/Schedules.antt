-- ===== src/Operation/Schedules.antt =====
-- internal/controller/disasteroperation/controller.go: the steps that pause and resume the
-- synchronisations of an instance.
use testudo_operator.Base.{
  String, Bool, true, false, not, ◌&&◌, ◌||◌, Option, none, some, List, [], ◌∷◌, ◌++◌, ◌==◌,
  if◌then◌else◌,
}
use testudo_operator.Base.Outcome.{Outcome, ok, err}
use testudo_operator.Base.Text.{trim_space}
use testudo_operator.Drill.Types.{Answer, found, not_found, failed_request}
use testudo_operator.Operation.Types.{
  StepStatus, Executed, Instance, Sync, Write, pause_data_sync, pause_resource_sync, Api,
}

-- The writes of a function up to its first error, and whether it completed.
abbrev pub Run : Type 0
Run = List Write × Outcome String Bool

abbrev pub then_run : Run → Run → Run
then_run (ws, err e) rest = (ws, err e)
then_run (ws, ok done) (vs, r) = (ws ++ vs, r)

abbrev pub completes : Run
completes = ([], ok true)

-- One update that changes whether a synchronisation is paused.
abbrev pub written : Write → Option String → Run
written w none = (w ∷ [], ok true)
written w (some e) = ([], err e)

module _ (set : String → Bool → Write) (error_of : String → Option String) where
  -- The loop of `executePauseSchedules` over the listed synchronisations.
  unfoldable pub pause_all : String → List Sync → Run
  pause_all owner [] = completes
  pause_all owner (s ∷ ss) =
      let rest = pause_all owner ss in
      if s.instance == owner && not s.paused
      then then_run (written (set s.name true) (error_of s.name)) rest
      else rest

  abbrev pub resume_found : String → Answer Sync → Run
  resume_found name (found s) =
      if s.paused then written (set name false) (error_of name) else completes
  resume_found name (not_found e) = completes
  resume_found name (failed_request e) = ([], err e)

  -- `resumeDataSyncSchedule` or `resumeResourceSyncSchedule` for each name.
  unfoldable pub resume_all : (String → Answer Sync) → List String → Run
  resume_all get [] = completes
  resume_all get (name ∷ names) =
      let rest = resume_all get names in then_run (resume_found name (get name)) rest

abbrev pub listed : (List Sync → Run) → Outcome String (List Sync) → Run
listed f (err e) = ([], err e)
listed f (ok ss) = f ss

unfoldable pub mem : String → List String → Bool
mem name [] = false
mem name (n ∷ ns) = let rest = mem name ns in n == name || rest

abbrev pub append_trimmed : List String → String → List String
append_trimmed names name = if name == "" || mem name names then names else names ++ name ∷ []

-- The names that were appended are the keys of `seen`.
unfoldable pub append_unique_schedule_name : List String → String → List String
append_unique_schedule_name names name = append_trimmed names (trim_space name)

-- The names of the listed synchronisations of an instance, behind those met.
unfoldable pub schedule_names : String → List String → List Sync → List String
schedule_names owner names [] = names
schedule_names owner names (s ∷ ss) =
    schedule_names owner
      (if s.instance == owner then append_unique_schedule_name names s.name else names) ss

abbrev pub resume_kind :
    (String → Bool → Write)
    → (String → Option String)
    → (String → Answer Sync)
    → String
    → String
    → Outcome String (List Sync)
    → Run
resume_kind set error_of get owner first syncs =
    listed
      (λ ss.
        resume_all set error_of get
          (schedule_names owner (append_unique_schedule_name [] first) ss))
      syncs

unfoldable pub execute_pause_schedules : Api → Instance → Run
execute_pause_schedules api i =
    then_run (listed (pause_all pause_data_sync api.data_sync_paused_set i.name) api.data_syncs) (
      listed (pause_all pause_resource_sync api.resource_sync_paused_set i.name) api.resource_syncs)

unfoldable pub execute_resume_schedules : Api → Instance → Run
execute_resume_schedules api i =
    then_run
      (resume_kind pause_data_sync api.data_sync_paused_set api.data_sync i.name i.data_sync_name
        api.data_syncs)
      (resume_kind pause_resource_sync api.resource_sync_paused_set api.resource_sync i.name
        i.resource_sync_name api.resource_syncs)

abbrev pub executed_run : Instance → StepStatus → Run → Executed
executed_run i step (ws, r) = record {
  writes = ws;
  instance = i;
  step_message = step.message;
  completed = r;
}

abbrev pub executed_remote : Instance → String × Outcome String Bool → Executed
executed_remote i (message, r) = record {
  writes = [];
  instance = i;
  step_message = message;
  completed = r;
}
