-- ===== src/Operation/Each/Parts.antt =====
-- The writes of the functions that the handlers share: the settling of an instance, the pause and the
-- resumption of the synchronisations, and the execution of the steps.
use testudo_operator.Base.{
  String, Bool, true, false, not, ◌&&◌, Option, none, some, List, [], ◌∷◌, ◌==◌, All, All-append,
  if-cases,
}
use testudo_operator.Base.Outcome.{Outcome, ok, err}
use testudo_operator.Drill.Types.{Answer, found, not_found, failed_request}
use testudo_operator.Operation.Types.{
  OperationType, Instance, Sync, StepStatus, Config, Operation, Write, settle_instance,
  update_instance, pause_data_sync, pause_resource_sync, Api, Clusters, Executed,
}
use testudo_operator.Operation.Failure.{
  settled, expects, settle_latest, or_unknown, settle_instance_state_on_step_failure,
}
use testudo_operator.Operation.Schedules.{
  Run, then_run, written, pause_all, resume_all, resume_found, listed, resume_kind,
  execute_pause_schedules, execute_resume_schedules, schedule_names, append_unique_schedule_name,
}
use testudo_operator.Operation.AutoCancel.{
  execute_cancel_step, execute_configured_cancel_step, with_config,
}
use testudo_operator.Operation.Failover.{execute_failover_step}
use testudo_operator.Operation.Undo.{execute_undo_step, switch_latest, updated, original_roles}

module _ (P : Write → Type 0) where
  pub settle-All :
      (api : Api) (t : OperationType) (i : Instance) (name message : String)
      → ((latest : Instance) (e : String) → P (settle_instance (settled t name e latest)))
      → All P (settle_instance_state_on_step_failure api t i name message)
  unfolding settle_instance_state_on_step_failure
  settle-All api t i name message h =
      if-cases (All P) (name == "") _ _ (λ e. tt) (λ e. latest (api.latest_instance i.name))
    where
      latest : (a : Answer Instance) → All P (settle_latest t name (or_unknown message) a)
      latest (found j) = if-cases (All P) (expects t j.fsm_state) _ _ (λ e. (h j _, tt)) (λ e. tt)
      latest (not_found e) = tt
      latest (failed_request e) = tt

  then_run-All : (r rest : Run) → All P r.0 → All P rest.0 → All P (then_run r rest).0
  then_run-All (ws, err e) rest h k = h
  then_run-All (ws, ok b) (vs, r) h k = All-append P ws vs h k

  written-All : (w : Write) (failure : Option String) → P w → All P (written w failure).0
  written-All w none p = (p, tt)
  written-All w (some e) p = tt

  module _ (set : String → Bool → Write) (error_of : String → Option String)
      (sets : (name : String) (b : Bool) → P (set name b)) where
    pause-All : (owner : String) (ss : List Sync) → All P (pause_all set error_of owner ss).0
    unfolding pause_all
    pause-All owner [] = tt
    pause-All owner (s ∷ ss) =
        if-cases {A = Run} (λ r. All P r.0) (s.instance == owner && not s.paused) _ _
          (λ e.
            then_run-All (written (set s.name true) (error_of s.name))
              (pause_all set error_of owner ss)
              (written-All (set s.name true) (error_of s.name) (sets s.name true))
              (pause-All owner ss))
          (λ e. pause-All owner ss)

    found-All : (name : String) (a : Answer Sync) → All P (resume_found set error_of name a).0
    found-All name (found s) =
        if-cases {A = Run} (λ r. All P r.0) s.paused _ _
          (λ e. written-All (set name false) (error_of name) (sets name false)) (λ e. tt)
    found-All name (not_found e) = tt
    found-All name (failed_request e) = tt

    resume-All :
        (get : String → Answer Sync) (names : List String)
        → All P (resume_all set error_of get names).0
    unfolding resume_all
    resume-All get [] = tt
    resume-All get (name ∷ names) =
        then_run-All (resume_found set error_of name (get name)) (resume_all set error_of get names)
          (found-All name (get name)) (resume-All get names)

  listed-All :
      (f : List Sync → Run) (ss : Outcome String (List Sync))
      → ((ss : List Sync) → All P (f ss).0)
      → All P (listed f ss).0
  listed-All f (err e) h = tt
  listed-All f (ok ss) h = h ss

  module _ (data_sync : (name : String) (b : Bool) → P (pause_data_sync name b))
      (resource_sync : (name : String) (b : Bool) → P (pause_resource_sync name b)) where
    pause_schedules-All : (api : Api) (i : Instance) → All P (execute_pause_schedules api i).0
    unfolding execute_pause_schedules
    pause_schedules-All api i =
        then_run-All
          (listed (pause_all pause_data_sync api.data_sync_paused_set i.name) api.data_syncs)
          (listed (pause_all pause_resource_sync api.resource_sync_paused_set i.name)
            api.resource_syncs)
          (listed-All _ api.data_syncs
            (λ ss. pause-All pause_data_sync api.data_sync_paused_set data_sync i.name ss))
          (listed-All _ api.resource_syncs (λ ss.
            pause-All pause_resource_sync api.resource_sync_paused_set resource_sync i.name ss))

    kind-All :
        (set : String → Bool → Write) (error_of : String → Option String)
        → ((name : String) (b : Bool) → P (set name b))
        → (get : String → Answer Sync) (owner first : String) (ss : Outcome String (List Sync))
        → All P (resume_kind set error_of get owner first ss).0
    kind-All set error_of sets get owner first (err e) = tt
    kind-All set error_of sets get owner first (ok ss) =
        resume-All set error_of sets get
          (schedule_names owner (append_unique_schedule_name [] first) ss)

    pub resume_schedules-All : (api : Api) (i : Instance) → All P (execute_resume_schedules api i).0
    unfolding execute_resume_schedules
    resume_schedules-All api i =
        then_run-All
          (resume_kind pause_data_sync api.data_sync_paused_set api.data_sync i.name
            i.data_sync_name api.data_syncs)
          (resume_kind pause_resource_sync api.resource_sync_paused_set api.resource_sync i.name
            i.resource_sync_name api.resource_syncs)
          (kind-All pause_data_sync api.data_sync_paused_set data_sync _ _ _ api.data_syncs)
          (kind-All pause_resource_sync api.resource_sync_paused_set resource_sync _ _ _
            api.resource_syncs)

    module _ (api : Api) (clusters : Clusters) (operation : Operation) (i : Instance)
        (step : StepStatus) where
      abbrev Quiet : Executed → Type 0
      Quiet x = All P x.writes

      pub failover_step-All : Quiet (execute_failover_step api clusters operation i step)
      unfolding execute_failover_step
      failover_step-All =
          if-cases Quiet (step.name == "PreCheck") _ _ (λ e. tt)
            (λ e.
              if-cases Quiet (step.name == "PauseSchedules") _ _ (λ e. pause_schedules-All api i)
                (λ e.
                  if-cases Quiet (step.name == "ScaleDownSource") _ _ (λ e. tt)
                    (λ e.
                      if-cases Quiet (step.name == "FinalSync") _ _ (λ e. tt)
                        (λ e.
                          if-cases Quiet (step.name == "ScaleUpTarget") _ _ (λ e. tt)
                            (λ e.
                              if-cases Quiet (step.name == "CheckReplicas") _ _ (λ e. tt)
                                (λ e.
                                  if-cases Quiet (step.name == "ResumeSchedules") _ _
                                    (λ e. resume_schedules-All api i) (λ e. tt)))))))

      pub cancel_step-All : Quiet (execute_cancel_step api clusters operation i step)
      unfolding execute_cancel_step execute_configured_cancel_step
      cancel_step-All = configured (api.config i)
        where
          configured :
              (a : Answer Config)
              → Quiet (
                  with_config i step
                    (execute_configured_cancel_step api clusters operation i step)
                    a)
          configured (found c) =
              if-cases Quiet (step.name == "ScaleDownTarget") _ _ (λ e. tt)
                (λ e.
                  if-cases Quiet (step.name == "ScaleUpSource") _ _ (λ e. tt)
                    (λ e.
                      if-cases Quiet (step.name == "ResumeSchedules") _ _
                        (λ e. resume_schedules-All api i) (λ e. tt)))
          configured (not_found e) = tt
          configured (failed_request e) = tt

      pub undo_step-All :
          ((c : Config) (latest : Instance) → P (update_instance (original_roles c latest)))
          → Quiet (execute_undo_step api clusters operation i step)
      unfolding execute_undo_step
      undo_step-All h =
          if-cases Quiet (step.name == "ScaleDownTarget") _ _ (λ e. tt)
            (λ e.
              if-cases Quiet (step.name == "ScaleUpSource") _ _ (λ e. tt)
                (λ e.
                  if-cases Quiet (step.name == "SwitchRoles") _ _ (λ e. configured (api.config i))
                    (λ e.
                      if-cases Quiet (step.name == "ResumeSchedules") _ _
                        (λ e. resume_schedules-All api i) (λ e. tt))))
        where
          by_update :
              (c : Config) (latest : Instance) (r : Option String)
              → Quiet (updated step i (original_roles c latest) r)
          by_update c latest none = (h c latest, tt)
          by_update c latest (some e) = tt

          switched : (c : Config) (a : Answer Instance) → Quiet (switch_latest api step i c a)
          switched c (found latest) =
              by_update c latest (api.instance_updated (original_roles c latest))
          switched c (not_found e) = tt
          switched c (failed_request e) = tt

          configured :
              (a : Answer Config)
              → Quiet (
                  with_config i step
                    (λ c. switch_latest api step i c (api.latest_instance i.name))
                    a)
          configured (found c) = switched c (api.latest_instance i.name)
          configured (not_found e) = tt
          configured (failed_request e) = tt
