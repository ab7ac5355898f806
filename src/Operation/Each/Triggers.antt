-- ===== src/Operation/Each/Triggers.antt =====
-- What the synchronisations' triggers and pauses write.
use testudo_operator.Base.{
  ℕ, String, Bool, true, not, ◌&&◌, Option, none, some, [], ◌∷◌, ◌++◌, ◌==◌, All, All-append,
  if-cases,
}
use testudo_operator.Drill.Types.{Answer, found, not_found, failed_request}
use testudo_operator.Operation.Types.{
  Instance, Sync, Operation, Write, pause_data_sync, pause_resource_sync, trigger_data_sync,
  trigger_resource_sync, Api,
}
use testudo_operator.Operation.Reprotect.{manual_triggers, trigger_unless_unset, trigger_found}
use testudo_operator.Operation.Cancel.{paused_by, pause_unless_unset}
use testudo_operator.Operation.Trigger.{
  Triggered, both, trigger_answered, data_trigger, resource_trigger, trigger_syncs,
}

module _ (P : Write → Type 0) where
  module _ (set : String → ℕ → Write) (sets : (name : String) (t : ℕ) → P (set name t)) where
    found_trigger-All :
        (now : ℕ) (name : String) (failure : Option String)
        → All P (elim failure [ none ↦ set name now ∷ [] | some e ↦ [] ])
    found_trigger-All now name none = (sets name now, tt)
    found_trigger-All now name (some e) = tt

    answered_trigger-All :
        (error_of : String → Option String) (now : ℕ) (name : String) (a : Answer Sync)
        → All P (trigger_found set error_of now name a)
    answered_trigger-All error_of now name (found s) = found_trigger-All now name (error_of name)
    answered_trigger-All error_of now name (not_found e) = tt
    answered_trigger-All error_of now name (failed_request e) = tt

    trigger-All :
        (error_of : String → Option String) (get : String → Answer Sync) (now : ℕ) (name : String)
        → All P (trigger_unless_unset set error_of get now name)
    unfolding trigger_unless_unset
    trigger-All error_of get now name =
        if-cases (All P) (name == "") _ _ (λ e. tt)
          (λ e. answered_trigger-All error_of now name (get name))

  pub manual_triggers-All :
      ((name : String) (t : ℕ) → P (trigger_data_sync name t))
      → ((name : String) (t : ℕ) → P (trigger_resource_sync name t))
      → (api : Api) (operation : Operation) (i : Instance) → All P (manual_triggers api operation i)
  unfolding manual_triggers
  manual_triggers-All d r api operation i =
      if-cases (All P) operation.spec.skip_final_sync _ _ (λ e. tt)
        (λ e.
          All-append P
            (trigger_unless_unset trigger_data_sync api.data_sync_triggered api.data_sync api.now
              i.data_sync_name)
            (trigger_unless_unset trigger_resource_sync api.resource_sync_triggered
              api.resource_sync api.now i.resource_sync_name)
            (trigger-All trigger_data_sync d api.data_sync_triggered api.data_sync api.now
              i.data_sync_name)
            (trigger-All trigger_resource_sync r api.resource_sync_triggered api.resource_sync
              api.now i.resource_sync_name))

  module _ (data_sync : (name : String) (b : Bool) → P (pause_data_sync name b))
      (resource_sync : (name : String) (b : Bool) → P (pause_resource_sync name b)) (api : Api)
      (operation : Operation) where
    module _ (set : String → Bool → Write)
        (sets : (name : String) (b : Bool) → P (set name b)) where
      paused_by-All :
          (error_of : String → Option String) (name : String) (a : Answer Sync)
          → All P (paused_by api operation set error_of name a)
      paused_by-All error_of name (found s) = succeeding (error_of name)
        where
          succeeding :
              (r : Option String) → All P (elim r [ none ↦ set name true ∷ [] | some e ↦ [] ])
          succeeding none = (sets name true, tt)
          succeeding (some e) = tt
      paused_by-All error_of name (not_found e) = tt
      paused_by-All error_of name (failed_request e) = tt

      pause_unless-All :
          (error_of : String → Option String) (get : String → Answer Sync) (name : String)
          → All P (pause_unless_unset api operation set error_of get name)
      unfolding pause_unless_unset
      pause_unless-All error_of get name =
          if-cases (All P) (name == "") _ _ (λ e. tt) (λ e. paused_by-All error_of name (get name))

    pub pause_writes-All :
        (i : Instance)
        → All P (
            pause_unless_unset api operation pause_data_sync api.data_sync_paused_set api.data_sync
              i.data_sync_name
            ++ pause_unless_unset api operation pause_resource_sync api.resource_sync_paused_set
                api.resource_sync i.resource_sync_name)
    pause_writes-All i =
        All-append P
          (pause_unless_unset api operation pause_data_sync api.data_sync_paused_set api.data_sync
            i.data_sync_name)
          (pause_unless_unset api operation pause_resource_sync api.resource_sync_paused_set
            api.resource_sync i.resource_sync_name)
          (pause_unless-All pause_data_sync data_sync api.data_sync_paused_set api.data_sync
            i.data_sync_name)
          (pause_unless-All pause_resource_sync resource_sync api.resource_sync_paused_set
            api.resource_sync i.resource_sync_name)

  module _ (data_sync : (name : String) (t : ℕ) → P (trigger_data_sync name t))
      (resource_sync : (name : String) (t : ℕ) → P (trigger_resource_sync name t)) where
    both-All : (s t : Triggered) → All P s.0 → All P t.0 → All P (both s t).0
    both-All (ws, es) (vs, ds) h k = All-append P ws vs h k

    answered_write-All :
        (kind name : String) (w : Write) (failure : Option String) (a : Answer Sync)
        → P w
        → All P (trigger_answered kind name w failure a).0
    answered_write-All kind name w none (found s) p =
        if-cases {A = Triggered} (λ t. All P t.0) (s.state == "InProgress") _ _ (λ e. tt)
          (λ e. (p, tt))
    answered_write-All kind name w (some m) (found s) p =
        if-cases {A = Triggered} (λ t. All P t.0) (s.state == "InProgress") _ _ (λ e. tt) (λ e. tt)
    answered_write-All kind name w failure (not_found e) p = tt
    answered_write-All kind name w failure (failed_request e) p = tt

    pub trigger_writes-All :
        (api : Api) (with_data with_resource : Bool) (i : Instance)
        → All P (trigger_syncs api with_data with_resource i).0
    unfolding trigger_syncs
    trigger_writes-All api with_data with_resource i =
        both-All (data_trigger api with_data i) (resource_trigger api with_resource i)
          (if-cases {A = Triggered} (λ t. All P t.0) (with_data && not (i.data_sync_name == "")) _ _
            (λ e.
              answered_write-All "DataSync" i.data_sync_name
                (trigger_data_sync i.data_sync_name api.now)
                (api.data_sync_triggered i.data_sync_name) (api.data_sync i.data_sync_name)
                (data_sync i.data_sync_name api.now))
            (λ e. tt))
          (if-cases {A = Triggered} (λ t. All P t.0)
            (with_resource && not (i.resource_sync_name == "")) _ _
            (λ e.
              answered_write-All "ResourceSync" i.resource_sync_name
                (trigger_resource_sync i.resource_sync_name api.now)
                (api.resource_sync_triggered i.resource_sync_name)
                (api.resource_sync i.resource_sync_name)
                (resource_sync i.resource_sync_name api.now))
            (λ e. tt))
