-- ===== src/Operation/Group/Levels.antt =====
-- internal/controller/disasteroperation/controller.go, `handleGroupOperation`: the levels of a group are
-- worked off in their order.
use testudo_operator.Base.{
  ℕ, ◌≡◌, refl, ◌∙◌, ap, ◌⊎◌, inl, inr, ◌<◌, decimal, String, Bool, true, false, Option, some, List,
  [], ◌∷◌, All, if-cases,
}
use Prim.Native.String
use text.Mathlib.TextLemmas.{nil-append}
use testudo_operator.Base.Atoi.{atoi-decimal}
use testudo_operator.Base.Outcome.{Outcome, ok, err}
use testudo_operator.Base.Text.{join, strip_prefix, strip_prefix-append}
use testudo_operator.Drill.Types.{
  OperationState, operation_unset, operation_pending, operation_running, operation_completed,
  operation_failed, Answer, found, not_found, failed_request, CreateAnswer, created, already_exists,
  create_failed,
}
use testudo_operator.Operation.Types.{
  DrillConfig, Operation, Instance, Write, create_operation, Api,
}
use testudo_operator.Operation.Group.{
  request_failed, child_failed, level_end, LevelRun, stops, goes_on, visit_instance, visit_level,
  after_create, create_child, by_state, with_child, instance_missing, current_level, level_name,
  info, with_current, level_of_rest, number_or_zero,
}
use testudo_operator.Operation.Children.{child_name, child_operation, drill_config_for_group_child}

abbrev append : String → String → String
append s t = Prim.Native.String.◌++◌ s t

-- The number of a level below 2 ^ 63 is read back from the name of the step.
pub current_level-level_name : (n : ℕ) → n < 9223372036854775808 → current_level (level_name n) ≡ n
unfolding current_level join
current_level-level_name n h =
    let e : strip_prefix (level_name n) "Level-" ≡ some (decimal n) =
      ap (λ t. strip_prefix (append "Level-" t) "Level-") (nil-append (decimal n))
      ∙ strip_prefix-append "Level-" (decimal n) in
    ap level_of_rest e ∙ ap number_or_zero (atoi-decimal n h)

module _ (api : Api) (operation : Operation) (continues : Bool) where
  -- The child of an instance has ended as the policy wants it, or the instance is missing and the
  -- policy is to go on.
  abbrev pub EndedChild : Operation → Type 0
  EndedChild child =
      (child.status.state ≡ operation_completed)
      ⊎ ((child.status.state ≡ operation_failed) × (continues ≡ true))

  pub data EndedInstance (name : String) : Type 0 where
    missing : (e : String) → api.instance name ≡ not_found e → continues ≡ true → EndedInstance name
    ended :
        (i : Instance) (child : Operation)
        → api.instance name ≡ found i
        → api.operation (child_name operation name) ≡ found child
        → EndedChild child
        → EndedInstance name

  -- A loop that ends with all instances done has created nothing and found them all ended.
  abbrev pub DoneOnly : List String → LevelRun → Type 0
  DoneOnly names (ws, request_failed) = Unit
  DoneOnly names (ws, child_failed e) = Unit
  DoneOnly names (ws, level_end false ps) = Unit
  DoneOnly names (ws, level_end true ps) = All EndedInstance names × (ws ≡ [])

  module _ (name : String) (names : List String) where
    on-DoneOnly :
        (ps : List String) (rest : LevelRun)
        → EndedInstance name
        → DoneOnly names rest
        → DoneOnly (name ∷ names) (goes_on [] true ps rest)
    on-DoneOnly ps (ws, request_failed) e h = tt
    on-DoneOnly ps (ws, child_failed m) e h = tt
    on-DoneOnly ps (ws, level_end false qs) e h = tt
    on-DoneOnly ps (ws, level_end true qs) e h = ((e, h.0), h.1)

    off-DoneOnly :
        (vs : List Write) (ps : List String) (rest : LevelRun)
        → DoneOnly (name ∷ names) (goes_on vs false ps rest)
    off-DoneOnly vs ps (ws, request_failed) = tt
    off-DoneOnly vs ps (ws, child_failed m) = tt
    off-DoneOnly vs ps (ws, level_end b qs) = tt

    abbrev D : LevelRun → Type 0
    D = DoneOnly (name ∷ names)

    visit-DoneOnly :
        (rest : LevelRun)
        → DoneOnly names rest
        → D (visit_instance api operation continues name rest)
    unfolding visit_instance
    visit-DoneOnly rest h = answered (api.instance name) refl
      where
        created_child :
            (child : Operation) (a : CreateAnswer)
            → D (after_create api operation continues name rest child a)
        created_child child create_failed = tt
        created_child child already_exists = off-DoneOnly [] [] rest
        created_child child created = off-DoneOnly (create_operation child ∷ []) [] rest

        configured :
            (c : Outcome String (Option DrillConfig))
            → D (create_child api operation continues name rest c)
        configured (err e) = tt
        configured (ok config) =
            let child = child_operation operation name config in
            created_child child (api.created child)

        by_child :
            (i : Instance) (child : Operation)
            → api.instance name ≡ found i
            → api.operation (child_name operation name) ≡ found child
            → (s : OperationState) → child.status.state ≡ s
            → D (by_state api operation continues name rest child s)
        by_child i child e q operation_failed p =
            if-cases D continues _ _
              (λ c.
                on-DoneOnly (info api operation continues name rest "Failed") rest
                  (ended i child e q (inr (p, c))) h)
              (λ c. tt)
        by_child i child e q operation_completed p =
            on-DoneOnly (info api operation continues name rest "Completed") rest
              (ended i child e q (inl p)) h
        by_child i child e q operation_unset p =
            off-DoneOnly []
              (info api operation continues name rest (
                with_current api operation continues name rest child.status.current_step
                  operation_unset))
              rest
        by_child i child e q operation_pending p =
            off-DoneOnly []
              (info api operation continues name rest (
                with_current api operation continues name rest child.status.current_step
                  operation_pending))
              rest
        by_child i child e q operation_running p =
            off-DoneOnly []
              (info api operation continues name rest (
                with_current api operation continues name rest child.status.current_step
                  operation_running))
              rest

        with_answer :
            (i : Instance)
            → api.instance name ≡ found i
            → (a : Answer Operation) → api.operation (child_name operation name) ≡ a
            → D (with_child api operation continues name rest a)
        with_answer i e (found child) q = by_child i child e q child.status.state refl
        with_answer i e (not_found m) q = configured (
            drill_config_for_group_child operation.spec.drill_config operation.spec.operation_type
              name)
        with_answer i e (failed_request m) q = tt

        answered :
            (a : Answer Instance)
            → api.instance name ≡ a
            → D (elim a [
              | found i ↦
                  with_child api operation continues name rest
                    (api.operation (child_name operation name))
              | not_found e ↦ instance_missing api operation continues name rest
              | failed_request e ↦ stops request_failed
            ])
        answered (found i) e = with_answer i e (api.operation (child_name operation name)) refl
        answered (not_found m) e =
            if-cases D continues _ _
              (λ c.
                on-DoneOnly (info api operation continues name rest "NotFound") rest (missing m e c)
                  h)
              (λ c. tt)
        answered (failed_request m) e = tt

  pub level-DoneOnly :
      (names : List String) → DoneOnly names (visit_level api operation continues names)
  unfolding visit_level
  level-DoneOnly [] = (tt, refl)
  level-DoneOnly (name ∷ names) =
      visit-DoneOnly name names (visit_level api operation continues names) (level-DoneOnly names)
