-- ===== src/Drill/Pending/Moves.antt =====
-- internal/controller/disasterdrill/controller.go, `handlePending`: the edges of the state diagram.
use testudo_operator.Base.{String, Bool, true, not, ◌&&◌, ◌==◌, if-cases}
use testudo_operator.Base.Outcome.{ok, err}
use testudo_operator.Drill.Types.{
  pending, DrillStatus, Drill, Answer, found, not_found, failed_request, Api, Handled,
}
use testudo_operator.Drill.Diagram.{passes, rejected, Moves, Moves-waits, Moves-status}
use testudo_operator.Drill.Pending.{
  Validated, validate_instance_drill, validate_group_drill, handle_pending, after_validation,
  with_target_cluster, reachable,
}

module _ (api : Api) (drill : Drill) (restart : Bool) where
  abbrev M : Handled → Type 0
  M = Moves drill.spec restart pending

  with_target_cluster-Moves :
      (s : DrillStatus) (target : String) (a : Answer String)
      → M (with_target_cluster api drill.spec s target a)
  with_target_cluster-Moves s target (found status) =
      if-cases M (not (status == "Ready") && not drill.spec.skip_validation) _ _
        (λ e. Moves-status _ _ rejected) (λ e. Moves-status _ _ passes)
  with_target_cluster-Moves s target (not_found e) = Moves-status _ _ rejected
  with_target_cluster-Moves s target (failed_request e) = Moves-waits _

  after_validation-Moves : (v : Validated) → M (after_validation api drill.spec v)
  after_validation-Moves (s, err e) = Moves-status _ _ rejected
  after_validation-Moves (s, ok target) =
      if-cases M (not (target == "") && not (target == "(Auto)")) _ _
        (λ e.
          with_target_cluster-Moves (reachable (record s { target_cluster = target }) true) target
            (api.cluster_status target))
        (λ e. Moves-status _ _ passes)

  pub handle_pending-Moves : M (handle_pending api drill)
  unfolding handle_pending
  handle_pending-Moves =
      let spec = drill.spec in
      if-cases M (not (spec.instance_name == "") && not (spec.group_name == "")) _ _
        (λ e. Moves-status _ _ rejected)
        (λ e.
          if-cases M (spec.instance_name == "" && spec.group_name == "") _ _
            (λ f. Moves-status _ _ rejected)
            (λ f.
              if-cases M (not (spec.instance_name == "")) _ _
                (λ g. after_validation-Moves (validate_instance_drill api spec drill.status))
                (λ g. after_validation-Moves (validate_group_drill api spec drill.status))))
