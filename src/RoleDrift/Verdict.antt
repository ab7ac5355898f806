-- ===== src/RoleDrift/Verdict.antt =====
-- internal/controller/disasterinstance/role_drift.go, `guardByRoleDrift`: when the guard stops an
-- instance.
use testudo_operator.Base.{
  ℕ, String, Bool, true, false, ◌≡◌, ◌≢◌, ◌↔◌, refl, sym, ap, ◌∙◌, subst, Option, some, List, [],
  arith, ◌==◌, eq_iff, Bool-cases, Option-cases, inl, inr, ◌||◌,
}
use testudo_operator.Base.Text.{trim_space}
use testudo_operator.RoleDrift.{
  Api, sample_cluster_replica_role, evaluation_of, evaluate_role_drift, InstanceStatus,
  guard_by_role_drift, RoleDriftEvaluation,
}
use testudo_operator.RoleDrift.Sample.{running, role_of, summary}
use testudo_operator.RoleDrift.Judged.{
  workloads_of, sample-listed, sample-unlisted, role_of-standby, role_of-standby_inv,
  role_of-unknown_inv, role_of-known, judge_hard, judge-hard, judge-soft, evaluation_of-hard,
}

-- The two clusters are known, the primary one has workloads of which none runs, and the secondary
-- one has workloads.
pub record PrimaryIsStopped (api : Api) (instance' : InstanceStatus) : Type 0 where
  pub primary_named : trim_space instance'.primary_cluster ≢ ""
  pub secondary_named : trim_space instance'.secondary_cluster ≢ ""
  pub primary_workloads : List (Option ℕ)
  pub secondary_workloads : List (Option ℕ)
  pub primary_listed :
      workloads_of api instance'.namespaces (trim_space instance'.primary_cluster)
      ≡ some primary_workloads
  pub secondary_listed :
      workloads_of api instance'.namespaces (trim_space instance'.secondary_cluster)
      ≡ some secondary_workloads
  pub primary_present : primary_workloads ≢ []
  pub primary_stopped : running primary_workloads ≡ 0
  pub secondary_present : secondary_workloads ≢ []

guard-hard :
    (api : Api) (instance' : InstanceStatus)
    → (guard_by_role_drift api instance').1 ≡ (evaluate_role_drift api instance').hard_failure
unfolding guard_by_role_drift
guard-hard api instance' = ground arith

abbrev unnamed : InstanceStatus → Bool
unnamed instance' =
    trim_space instance'.primary_cluster == "" || trim_space instance'.secondary_cluster == ""

-- The evaluation of two clusters that are named.
abbrev compared : Api → InstanceStatus → RoleDriftEvaluation
compared api i =
    evaluation_of (sample_cluster_replica_role api i.namespaces (trim_space i.primary_cluster))
      (sample_cluster_replica_role api i.namespaces (trim_space i.secondary_cluster))

evaluate-unnamed-true :
    (api : Api) (i : InstanceStatus)
    → unnamed i ≡ true
    → (evaluate_role_drift api i).hard_failure ≡ false
unfolding evaluate_role_drift
evaluate-unnamed-true api i h = rw h refl

evaluate-unnamed-false :
    (api : Api) (i : InstanceStatus)
    → unnamed i ≡ false
    → evaluate_role_drift api i ≡ compared api i
unfolding evaluate_role_drift
evaluate-unnamed-false api i h = rw h refl

unnamed-false_inv :
    (i : InstanceStatus)
    → unnamed i ≡ false
    → (trim_space i.primary_cluster ≢ "") × (trim_space i.secondary_cluster ≢ "")
unnamed-false_inv i h = (
  (λ e. ground (arith, eq_iff (trim_space i.primary_cluster) "")),
  (λ e. ground (arith, eq_iff (trim_space i.secondary_cluster) "")),
)

unnamed-false :
    (i : InstanceStatus)
    → trim_space i.primary_cluster ≢ ""
    → trim_space i.secondary_cluster ≢ ""
    → unnamed i ≡ false
unnamed-false i p s =
    ground
      (arith, eq_iff (trim_space i.primary_cluster) "", eq_iff (trim_space i.secondary_cluster) "")

abbrev of_summaries : String → String → List (Option ℕ) → List (Option ℕ) → RoleDriftEvaluation
of_summaries c d ps ss = evaluation_of (summary c ps, false) (summary d ss, false)

compared-listed :
    (api : Api) (i : InstanceStatus) (ps ss : List (Option ℕ))
    → workloads_of api i.namespaces (trim_space i.primary_cluster) ≡ some ps
    → workloads_of api i.namespaces (trim_space i.secondary_cluster) ≡ some ss
    → compared api i
      ≡ of_summaries (trim_space i.primary_cluster) (trim_space i.secondary_cluster) ps ss
compared-listed api i ps ss a b =
    rw
      (
        sample-listed api i.namespaces (trim_space i.primary_cluster) ps a,
        sample-listed api i.namespaces (trim_space i.secondary_cluster) ss b,
      )
      refl

summaries-hard :
    (c d : String) (ps ss : List (Option ℕ))
    → (of_summaries c d ps ss).hard_failure ≡ true
    → (ps ≢ []) × (running ps ≡ 0) × (ss ≢ [])
unfolding judge_hard summary
summaries-hard c d ps ss h =
    let q = judge-hard (role_of ps) (role_of ss) h in
    let (present, none_runs) = role_of-standby_inv ps q.0 in
    (present, none_runs, role_of-unknown_inv ss q.1)

hard-summaries :
    (c d : String) (ps ss : List (Option ℕ))
    → ps ≢ []
    → running ps ≡ 0
    → ss ≢ []
    → (of_summaries c d ps ss).hard_failure ≡ true
unfolding judge_hard summary
hard-summaries c d ps ss a b n =
    let e = role_of-standby ps a b in
    let f = judge-soft (role_of ss) (role_of-known ss n) in
    ap (λ r. judge_hard r (role_of ss)) e ∙ f

not_both : {A : Type 0} {b : Bool} → b ≡ true → b ≡ false → A
not_both p q = absurd (let e : true ≡ false = sym p ∙ q in cc)

-- A hard failure of two samples, in terms of the listed workloads.
stopped-hard :
    (api : Api) (i : InstanceStatus) (e : unnamed i ≡ false)
    → (compared api i).hard_failure ≡ true
    → PrimaryIsStopped api i
stopped-hard api i e h =
    elim (Option-cases (workloads_of api i.namespaces (trim_space i.primary_cluster))) [
      | inl a ↦
          let q = evaluation_of-hard _ _ h in
          not_both (sample-unlisted api i.namespaces (trim_space i.primary_cluster) a) q.0
      | inr (ps, a) ↦
          elim (Option-cases (workloads_of api i.namespaces (trim_space i.secondary_cluster))) [
            | inl b ↦
                let q = evaluation_of-hard _ _ h in
                not_both (sample-unlisted api i.namespaces (trim_space i.secondary_cluster) b) q.1
            | inr (ss, b) ↦
                let n = unnamed-false_inv i e in
                let q =
                  summaries-hard _ _ ps ss
                    (subst (λ v. v.hard_failure ≡ true) (compared-listed api i ps ss a b) h) in
                record {
                  primary_named = n.0;
                  secondary_named = n.1;
                  primary_workloads = ps;
                  secondary_workloads = ss;
                  primary_listed = a;
                  secondary_listed = b;
                  primary_present = q.0;
                  primary_stopped = q.1;
                  secondary_present = q.2;
                }
          ]
    ]

hard-stopped :
    (api : Api) (i : InstanceStatus) → PrimaryIsStopped api i → (compared api i).hard_failure ≡ true
hard-stopped api i p =
    let e =
      compared-listed api i p.primary_workloads p.secondary_workloads p.primary_listed
        p.secondary_listed in
    subst (λ v. v.hard_failure ≡ true) (sym e)
      (hard-summaries _ _ p.primary_workloads p.secondary_workloads p.primary_present
        p.primary_stopped p.secondary_present)

-- The guard ends the reconciliation of an instance exactly when both clusters are named, the
-- workloads of both can be listed in full, the primary cluster has workloads of which none has a
-- positive number of replicas, and the secondary cluster has workloads.
pub guard_by_role_drift-stops :
    (api : Api) (instance' : InstanceStatus)
    → ((guard_by_role_drift api instance').1 ≡ true) ↔ PrimaryIsStopped api instance'
guard_by_role_drift-stops api i = (
  (λ h. elim (Bool-cases (unnamed i)) [
    | inl e ↦ let f = evaluate-unnamed-true api i e in let g = guard-hard api i in cc
    | inr e ↦
        let f = evaluate-unnamed-false api i e in
        let g = guard-hard api i in
        stopped-hard api i e (ap (λ v. v.hard_failure) (sym f) ∙ sym g ∙ h)
  ]),
  (λ p.
      let f = evaluate-unnamed-false api i (unnamed-false i p.primary_named p.secondary_named) in
      guard-hard api i ∙ ap (λ v. v.hard_failure) f ∙ hard-stopped api i p),
)
