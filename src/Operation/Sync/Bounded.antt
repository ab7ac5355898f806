-- ===== src/Operation/Sync/Bounded.antt =====
-- internal/controller/disasteroperation/controller.go, `handleSync`: the number of its retries.
use testudo_operator.Base.{
  ℕ, ◌≡◌, refl, sym, ◌∙◌, ap, subst, ◌⊎◌, inl, inr, ◌+◌, ◌-◌, ◌≤◌, String, Bool, true, false, not,
  ◌&&◌, Option, none, some, List, [], ◌∷◌, ◌++◌, ◌==◌, All, if-cases, Bool-cases, nat_eq, arith,
  if◌then◌else◌, eq_iff,
}
use testudo_operator.Base.Assoc.{Assoc, lookup}
use testudo_operator.Drill.Types.{Answer, found, not_found, failed_request}
use testudo_operator.Operation.Types.{
  RetryPolicy, OperationSpec, OperationStatus, Operation, Instance, Write, update_status,
  update_operation, Handled, Api,
}
use testudo_operator.Operation.Steps.{fails_with, overdue}
use testudo_operator.Operation.Each.Triggers.{trigger_writes-All}
use testudo_operator.Operation.Course.Ordered.{applied}
use testudo_operator.Operation.Failover.Completes.{all_applied}
use testudo_operator.Operation.Sync.{
  handle_sync, sync_of, unless_waiting, check_or_trigger, after_trigger, triggered_status,
  sync_failed, retrying_status, within, by_pending, sync_timed_out_status, synced_status,
  triggered_operation,
}
use testudo_operator.Operation.Retry.{
  should_retry, below_limit, sync_retry_wait_remaining, limit_of,
}
use testudo_operator.Operation.Checks.{check_syncs}
use testudo_operator.Operation.Trigger.{
  Triggered, trigger_syncs, time_or_zero, annotation, trigger_key, remove_annotation,
}

allowed :
    (status : OperationStatus) (p : Option RetryPolicy)
    → below_limit status p ≡ true
    → status.retry_count + 1 ≤ limit_of p
allowed status none h = absurd (cc)
allowed status (some policy) h = ground arith

lookup-remove_annotation : (k : String) (m : Assoc String) → lookup k (remove_annotation k m) ≡ none
unfolding lookup remove_annotation
lookup-remove_annotation k [] = refl
lookup-remove_annotation k ((j, v) ∷ m) = elim (Bool-cases (j == k)) [
  | inl e ↦ rw e (lookup-remove_annotation k m)
  | inr e ↦ rw e (rw e (lookup-remove_annotation k m))
]

-- The time at which the synchronisations were triggered, as the operation notes it; the empty text if
-- they are still to be triggered.
abbrev pub trigger_mark : Operation → String
trigger_mark o = annotation (lookup trigger_key o.annotations)

-- A run that takes back the mark of the trigger leads to another one.
abbrev pub retry_by : String → String → ℕ
retry_by before after = if not (before == "") && after == "" then 1 else 0

abbrev pub retry_of : Operation → Operation → ℕ
retry_of before after = retry_by (trigger_mark before) (trigger_mark after)

-- A run changes neither the count nor takes the mark back, or it does both, as the policy allows.
data Ran (o new : Operation) : Type 0 where
  keeps :
      new.spec ≡ o.spec
      → new.status.retry_count ≡ o.status.retry_count
      → (trigger_mark o ≡ "") ⊎ (trigger_mark new ≡ trigger_mark o)
      → Ran o new
  retries :
      new.spec ≡ o.spec
      → new.status.retry_count ≡ o.status.retry_count + 1
      → new.status.retry_count ≤ limit_of o.spec.retry_policy
      → (trigger_mark o == "") ≡ false
      → trigger_mark new ≡ ""
      → Ran o new

abbrev Inert : Write → Type 0
Inert w = (o : Operation) → applied w o ≡ o

all_applied-append :
    (ws vs : List Write) (o : Operation)
    → All Inert ws
    → all_applied (ws ++ vs) o ≡ all_applied vs o
unfolding all_applied
all_applied-append [] vs o h = refl
all_applied-append (w ∷ ws) vs o (p, rest) =
    ap (λ x. all_applied (ws ++ vs) x) (p o) ∙ all_applied-append ws vs o rest

module _ (api : Api) (operation : Operation) where
  abbrev M : Handled → Type 0
  M h = Ran operation (all_applied h.0 operation)

  fails_with-Ran : (message : String) → M (fails_with operation.status message)
  unfolding fails_with all_applied applied
  fails_with-Ran message = keeps refl refl (inr refl)

  triggered-Ran :
      (t : Triggered)
      → All Inert t.0
      → trigger_mark operation ≡ ""
      → M (after_trigger api operation t)
  unfolding triggered_operation triggered_status all_applied applied
  triggered-Ran (ws, []) h e =
      subst (Ran operation)
        (sym (
          all_applied-append ws
            (update_operation (triggered_operation api operation)
              ∷ update_status (triggered_status api operation)
              ∷ [])
            operation h))
        (keeps refl refl (inl e))
  triggered-Ran (ws, m ∷ ms) h e =
      subst (Ran operation) (sym (all_applied-append ws _ operation h)) (keeps refl refl (inl e))

  failed-Ran :
      (m : String) → (trigger_mark operation == "") ≡ false → M (sync_failed api operation m)
  unfolding sync_failed retrying_status should_retry all_applied applied
  failed-Ran m e =
      if-cases M (below_limit operation.status operation.spec.retry_policy) _ _
        (λ q.
          retries refl refl (allowed operation.status operation.spec.retry_policy q) e
            (ap annotation (lookup-remove_annotation trigger_key operation.annotations)))
        (λ q. keeps refl refl (inr refl))

  unready-Ran : (ps : List String) → M (by_pending api operation ps)
  unfolding synced_status all_applied applied
  unready-Ran [] = keeps refl refl (inr refl)
  unready-Ran (p ∷ ps) = keeps refl refl (inr refl)

  within-Ran : (ps : List String) (start : Option ℕ) → M (within api operation ps start)
  unfolding sync_timed_out_status all_applied applied
  within-Ran ps none = unready-Ran ps
  within-Ran ps (some start) =
      if-cases M
        (not (nat_eq operation.spec.timeout_minutes 0)
          && overdue (api.now - start) operation.spec.timeout_minutes)
        _ _ (λ q. keeps refl refl (inr refl)) (λ q. unready-Ran ps)

  handle_sync-Ran :
      (with_data with_resource : Bool) → M (handle_sync api operation with_data with_resource)
  unfolding handle_sync check_or_trigger all_applied applied
  handle_sync-Ran with_data with_resource = answered (api.instance operation.spec.instance_name)
    where
      checked :
          (ps : List String) (e : Option String)
          → (trigger_mark operation == "") ≡ false
          → M (elim e [
            | some x ↦ sync_failed api operation x
            | none ↦ within api operation ps operation.status.start_time
          ])
      checked ps (some m) q = failed-Ran m q
      checked ps none q = within-Ran ps operation.status.start_time

      waited :
          (i : Instance) (r : Option ℕ)
          → M (unless_waiting api operation with_data with_resource i r)
      waited i (some r) = keeps refl refl (inr refl)
      waited i none =
          let mark = trigger_mark operation in
          let c =
            check_syncs api with_data with_resource i (time_or_zero (api.time_of_text mark)) in
          if-cases M (mark == "") _ _
            (λ q.
              triggered-Ran (trigger_syncs api with_data with_resource i)
                (trigger_writes-All Inert (λ n t. λ o. refl) (λ n t. λ o. refl) api with_data
                  with_resource i)
                ((eq_iff mark "").0 q))
            (λ q. checked c.pending_info c.failed_error q)

      answered : (a : Answer Instance) → M (sync_of api operation with_data with_resource a)
      answered (found i) = waited i (sync_retry_wait_remaining api.now operation.status)
      answered (not_found e) = fails_with-Ran _
      answered (failed_request e) = fails_with-Ran _

-- Runs of `handleSync` for one kind of synchronisation, each of which sees another state of the API
-- server; all their writes reach it.
unfoldable pub sync_runs : Bool → Bool → List Api → Operation → Operation
sync_runs with_data with_resource [] o = o
sync_runs with_data with_resource (api ∷ apis) o =
    sync_runs with_data with_resource apis
      (all_applied (handle_sync api o with_data with_resource).0 o)

-- The number of those runs that lead to another trigger.
unfoldable pub retries_in : Bool → Bool → List Api → Operation → ℕ
retries_in with_data with_resource [] o = 0
retries_in with_data with_resource (api ∷ apis) o =
    let new = all_applied (handle_sync api o with_data with_resource).0 o in
    retry_of o new + retries_in with_data with_resource apis new

retry_of-counted :
    (o new : Operation)
    → Ran o new
    → o.status.retry_count ≤ limit_of o.spec.retry_policy
    → (new.spec ≡ o.spec)
      × (new.status.retry_count ≡ o.status.retry_count + retry_of o new)
      × (new.status.retry_count ≤ limit_of o.spec.retry_policy)
retry_of-counted o new (retries s c b e m) h =
    let one : retry_of o new ≡ 1 = ap (λ t. retry_by (trigger_mark o) t) m ∙ (rw e refl) in
    (s, omega (arith, one, c), b)
retry_of-counted o new (keeps s c m) h =
    let nothing = none_taken m in (s, omega (arith, nothing, c), omega (arith, c, h))
  where
    none_taken : (trigger_mark o ≡ "") ⊎ (trigger_mark new ≡ trigger_mark o) → retry_of o new ≡ 0
    none_taken (inl p) = ap (λ t. retry_by t (trigger_mark new)) p
    none_taken (inr p) =
        ap (λ t. retry_by (trigger_mark o) t) p
        ∙ (elim (Bool-cases (trigger_mark o == "")) [ inl e ↦ rw e refl | inr e ↦ rw e refl ])

-- Over any sequence of runs of `handleSync`, whatever they see, as long as all their writes reach the
-- server: the runs that take back the mark of the trigger, so that the synchronisations are triggered
-- another time, are as many as the count of the retries grows by, and the count never passes the
-- maximum of the policy, 0 without a policy, if it did not before.
pub retries-le_max :
    (with_data with_resource : Bool) (apis : List Api) (operation : Operation)
    → operation.status.retry_count ≤ limit_of operation.spec.retry_policy
    → ((sync_runs with_data with_resource apis operation).status.retry_count
        ≡ operation.status.retry_count + retries_in with_data with_resource apis operation)
      × (operation.status.retry_count + retries_in with_data with_resource apis operation
          ≤ limit_of operation.spec.retry_policy)
unfolding sync_runs retries_in
retries-le_max with_data with_resource [] operation h = (omega arith, omega arith)
retries-le_max with_data with_resource (api ∷ apis) operation h =
    let new = all_applied (handle_sync api operation with_data with_resource).0 operation in
    let (s, c, b) =
      retry_of-counted operation new (handle_sync-Ran api operation with_data with_resource) h in
    let same : limit_of new.spec.retry_policy ≡ limit_of operation.spec.retry_policy =
      ap (λ (p : OperationSpec). limit_of p.retry_policy) s in
    let rest = retries-le_max with_data with_resource apis new (omega (arith, same, b)) in
    (omega (arith, rest.0, c), omega (arith, rest.1, c, same))
