-- ===== src/Operation/Retry.antt =====
-- internal/controller/disasteroperation/controller_retry.go, and the limit of the retries.
use testudo_operator.Base.{
  ℕ, Bool, false, not, ◌&&◌, Option, none, some, ◌-◌, nat_eq, leb, ltb, if◌then◌else◌,
}
use testudo_operator.Operation.Types.{RetryPolicy, OperationStatus, Operation, Api}

abbrev pub limit_of : Option RetryPolicy → ℕ
limit_of none = 0
limit_of (some policy) = policy.max_retries

abbrev pub below_limit : OperationStatus → Option RetryPolicy → Bool
below_limit status none = false
below_limit status (some policy) =
    not (nat_eq policy.max_retries 0) && ltb status.retry_count policy.max_retries

unfoldable pub should_retry : Operation → Bool
should_retry operation = below_limit operation.status operation.spec.retry_policy

abbrev pub interval_of : ℕ → Option RetryPolicy → ℕ
interval_of default none = default
interval_of default (some policy) =
    if nat_eq policy.retry_interval_seconds 0 then default else policy.retry_interval_seconds

unfoldable pub retry_wait_duration : Api → Operation → ℕ
retry_wait_duration api operation =
    interval_of api.default_retry_interval operation.spec.retry_policy

abbrev pub remaining_at : ℕ → Option ℕ → Option ℕ
remaining_at now none = none
remaining_at now (some next) = if leb next now then none else some (next - now)

-- The seconds that are left to wait, `none` if there is nothing to wait for.
unfoldable pub sync_retry_wait_remaining : ℕ → OperationStatus → Option ℕ
sync_retry_wait_remaining now status = remaining_at now status.next_retry_time
