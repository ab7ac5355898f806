-- ===== src/Operation/Steps/Overdue.antt =====
-- internal/controller/disasteroperation/controller.go: the timeout of a step in 64-bit nanoseconds.
use testudo_operator.Base.{ℕ, ◌≡◌, ◌≤◌, ◌*◌, ltb, arith}
use testudo_operator.Operation.Steps.{overdue}

-- Up to 153,722,867 minutes, about 292 years, the timeout does not wrap around: a time is overdue
-- exactly when it is longer than that many minutes.
pub overdue-bounded :
    (elapsed minutes : ℕ)
    → minutes ≤ 153722867
    → overdue elapsed minutes ≡ ltb (minutes * 60) elapsed
unfolding overdue
overdue-bounded elapsed minutes h = ground arith
