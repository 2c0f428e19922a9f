-- ===== src/Entry/Delays.antt =====
-- The seconds of a Retry-After header are enough to wait.
use complicatedauth_backend.Prelude.{ℕ, ◌+◌, ◌*◌, ◌≤◌, ◌<◌, arith}
use complicatedauth_backend.Duration.{second}
use complicatedauth_backend.Entry.{retry_seconds}

-- The seconds are at least one and cover the duration, by less than a second if it is positive.
pub retry_seconds_cover :
    (d : ℕ)
    → (1 ≤ retry_seconds d)
      × (d ≤ retry_seconds d * second)
      × (0 < d → retry_seconds d * second < d + second)
unfolding retry_seconds
retry_seconds_cover d = (ground arith, ground arith, λ h. ground arith)
