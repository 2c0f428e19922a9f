-- ===== src/RateLimit/Straddle.antt =====
-- The upsert tests the expiry of a bucket once for each column, each time at a new reading of the
-- clock. What happens when the expiry falls between two of these readings.
use complicatedauth_backend.Prelude.{◌+◌, ◌*◌, ◌<◌, ◌≤◌, ◌≡◌, false, List, some, arith}
use complicatedauth_backend.Prelude.Int.{ℤ, pos_part}
use complicatedauth_backend.Table.{get}
use complicatedauth_backend.Db.{ok, done, settle}
use complicatedauth_backend.Duration.{second, duration_seconds}
use complicatedauth_backend.Prelude.{none}
use complicatedauth_backend.RateLimit.{
  Key, Bucket, bucket_keyed, Readings, RateLimitResult, bump, upsert, verdict, check_take, take,
}

-- If a bucket that has used up its limit expires after the test of request_count and before the test
-- of expires_at, Take denies the call and opens a whole new window that is used up from the start.
pub straddled_window_is_spent :
    (at : Readings) (key : Key) (limit window : ℤ) (t : List Bucket) (b : Bucket)
    → check_take key limit window ≡ none
    → get key t ≡ some b
    → pos_part limit ≤ b.request_count
    → at.count_check < b.expires_at
    → b.expires_at ≤ at.expiry_check
    → (r : RateLimitResult) × ((take done at key limit window t).0 ≡ ok r)
      × (r.allowed ≡ false)
      × (r.reset_at ≡ at.expiry_value + duration_seconds window * second)
unfolding take settle upsert bump verdict
straddled_window_is_spent at key limit window t b valid found full early late = (
  verdict at (pos_part limit) (bump at (pos_part limit) (duration_seconds window * second) b),
  ground arith,
  ground arith,
  ground arith,
)
