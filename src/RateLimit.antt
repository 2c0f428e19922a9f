-- ===== src/RateLimit.antt =====
-- internal/store/rate_limits.go: the fixed-window limiter RateLimiter over the table
-- rate_limit_buckets (migrations/000004_distributed_rate_limits.up.sql). Times are nanoseconds. The
-- upsert reads the clock once for each clock_timestamp() in its text, and each reading is a value of
-- its own.
pub mod Windows
pub mod Isolation
pub mod Straddle
mod Tests
use complicatedauth_backend.Prelude.{
  ℕ, suc, ◌+◌, ◌-◌, ◌*◌, String, str_eq, eq_iff, ◌≡◌, ◌↔◌, Bool, true, false, not, ◌&&◌, ◌||◌, List,
  [], ◌∷◌, ◌++◌, Option, none, some, ltb, leb, ◌==◌, ==_iff, if◌then◌else◌, arith, length, min,
}
use complicatedauth_backend.Prelude.Int.{ℤ, pos, ltb_ℤ, pos_part}
use complicatedauth_backend.Prelude.Text.{matches, is_lower, is_dotted}
use complicatedauth_backend.Prelude.Bytes.{bytes_eq, bytes_eq_iff}
use complicatedauth_backend.Table.{Keyed, get, update, delete}
use complicatedauth_backend.Db.{Result, ok, err, Outcome, settle}
use complicatedauth_backend.Cleanup.{cleanup}
use complicatedauth_backend.Duration.{second, hour, duration_seconds}

pub record Key : Type 0 where
  pub policy : String
  pub key_hash : List ℕ

unfoldable pub same_key : Key → Key → Bool
same_key j k = str_eq j.policy k.policy && bytes_eq j.key_hash k.key_hash

pub same_key_iff : (j k : Key) → (same_key j k ≡ true) ↔ (j ≡ k)
unfolding same_key
same_key_iff j k = ground (arith, eq_iff j.policy k.policy, bytes_eq_iff j.key_hash k.key_hash)

-- A row of rate_limit_buckets.
pub record Bucket : Type 0 where
  pub key : Key
  pub request_count : ℕ
  pub window_started_at : ℕ
  pub expires_at : ℕ

instance abbrev pub bucket_keyed : Keyed Bucket
bucket_keyed = record { Key = Key; key = λ b. b.key; same = same_key; same_iff = same_key_iff }

pub record RateLimitResult : Type 0 where
  pub allowed : Bool
  pub limit : ℕ
  pub remaining : ℕ
  pub retry_after : ℕ
  pub reset_at : ℕ

pub data Error : Type 0 where
  invalid_policy bad_key_hash bad_allowance bad_window consume_failed : Error
  invalid_reset_key reset_failed bad_limit cleanup_failed : Error

-- The readings of clock_timestamp() in one upsert, in the order of its text.
pub record Readings : Type 0 where
  pub insert_start : ℕ
  pub insert_expiry : ℕ
  pub count_check : ℕ
  pub start_check : ℕ
  pub start_value : ℕ
  pub expiry_check : ℕ
  pub expiry_value : ℕ
  pub returned : ℕ

-- VALUES($1, $2, 1, ...)
unfoldable pub fresh : Readings → Key → ℕ → Bucket
fresh at key span = record {
  key = key;
  request_count = 1;
  window_started_at = at.insert_start;
  expires_at = at.insert_expiry + span;
}

-- ON CONFLICT (policy, key_hash) DO UPDATE SET ...: each CASE tests the expiry at a reading of its own.
unfoldable pub bump : Readings → ℕ → ℕ → Bucket → Bucket
bump at limit span b = record b {
  request_count =
      if leb b.expires_at at.count_check then 1 else min (b.request_count + 1) (limit + 1);
  window_started_at =
      if leb b.expires_at at.start_check then at.start_value else b.window_started_at;
  expires_at = if leb b.expires_at at.expiry_check then at.expiry_value + span else b.expires_at;
}

-- The upsert: the table, and the bucket that RETURNING reads.
unfoldable pub upsert : Readings → Key → ℕ → ℕ → List Bucket → List Bucket × Bucket
upsert at key limit span t = elim (get key t) [
  | none ↦ (t ++ fresh at key span ∷ [], fresh at key span)
  | some b ↦ (update (λ x. same_key x.key key) (bump at limit span) t, bump at limit span b)
]

-- What Take makes of the returned row. `-` stops at 0, as the two corrections of the code do.
unfoldable pub verdict : Readings → ℕ → Bucket → RateLimitResult
verdict at limit b =
    let allowed = leb b.request_count limit in
    record {
      allowed = allowed;
      limit = limit;
      remaining = limit - b.request_count;
      retry_after = if allowed then 0 else b.expires_at - at.returned;
      reset_at = b.expires_at;
    }

-- The guards of Take; `none` is nil.
unfoldable pub check_take : Key → ℤ → ℤ → Option Error
check_take key limit window =
    if not (matches is_lower is_dotted 127 key.policy)
    then some invalid_policy
    else if not (length key.key_hash == 32)
    then some bad_key_hash
    else if ltb_ℤ limit (pos 1) || ltb_ℤ (pos 1000000) limit
    then some bad_allowance
    else if ltb_ℤ window (pos second) || ltb_ℤ (pos (7 * 24 * hour)) window
    then some bad_window
    else none

-- Take. Past the guards `limit` is positive.
unfoldable pub take :
    Outcome → Readings → Key → ℤ → ℤ → List Bucket → Result Error RateLimitResult × List Bucket
take exec at key limit window t = elim (check_take key limit window) [
  | some e ↦ (err e, t)
  | none ↦
      let (t', b) = upsert at key (pos_part limit) (duration_seconds window * second) t in
      settle exec consume_failed (verdict at (pos_part limit) b) t' t
]

-- Reset
unfoldable pub reset : Outcome → Key → List Bucket → Result Error (Unit {0}) × List Bucket
reset exec key t =
    if not (matches is_lower is_dotted 127 key.policy) || not (length key.key_hash == 32)
    then (err invalid_reset_key, t)
    else settle exec reset_failed tt (delete (λ b. same_key b.key key) t) t

-- DeleteExpired
unfoldable pub delete_expired : Outcome → ℕ → ℤ → List Bucket → Result Error ℕ × List Bucket
delete_expired exec now limit t =
    if ltb_ℤ limit (pos 1) || ltb_ℤ (pos 10000) limit
    then (err bad_limit, t)
    else let (t', deleted) =
        cleanup (λ b. leb b.expires_at now) (λ b. b.expires_at) (pos_part limit) t in
      settle exec cleanup_failed deleted t' t
