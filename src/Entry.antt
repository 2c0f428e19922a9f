-- ===== src/Entry.antt =====
-- What stands in front of a handler: beginIdempotentRequest of internal/api/idempotency_http.go, and
-- takeRateLimit and resetRateLimit of internal/api/server.go.
pub mod Delays
pub mod Answers
mod Tests
use Prim.Native.Nat.{◌/◌, ◌%◌}
use Prim.Native.String.{◌++◌ as str_append}
use complicatedauth_backend.Prelude.{
  ℕ, ◌+◌, String, Bool, true, false, not, List, Option, none, some, ltb, ◌==◌, if◌then◌else◌,
}
use complicatedauth_backend.Prelude.Int.{ℤ}
use complicatedauth_backend.Db.{Result, ok, err, Outcome}
use complicatedauth_backend.Duration.{second}
use complicatedauth_backend.Idempotency.Validate.{Request}
use complicatedauth_backend.Idempotency.{
  Codec, StoredHttpResponse, Row, Claim, Error, Readings, Faults, begin, conflict,
}
use complicatedauth_backend.RateLimit
use complicatedauth_backend.RateLimit.{Bucket, RateLimitResult, take, reset}

-- What the guard decides: the handler goes on with a value, the client gets a stored response, or it
-- gets an error with its status, its code and the seconds of a Retry-After header.
pub data Answer (A : Type 0) : Type 0 where
  proceeds : A → Answer A
  replays : StoredHttpResponse → Answer A
  fails : ℕ → String → Option ℕ → Answer A

-- int64(d / time.Second), rounded up, and 1 at least
unfoldable pub retry_seconds : ℕ → ℕ
retry_seconds d =
    let seconds = if not (d % second == 0) then d / second + 1 else d / second in
    if ltb seconds 1 then 1 else seconds

unfoldable pub is_conflict : Error → Bool
is_conflict conflict = true
is_conflict _ = false

-- What beginIdempotentRequest makes of the answer of Begin.
unfoldable pub answer_claim : Result Error Claim → Answer Claim
unfolding is_conflict retry_seconds
answer_claim (err e) =
    if is_conflict e
    then fails 409 "idempotency_key_reused" none
    else fails 503 "dependency_unavailable" none
answer_claim (ok claim) = elim claim.replay [
  | some response ↦ replays response
  | none ↦
      if claim.lease_uid == 0
      then fails 409 "idempotency_in_progress" (some (retry_seconds claim.retry_after))
      else proceeds claim
]

-- beginIdempotentRequest
unfoldable pub begin_idempotent_request :
    Codec → Faults → Readings → ℕ → Request → List Row → Answer Claim × List Row
unfolding answer_claim
begin_idempotent_request codec faults at uid request t =
    let (answer, t') = begin codec faults at uid request t in (answer_claim answer, t')

-- security.SecretHash(s.cfg.SecretHashKey, policy+"\x00"+key); the hash under the server's key is a
-- parameter.
unfoldable pub bucket_key : (String → List ℕ) → String → String → RateLimit.Key
bucket_key secret_hash policy key = record {
  policy = policy;
  key_hash = secret_hash (str_append policy (str_append "\0" key));
}

-- What takeRateLimit makes of the answer of Take.
unfoldable pub answer_limit : Result RateLimit.Error RateLimitResult → Answer (Unit {0})
unfolding retry_seconds
answer_limit (err e) = fails 503 "dependency_unavailable" none
answer_limit (ok result) =
    if result.allowed
    then proceeds tt
    else fails 429 "rate_limited" (some (retry_seconds result.retry_after))

-- takeRateLimit
unfoldable pub take_rate_limit :
    (String → List ℕ)
    → Outcome
    → RateLimit.Readings
    → String
    → String
    → ℤ
    → ℤ
    → List Bucket
    → Answer (Unit {0}) × List Bucket
unfolding answer_limit bucket_key
take_rate_limit secret_hash exec at policy key limit window t =
    let (answer, t') = take exec at (bucket_key secret_hash policy key) limit window t in
    (answer_limit answer, t')

-- resetRateLimit: an error is logged only.
unfoldable pub reset_rate_limit :
    (String → List ℕ) → Outcome → String → String → List Bucket → List Bucket
unfolding bucket_key
reset_rate_limit secret_hash exec policy key t =
    (reset exec (bucket_key secret_hash policy key) t).1
