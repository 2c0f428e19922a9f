-- ===== src/Entry/Answers.antt =====
-- What clients get in front of a handler, from the first request to its last replay.
use complicatedauth_backend.Prelude.{
  ℕ, ◌+◌, ◌-◌, ◌*◌, ◌<◌, ◌≤◌, ◌≡◌, ◌≢◌, false, List, none, some, String, arith, All, if◌then◌else◌,
  inl, inr, Option-cases,
}
use complicatedauth_backend.Prelude.Int.{ℤ, pos, ltb_ℤ, pos_part}
use complicatedauth_backend.Table.{get}
use complicatedauth_backend.Db.{Result, ok, err, done}
use complicatedauth_backend.Duration.{second, duration_seconds}
use complicatedauth_backend.Idempotency.Validate.{Request, validate}
use complicatedauth_backend.Idempotency.Digest.{equal_digest}
use complicatedauth_backend.Idempotency.{
  processing, Codec, StoredHttpResponse, Row, row_keyed, Claim, Error, Readings, Faults, begin,
  complete, or_empty, copy_bytes,
}
use complicatedauth_backend.Idempotency.Calls.{Call, run}
use complicatedauth_backend.Idempotency.Invariant.{IsValid, IsDigest, CallIsTyped}
use complicatedauth_backend.Idempotency.Leases.{
  InOrder, ByOthers, lease_end, retention_end, begin-IsHeld,
}
use complicatedauth_backend.Idempotency.Replays.{
  no_faults, IsRoundTrip, IsBefore, others_wait, replay_exact,
}
use complicatedauth_backend.RateLimit
use complicatedauth_backend.RateLimit.{Bucket, bucket_keyed, upsert, verdict, check_take, take}
use complicatedauth_backend.RateLimit.Windows.{Opens, get-upsert, take_valid}
use complicatedauth_backend.Entry.{
  proceeds, replays, fails, retry_seconds, answer_claim, is_conflict, begin_idempotent_request,
  bucket_key, answer_limit, take_rate_limit,
}
use complicatedauth_backend.Entry.Delays.{retry_seconds_cover}

answer_proceeds :
    (answer : Result Error Claim) (c : Claim)
    → answer_claim answer ≡ proceeds c
    → (answer ≡ ok c) × (c.lease_uid ≢ 0)
unfolding answer_claim
answer_proceeds (err e) c h = ground arith
answer_proceeds (ok claim) c h = ground arith

-- A handler goes on only under a lease: if the clock does not go back within Begin, the record of its key is then processing, under the lease
-- that the handler gets, which lasts for the whole lease duration of the request.
pub handler_has_lease :
    (codec : Codec) (f : Faults) (at : Readings) (uid : ℕ) (r : Request) (t : List Row) (c : Claim)
    → InOrder at
    → (begin_idempotent_request codec f at uid r t).0 ≡ proceeds c
    → (row : Row) × (get r.key (begin_idempotent_request codec f at uid r t).1 ≡ some row)
      × (row.state ≡ processing)
      × (row.lease_uid ≡ c.lease_uid)
      × (lease_end at r ≤ row.lease_expires_at)
unfolding begin_idempotent_request
handler_has_lease codec f at uid r t c o h =
    let (granted, leased) = answer_proceeds (begin codec f at uid r t).0 c h in
    let (row, found, held, same, valid) = begin-IsHeld codec f at uid r t c o granted leased in
    (row, found, held.state, cc (held.lease, same), held.lease_lasts)

module _ (codec : Codec) (f : Faults) (at : Readings) (uid : ℕ) (r : Request) (t : List Row)
    (c : Claim) (cs : List Call) (v : IsValid t) (d : IsDigest r.request_hash) (o : InOrder at)
    (claimed : (begin codec f at uid r t).0 ≡ ok c) (leased : c.lease_uid ≢ 0)
    (typed : All CallIsTyped cs) (others : All (ByOthers uid (lease_end at r)) cs) where
  abbrev later : List Row
  later = run codec (begin codec f at uid r t).1 cs

  -- While a handler holds the lease of a key, no other handler runs for it: after a Begin that gave
  -- the lease on a valid table, its clock not going back, and whatever other requests have called
  -- before the lease's end, another valid request with the key, none of whose calls to the database
  -- fails, gets a 409 and changes nothing. If its digest is the same, its Retry-After reaches the end of
  -- the lease; if not, it is told that the key was reused.
  pub one_handler_at_a_time :
      (at' : Readings) (uid' : ℕ) (r' : Request)
      → validate r' ≡ none
      → r'.key ≡ r.key
      → at'.selected < lease_end at r
      → (seconds : ℕ) × (lease_end at r ≤ at'.selected + seconds * second)
        × (begin_idempotent_request codec no_faults at' uid' r' later ≡ (
          (if equal_digest r.request_hash r'.request_hash
              then fails 409 "idempotency_in_progress" (some seconds)
              else fails 409 "idempotency_key_reused" none),
          later,
        ))
  unfolding begin_idempotent_request answer_claim is_conflict
  one_handler_at_a_time at' uid' r' valid' same early =
      let (wait, enough, run) =
        others_wait codec f at uid r t c cs v d o claimed leased typed others at' uid' r' valid'
          same early in
      (retry_seconds wait, omega (arith, retry_seconds_cover wait), rw run (ground arith))

  -- A client that repeats a request after its handler has completed gets the stored status, headers
  -- and bytes until the record expires, and no handler runs: under the conditions of replay_exact,
  -- that is a valid table, a clock that does not go back within the first Begin, a codec that decodes
  -- what it encodes, a status from 100 to 599, and no failing call in the repeated request.
  pub repeated_request_is_replayed :
      IsRoundTrip codec
      → (now : ℕ) (response : StoredHttpResponse) (headers : String)
      → ltb_ℤ response.status (pos 100) ≡ false
      → ltb_ℤ (pos 599) response.status ≡ false
      → codec.marshal (or_empty response.headers) ≡ some headers
      → (ds : List Call) → All CallIsTyped ds
      → All (IsBefore (retention_end at r)) ds
      → (at' : Readings) (uid' : ℕ) (r' : Request) → validate r' ≡ none
      → r'.key ≡ r.key
      → r'.request_hash ≡ r.request_hash
      → at'.selected < retention_end at r
      → (begin_idempotent_request codec no_faults at' uid' r'
          (run codec (complete codec done now r uid response later).1 ds)).0
        ≡ replays (record {
          status = response.status;
          headers = some (or_empty response.headers);
          body = copy_bytes (or_empty response.body);
        })
  unfolding begin_idempotent_request answer_claim
  repeated_request_is_replayed trip now response headers low high m ds typed' before at' uid' r'
        valid' same hash early =
      rw (
        replay_exact codec f at uid r t c cs v d o claimed leased typed others trip now response
          headers low high m ds typed' before at' uid' r' valid' same hash early)

-- A denial carries the seconds until the bucket expires.
limit_denied :
    (at : RateLimit.Readings) (limit : ℕ) (b : Bucket) (code : String) (seconds : ℕ)
    → answer_limit (ok (verdict at limit b)) ≡ fails 429 code (some seconds)
    → b.expires_at ≤ at.returned + seconds * second
unfolding answer_limit verdict
limit_denied at limit b code seconds h =
    ground (arith, retry_seconds_cover (b.expires_at - at.returned))

-- A client that is denied may come back after Retry-After: a call of the guard all of whose tests of
-- the expiry come that many seconds after the time of the denial finds its window expired.
pub denied_may_return :
    (secret_hash : String → List ℕ) (at : RateLimit.Readings) (policy key : String)
    (limit window : ℤ) (t : List Bucket) (code : String) (seconds : ℕ)
    → (take_rate_limit secret_hash done at policy key limit window t).0
      ≡ fails 429 code (some seconds)
    → (at' : RateLimit.Readings) → at.returned + seconds * second ≤ at'.count_check
    → at.returned + seconds * second ≤ at'.start_check
    → at.returned + seconds * second ≤ at'.expiry_check
    → Opens at'
        (bucket_key secret_hash policy key)
        (take_rate_limit secret_hash done at policy key limit window t).1
unfolding take_rate_limit answer_limit
denied_may_return secret_hash at policy key limit window t code seconds h at' a b c =
    let k = bucket_key secret_hash policy key in
    let n = pos_part limit in
    let span = duration_seconds window * second in
    let left = (upsert at k n span t).1 in
    elim (Option-cases (check_take k limit window)) [
      | inr (e, bad) ↦ absurd (refused_not_denied e bad)
      | inl good ↦
          let run = take_valid k limit window good at t in
          let over : left.expires_at ≤ at.returned + seconds * second =
            limit_denied at n left code seconds (rw run at h) in
          inr (
            left,
            rw run (get-upsert at k n span t),
            omega (arith, over),
            omega (arith, over),
            omega (arith, over),
          )
    ]
  where
    refused_not_denied :
        (e : RateLimit.Error)
        → check_take (bucket_key secret_hash policy key) limit window ≡ some e
        → ⊥
    refused_not_denied e bad = unfold take take_rate_limit answer_limit in ground arith
