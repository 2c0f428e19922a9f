-- ===== src/Entry/Tests.antt =====
-- Two requests that create the same user, and a client that logs in too often.
use complicatedauth_backend.Prelude.{
  ℕ, zero, suc, ◌+◌, ◌*◌, ◌≤◌, ◌<◌, ◌≡◌, ◌≢◌, refl, List, [], ◌∷◌, Option, none, some, String,
  arith, All, if◌then◌else◌,
}
use complicatedauth_backend.Prelude.Int.{pos}
use complicatedauth_backend.Prelude.Text.{matches, trim_space, any_code}
use complicatedauth_backend.Prelude.Bytes.{bytes_eq}
use complicatedauth_backend.Table.{get, insert}
use complicatedauth_backend.Db.{done, ok, settle, transact}
use complicatedauth_backend.Duration.{second, minute, hour, duration_seconds}
use complicatedauth_backend.Idempotency.Validate.{Request, validate}
use complicatedauth_backend.Idempotency.Digest.{equal_digest}
use complicatedauth_backend.Idempotency.{
  Codec, Headers, StoredHttpResponse, Row, row_keyed, Readings, begin, begin_body, complete,
  lease_claim, lease_span, copy_bytes,
}
use complicatedauth_backend.Idempotency.Calls.{run}
use complicatedauth_backend.Idempotency.Invariant.{IsValid, IsDigest}
use complicatedauth_backend.Idempotency.Leases.{InOrder, lease_end}
use complicatedauth_backend.Idempotency.Replays.{no_faults}
use complicatedauth_backend.RateLimit
use complicatedauth_backend.RateLimit.{
  Bucket, bucket_keyed, take, upsert, bump, verdict, check_take, same_key,
}
use complicatedauth_backend.RateLimit.Windows.{Opens}
use complicatedauth_backend.Entry.{
  proceeds, replays, fails, answer_claim, begin_idempotent_request, bucket_key, take_rate_limit,
}
use complicatedauth_backend.Entry.Answers.{
  one_handler_at_a_time, repeated_request_is_replayed, denied_may_return,
}

abbrev zeros : ℕ → List ℕ
zeros zero = []
zeros (suc n) = 0 ∷ zeros n

bytes_below : (n : ℕ) → All (λ b. b < 256) (zeros n)
bytes_below zero = tt
bytes_below (suc n) = (omega arith, bytes_below n)

abbrev request : Request
request = record {
  key = record {
    principal_type = "service";
    principal_uid = "17";
    operation = "users.create";
    idempotency_key = "k1";
  };
  request_hash = zeros 32;
  lease_duration = pos (30 * second);
  retention = pos (24 * hour);
}

digest : IsDigest (zeros 32)
digest = (bytes_below 32, refl)

abbrev instant : ℕ → Readings
instant t = record {
  started = t;
  insert_lease = t;
  insert_expiry = t;
  selected = t;
  reclaim_lease = t;
  reclaim_created = t;
  reclaim_expiry = t;
}

instant-InOrder : (t : ℕ) → InOrder (instant t)
instant-InOrder t = record {
  lease_first = omega arith;
  then_select = omega arith;
  then_reclaim = omega arith;
  lease_again = omega arith;
}

abbrev encode : Headers → Option String
encode [] = some "{}"
encode (h ∷ hs) = none

-- A codec for empty headers only.
abbrev codec : Codec
codec = record { marshal = encode; unmarshal = λ j. some [] }

trip : (h : Headers) (j : String) → encode h ≡ some j → codec.unmarshal j ≡ some h
trip [] j e = refl
trip (h ∷ hs) j e = cc

abbrev response : StoredHttpResponse
response = record { status = pos 201; headers = none; body = none }

request_valid : validate request ≡ none
unfolding validate matches trim_space any_code
request_valid = refl

lease_length : lease_span request ≡ 30 * second
unfolding duration_seconds
lease_length = refl

retention_length : duration_seconds request.retention * second ≡ 24 * hour
unfolding duration_seconds
retention_length = refl

empty-IsValid : IsValid []
empty-IsValid = record { unique = tt; rows = tt }

claimed : (begin codec no_faults (instant 1) 7 request []).0 ≡ ok (lease_claim 7)
unfolding begin validate matches trim_space any_code transact begin_body insert
claimed = refl

leased : (lease_claim 7).lease_uid ≢ 0
leased = ground arith

goes_on :
    (begin_idempotent_request codec no_faults (instant 1) 7 request []).0 ≡ proceeds (lease_claim 7)
unfolding begin_idempotent_request answer_claim
goes_on = rw claimed refl

abbrev held : List Row
held = run codec (begin codec no_faults (instant 1) 7 request []).1 []

one_handler_at_a_time_example :
    (seconds : ℕ) × (lease_end (instant 1) request ≤ 4 + seconds * second)
    × (begin_idempotent_request codec no_faults (instant 4) 9 request held ≡ (
      (if equal_digest (zeros 32) (zeros 32)
          then fails 409 "idempotency_in_progress" (some seconds)
          else fails 409 "idempotency_key_reused" none),
      held,
    ))
one_handler_at_a_time_example =
    one_handler_at_a_time codec no_faults (instant 1) 7 request [] (lease_claim 7) [] empty-IsValid
      digest (instant-InOrder 1) claimed leased tt tt (instant 4) 9 request request_valid refl
      (omega (arith, lease_length))

repeated_request_is_replayed_example :
    (begin_idempotent_request codec no_faults
      (instant 8)
      9
      request
      (run codec (complete codec done 5 request 7 response held).1 [])).0
    ≡ replays (record { status = pos 201; headers = some []; body = none })
unfolding copy_bytes
repeated_request_is_replayed_example =
    repeated_request_is_replayed codec no_faults (instant 1) 7 request [] (lease_claim 7) []
      empty-IsValid digest (instant-InOrder 1) claimed leased tt tt trip 5 response "{}" refl refl
      refl [] tt tt (instant 8) 9 request request_valid refl refl (omega (arith, retention_length))

abbrev secret_hash : String → List ℕ
secret_hash s = zeros 32

abbrev clock : ℕ → RateLimit.Readings
clock t = record {
  insert_start = t;
  insert_expiry = t;
  count_check = t;
  start_check = t;
  start_value = t;
  expiry_check = t;
  expiry_value = t;
  returned = t;
}

abbrev table : List Bucket
table =
    record {
      key = bucket_key secret_hash "login" "ada";
      request_count = 2;
      window_started_at = 0;
      expires_at = minute;
    }
    ∷ []

denied :
    (take_rate_limit secret_hash done (clock 1) "login" "ada" (pos 2) (pos minute) table).0
    ≡ fails 429 "rate_limited" (some 60)
unfolding take_rate_limit take check_take matches settle verdict upsert get same_key bytes_eq bump
denied = refl

denied_may_return_example :
    Opens
      (clock (1 + 60 * second))
      (bucket_key secret_hash "login" "ada")
      (take_rate_limit secret_hash done (clock 1) "login" "ada" (pos 2) (pos minute) table).1
denied_may_return_example =
    denied_may_return secret_hash (clock 1) "login" "ada" (pos 2) (pos minute) table "rate_limited"
      60 denied (clock (1 + 60 * second)) (omega arith) (omega arith) (omega arith)
