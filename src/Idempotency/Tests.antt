-- ===== src/Idempotency/Tests.antt =====
-- A service that creates a user under the key k1, and what the store's promises give for it.
use complicatedauth_backend.Prelude.{
  ℕ, zero, suc, ◌*◌, ◌<◌, ◌≤◌, ◌-◌, ◌≡◌, ◌≢◌, refl, List, [], ◌∷◌, Option, none, some, String,
  arith, All, min, leb, if◌then◌else◌,
}
use complicatedauth_backend.Prelude.Int.{pos}
use complicatedauth_backend.Prelude.Text.{matches, trim_space, any_code}
use complicatedauth_backend.Table.{get, Unique, count, insert}
use complicatedauth_backend.Db.{transact, settle, done, ok, err}
use complicatedauth_backend.Duration.{second, hour, duration_seconds}
use complicatedauth_backend.Idempotency.Validate.{Key, Request, validate, same_key, same_key_iff}
use complicatedauth_backend.Idempotency.Digest.{equal_digest}
use complicatedauth_backend.Idempotency.{
  Codec, Headers, StoredHttpResponse, Row, row_keyed, Readings, begin, copy_bytes, complete,
  complete_idempotency, begin_body, decide, lease_span, delete_expired, lease_claim, new_row,
  conflict,
}
use complicatedauth_backend.Idempotency.Calls.{Call, begins, deletes, run, step}
use complicatedauth_backend.Idempotency.Invariant.{CallIsTyped, IsValid, IsDigest, step-IsValid}
use complicatedauth_backend.Idempotency.Leases.{ByOthers, InOrder, lease_end}
use complicatedauth_backend.Idempotency.Replays.{
  no_faults, leaseholder_completes, others_wait, replay_exact,
}
use complicatedauth_backend.Idempotency.Rollback.{superseded_cannot_complete, delete_expired_lem}

abbrev digest_of : ℕ → ℕ → List ℕ
digest_of b zero = []
digest_of b (suc n) = b ∷ digest_of b n

abbrev hash : List ℕ
hash = digest_of 7 32

bytes_below : (n : ℕ) → All (λ b. b < 256) (digest_of 7 n)
bytes_below zero = tt
bytes_below (suc n) = (omega arith, bytes_below n)

hash-IsDigest : IsDigest hash
hash-IsDigest = (bytes_below 32, refl)

abbrev key : Key
key = record {
  principal_type = "service";
  principal_uid = "17";
  operation = "users.create";
  idempotency_key = "k1";
}

abbrev other_key : Key
other_key = record key { idempotency_key = "k2" }

abbrev request : Request
request = record {
  key = key;
  request_hash = hash;
  lease_duration = pos (30 * second);
  retention = pos (24 * hour);
}

abbrev instant : ℕ → Readings
instant t = record {
  started = t;
  insert_lease = t;
  insert_expiry = t;
  selected = t;
  reclaim_lease = t;
  reclaim_created = t;
  reclaim_expiry = t;
}

instant-InOrder : (t : ℕ) → InOrder (instant t)
instant-InOrder t = record {
  lease_first = omega arith;
  then_select = omega arith;
  then_reclaim = omega arith;
  lease_again = omega arith;
}

abbrev encode : Headers → Option String
encode [] = some "{}"
encode (h ∷ hs) = none

-- A codec for empty headers only.
abbrev codec : Codec
codec = record { marshal = encode; unmarshal = λ j. some [] }

trip : (h : Headers) (j : String) → encode h ≡ some j → codec.unmarshal j ≡ some h
trip [] j e = refl
trip (h ∷ hs) j e = cc

abbrev response : StoredHttpResponse
response = record { status = pos 201; headers = none; body = some (1 ∷ 2 ∷ []) }

request_valid : validate request ≡ none
unfolding validate matches trim_space any_code
request_valid = refl

lease_length : lease_span request ≡ 30 * second
unfolding duration_seconds
lease_length = refl

retention_length : duration_seconds request.retention * second ≡ 24 * hour
unfolding duration_seconds
retention_length = refl

empty-IsValid : IsValid []
empty-IsValid = record { unique = tt; rows = tt }

-- The table after the request has claimed its key under the lease 7.
abbrev held : List Row
held = new_row (instant 1) 7 request ∷ []

claims_key : begin codec no_faults (instant 1) 7 request [] ≡ (ok (lease_claim 7), held)
unfolding begin validate matches trim_space any_code transact begin_body insert
claims_key = refl

claimed : (begin codec no_faults (instant 1) 7 request []).0 ≡ ok (lease_claim 7)
claimed = rw claims_key

leased : (lease_claim 7).lease_uid ≢ 0
leased = ground arith

held-Unique : Unique held
unfolding get
held-Unique = (refl, tt)

abbrev retried : List Call
retried = begins no_faults (instant 3) 8 request ∷ []

retried_typed : All CallIsTyped retried
retried_typed = (hash-IsDigest, tt)

retried_early : All (ByOthers 7 (lease_end (instant 1) request)) retried
retried_early = (omega (arith, lease_length), tt)

leaseholder_completes_example :
    (complete codec done 5 request 7 response
      (run codec (begin codec no_faults (instant 1) 7 request []).1 retried)).0
    ≡ ok tt
leaseholder_completes_example =
    leaseholder_completes codec no_faults (instant 1) 7 request [] (lease_claim 7) retried
      empty-IsValid hash-IsDigest (instant-InOrder 1) claimed leased retried_typed retried_early 5
      response "{}" refl refl refl

others_wait_example :
    let t = run codec (begin codec no_faults (instant 1) 7 request []).1 retried in
    (wait : ℕ) × (lease_end (instant 1) request - 4 ≤ wait)
    × (begin codec no_faults (instant 4) 9 request t ≡ (
      (if equal_digest hash hash
          then ok (record { lease_uid = 0; retry_after = wait; replay = none })
          else err conflict),
      t,
    ))
others_wait_example =
    others_wait codec no_faults (instant 1) 7 request [] (lease_claim 7) retried empty-IsValid
      hash-IsDigest (instant-InOrder 1) claimed leased retried_typed retried_early (instant 4) 9
      request request_valid refl (omega (arith, lease_length))

abbrev swept : List Call
swept = deletes done 6 (pos 10) ∷ []

replay_exact_example :
    let t =
      run codec
        (complete codec done 5 request 7 response
          (run codec (begin codec no_faults (instant 1) 7 request []).1 retried)).1
        swept in
    begin codec no_faults (instant 8) 9 request t ≡ (
      ok (record {
        lease_uid = 0;
        retry_after = 0;
        replay = some (record { status = pos 201; headers = some []; body = some (1 ∷ 2 ∷ []) });
      }),
      t,
    )
unfolding copy_bytes
replay_exact_example =
    replay_exact codec no_faults (instant 1) 7 request [] (lease_claim 7) retried empty-IsValid
      hash-IsDigest (instant-InOrder 1) claimed leased retried_typed retried_early trip 5 response
      "{}" refl refl refl swept (tt, tt) (omega (arith, retention_length), tt) (instant 8) 9 request
      request_valid refl refl (omega (arith, retention_length))

superseded_cannot_complete_example :
    let t = (begin codec no_faults (instant 1) 7 request []).1 in
    ((complete codec done 5 request 6 response t).0 ≢ ok tt)
    × ((complete codec done 5 request 6 response t).1 ≡ t)
superseded_cannot_complete_example =
    superseded_cannot_complete codec no_faults (instant 1) 7 request [] (lease_claim 7)
      empty-IsValid hash-IsDigest (instant-InOrder 1) claimed leased done 5 request 6 response refl
      (ground arith)

abbrev changed_request : Request
changed_request = record request { request_hash = digest_of 9 32 }

conflicts : (begin codec no_faults (instant 2) 8 changed_request held).0 ≡ err conflict
unfolding begin validate matches trim_space any_code transact begin_body insert same_key new_row
    decide duration_seconds equal_digest
conflicts = refl

different : other_key ≢ key
unfolding same_key
different = ground (arith, same_key_iff other_key key)

completes_held : (complete codec done 5 request 7 response held).0 ≡ ok tt
unfolding complete validate matches trim_space any_code complete_idempotency count same_key new_row
    settle
completes_held = refl

delete_expired_lem_example :
    ((delete_expired done (25 * hour) (pos 10) held).0
      ≡ ok (min 10 (count (λ r. leb r.expires_at (25 * hour)) held)))
    × ((k : Key) (row : Row)
        → get k held ≡ some row
        → 25 * hour < row.expires_at
        → get k (delete_expired done (25 * hour) (pos 10) held).1 ≡ some row)
    × (count (λ r. leb r.expires_at (25 * hour)) held < 10
        → (k : Key) (row : Row) → get k (delete_expired done (25 * hour) (pos 10) held).1 ≡ some row
        → 25 * hour < row.expires_at)
delete_expired_lem_example =
    delete_expired_lem (25 * hour) 10 held held-Unique (omega arith) (omega arith)

step-IsValid_example : IsValid (step codec [] (begins no_faults (instant 1) 7 request))
step-IsValid_example =
    step-IsValid codec [] (begins no_faults (instant 1) 7 request) hash-IsDigest empty-IsValid
