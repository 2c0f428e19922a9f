-- ===== src/Idempotency.antt =====
-- internal/store/idempotency.go: the types and the operations of IdempotencyStore over the table
-- idempotency_records (migrations/000003_platform_foundations.up.sql). Times are nanoseconds. What a
-- call reads from the clock, and which of its statements fail, are arguments; the JSON codec of the
-- headers is a parameter.
pub mod Validate
pub mod Digest
pub mod Calls
pub mod Invariant
pub mod Rows
pub mod Leases
pub mod Replays
pub mod Rollback
mod Tests
use complicatedauth_backend.Prelude.{
  ℕ, ◌+◌, ◌-◌, ◌*◌, String, str_eq, eq_iff, ◌≡◌, ◌↔◌, Bool, true, false, not, ◌&&◌, ◌||◌, List, [],
  ◌∷◌, Option, none, some, ltb, leb, ◌==◌, if◌then◌else◌, arith,
}
use complicatedauth_backend.Prelude.Int.{ℤ, pos, ltb_ℤ, pos_part}
use complicatedauth_backend.Table.{Keyed, get, insert, update, count}
use complicatedauth_backend.Db.{Result, ok, err, Outcome, transact, settle}
use complicatedauth_backend.Cleanup.{cleanup}
use complicatedauth_backend.Duration.{second, duration_seconds}
use complicatedauth_backend.Idempotency.Validate.{
  Key, Request, Invalid, validate, same_key, same_key_iff,
}
use complicatedauth_backend.Idempotency.Digest.{equal_digest}

pub data State : Type 0 where
  processing completed : State

abbrev pub Headers : Type 0
Headers = List (String × List String)

-- json.Marshal and json.Unmarshal on headers; `none` is an error.
pub record Codec : Type 0 where
  pub marshal : Headers → Option String
  pub unmarshal : String → Option Headers

-- Headers and body may be nil.
pub record StoredHttpResponse : Type 0 where
  pub status : ℤ
  pub headers : Option Headers
  pub body : Option (List ℕ)

-- A row of idempotency_records.
pub record Row : Type 0 where
  pub key : Key
  pub request_hash : List ℕ
  pub state : State
  pub lease_uid : ℕ
  pub lease_expires_at : ℕ
  pub response_status : Option ℤ
  pub response_headers : Option String
  pub response_body : Option (List ℕ)
  pub created_at : ℕ
  pub completed_at : Option ℕ
  pub expires_at : ℕ

instance abbrev pub row_keyed : Keyed Row
row_keyed = record { Key = Key; key = λ r. r.key; same = same_key; same_iff = same_key_iff }

-- A claim holds the lease's UID, uuid.Nil being 0; a wait, in nanoseconds; or a response.
pub record Claim : Type 0 where
  pub lease_uid : ℕ
  pub retry_after : ℕ
  pub replay : Option StoredHttpResponse

pub data Error : Type 0 where
  invalid : Invalid → Error
  begin_failed insert_failed read_failed reclaim_failed : Error
  commit_claim_failed commit_reclaim_failed commit_replay_failed commit_contention_failed : Error
  conflict no_stored_response decode_failed : Error
  lease_uid_required bad_status encode_failed complete_failed lease_lost : Error
  bad_limit cleanup_failed : Error

-- The readings of clock_timestamp() in one call of Begin, in the order in which they are made; the
-- first is the start of the transaction, from which created_at is taken.
pub record Readings : Type 0 where
  pub started : ℕ
  pub insert_lease : ℕ
  pub insert_expiry : ℕ
  pub selected : ℕ
  pub reclaim_lease : ℕ
  pub reclaim_created : ℕ
  pub reclaim_expiry : ℕ

-- Which calls of pgx fail.
pub record Faults : Type 0 where
  pub begin : Bool
  pub insert : Bool
  pub read : Bool
  pub reclaim : Bool
  pub commit : Outcome

abbrev pub lease_claim : ℕ → Claim
lease_claim uid = record { lease_uid = uid; retry_after = 0; replay = none }

-- $7 * interval '1 second' and $8 * interval '1 second'
abbrev pub lease_span : Request → ℕ
lease_span r = duration_seconds r.lease_duration * second

abbrev pub retention_span : Request → ℕ
retention_span r = duration_seconds r.retention * second

-- INSERT INTO idempotency_records
unfoldable pub new_row : Readings → ℕ → Request → Row
new_row at lease_uid request = record {
  key = request.key;
  request_hash = request.request_hash;
  state = processing;
  lease_uid = lease_uid;
  lease_expires_at = at.insert_lease + lease_span request;
  response_status = none;
  response_headers = none;
  response_body = none;
  created_at = at.started;
  completed_at = none;
  expires_at = at.insert_expiry + retention_span request;
}

-- UPDATE idempotency_records SET request_hash=$5, state='processing', ...
unfoldable pub reclaim_row : Readings → ℕ → Request → Row → Row
reclaim_row at lease_uid request row = record row {
  request_hash = request.request_hash;
  state = processing;
  lease_uid = lease_uid;
  lease_expires_at = at.reclaim_lease + lease_span request;
  response_status = none;
  response_headers = none;
  response_body = none;
  created_at = at.reclaim_created;
  completed_at = none;
  expires_at = at.reclaim_expiry + retention_span request;
}

-- append([]byte(nil), body...): a copy, which is nil if there is nothing to copy
unfoldable pub copy_bytes : List ℕ → Option (List ℕ)
copy_bytes [] = none
copy_bytes (b ∷ bs) = some (b ∷ bs)

-- The columns of a completed record, read back as a response.
unfoldable pub stored_response :
    Codec → Option ℤ → Option String → Option (List ℕ) → Result Error StoredHttpResponse
unfolding copy_bytes
stored_response codec (some status) (some headers) (some body) = elim (codec.unmarshal headers) [
  | none ↦ err decode_failed
  | some h ↦ ok (record { status = status; headers = some h; body = copy_bytes body })
]
stored_response codec _ _ _ = err no_stored_response

abbrev pub Body : Type 0
Body = Result Error (List Row × Claim × Error)

abbrev replayed : List Row → Result Error StoredHttpResponse → Body
replayed t (err e) = err e
replayed t (ok response) =
    ok (t, record { lease_uid = 0; retry_after = 0; replay = some response }, commit_replay_failed)

-- The end of Begin: replay a completed record, or report how long the lease still runs.
unfoldable pub replay_or_wait : Codec → Readings → Row → State → List Row → Body
replay_or_wait codec at row completed t =
    replayed t (stored_response codec row.response_status row.response_headers row.response_body)
replay_or_wait codec at row processing t = ok (
  t,
  record { lease_uid = 0; retry_after = row.lease_expires_at - at.selected; replay = none },
  commit_contention_failed,
)

abbrev pub is_processing : State → Bool
is_processing processing = true
is_processing completed = false

-- What Begin does with the row that it has read and locked.
unfoldable pub decide : Codec → Faults → Readings → ℕ → Request → Row → List Row → Body
decide codec faults at lease_uid request row t =
    let live = ltb at.selected row.expires_at in
    if live && not (equal_digest row.request_hash request.request_hash)
    then err conflict
    else if not live || (is_processing row.state && not (ltb at.selected row.lease_expires_at))
    then (if faults.reclaim
        then err reclaim_failed
        else ok (
          update (λ r. same_key r.key request.key) (reclaim_row at lease_uid request) t,
          lease_claim lease_uid,
          commit_reclaim_failed,
        ))
    else replay_or_wait codec at row row.state t

-- The statements of the transaction of Begin.
unfoldable pub begin_body : Codec → Faults → Readings → ℕ → Request → List Row → Body
begin_body codec faults at lease_uid request t =
    let (inserted, affected) = insert (new_row at lease_uid request) t in
    if faults.insert
    then err insert_failed
    else if affected == 1
    then ok (inserted, lease_claim lease_uid, commit_claim_failed)
    else if faults.read
    then err read_failed
    else elim (get request.key t) [
      | none ↦ err read_failed
      | some row ↦ decide codec faults at lease_uid request row t
    ]

-- Begin, with the UID that uuid.New() gives.
unfoldable pub begin :
    Codec → Faults → Readings → ℕ → Request → List Row → Result Error Claim × List Row
begin codec faults at lease_uid request t = elim (validate request) [
  | some e ↦ (err (invalid e), t)
  | none ↦
      transact faults.begin begin_failed faults.commit
        (begin_body codec faults at lease_uid request t) t
]

abbrev pub or_empty {ℓ} : {A : Type ℓ} → Option (List A) → List A
or_empty none = []
or_empty (some xs) = xs

-- The WHERE clause of completeIdempotency.
abbrev pub owned : Request → ℕ → Row → Bool
owned request lease_uid row =
    same_key row.key request.key && row.lease_uid == lease_uid && is_processing row.state

abbrev pub complete_row : ℕ → ℤ → String → List ℕ → Row → Row
complete_row now status headers body row = record row {
  state = completed;
  response_status = some status;
  response_headers = some headers;
  response_body = some body;
  completed_at = some now;
}

-- completeIdempotency. Its statement runs in the pool or in the caller's transaction.
unfoldable pub complete_idempotency :
    Outcome
    → ℕ
    → Request
    → ℕ
    → StoredHttpResponse
    → String
    → List Row
    → Result Error (Unit {0}) × List Row
complete_idempotency exec now request lease_uid response headers t =
    let t' =
      update (owned request lease_uid)
        (complete_row now response.status headers (or_empty response.body)) t in
    if count (owned request lease_uid) t == 1
    then settle exec complete_failed tt t' t
    else elim exec [ Outcome.done ↦ (err lease_lost, t) | _ ↦ (err complete_failed, t) ]

-- Complete and CompleteTx, which differ in what runs the statement. A nil body or nil headers are
-- stored as empty ones.
unfoldable pub complete :
    Codec
    → Outcome
    → ℕ
    → Request
    → ℕ
    → StoredHttpResponse
    → List Row
    → Result Error (Unit {0}) × List Row
complete codec exec now request lease_uid response t = elim (validate request) [
  | some e ↦ (err (invalid e), t)
  | none ↦
      if lease_uid == 0
      then (err lease_uid_required, t)
      else if ltb_ℤ response.status (pos 100) || ltb_ℤ (pos 599) response.status
      then (err bad_status, t)
      else elim (codec.marshal (or_empty response.headers)) [
        | none ↦ (err encode_failed, t)
        | some headers ↦ complete_idempotency exec now request lease_uid response headers t
      ]
]

-- DeleteExpired
unfoldable pub delete_expired : Outcome → ℕ → ℤ → List Row → Result Error ℕ × List Row
delete_expired exec now limit t =
    if ltb_ℤ limit (pos 1) || ltb_ℤ (pos 10000) limit
    then (err bad_limit, t)
    else let (t', deleted) =
        cleanup (λ r. leb r.expires_at now) (λ r. r.expires_at) (pos_part limit) t in
      settle exec cleanup_failed deleted t' t
