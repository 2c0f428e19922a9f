-- ===== src/Jobs.antt =====
-- internal/store/background_jobs.go: the queue BackgroundJobStore over the tables background_jobs and
-- platform_operator_actions (migrations 000003, 000010 and 000012). Times are nanoseconds and UUIDs
-- numbers, uuid.Nil being 0. Calls are serialized as the row locks of PostgreSQL serialize them; the
-- rows that another transaction holds, which SKIP LOCKED passes over, are an argument of Claim.
pub mod Rows
pub mod Message
pub mod Operator
pub mod Scheduling
pub mod Invariant
pub mod Selection
pub mod Inserted
pub mod Calls
pub mod Leases
pub mod Verdicts
pub mod Replays
mod Tests
use Prim.Native.String.{len}
use complicatedauth_backend.Prelude.{
  ℕ, suc, ◌+◌, ◌-◌, ◌*◌, String, str_eq, ◌≡◌, Bool, true, false, not, ◌&&◌, ◌||◌, List, [], ◌∷◌,
  ◌++◌, Option, none, some, ltb, leb, ◌==◌, if◌then◌else◌, arith, take, map,
}
use complicatedauth_backend.Prelude.Int.{ℤ, pos, ltb_ℤ, leb_ℤ, pos_part}
use complicatedauth_backend.Prelude.Text.{matches, is_lower, is_word, trim_space}
use complicatedauth_backend.Table.{get, update, count, select}
use complicatedauth_backend.Db.{Result, ok, err, Outcome, done, transact, settle}
use complicatedauth_backend.Cleanup.{is_some}
use complicatedauth_backend.Duration.{second, duration_seconds}
use complicatedauth_backend.Jobs.Rows.{
  Status, pending, running, completed, dead_lettered, is_running, is_pending, is_dead, status_name,
  Row, Clock, row_keyed,
}
use complicatedauth_backend.Jobs.Message.{stored_message}

pub data Error : Type 0 where
  no_database bad_limit bad_status list_failed scan_failed : Error
  uid_required bad_actor bad_reason replay_begin_failed replay_lock_failed not_found : Error
  not_dead_lettered record_failed replay_failed replay_commit_failed : Error
  bad_queue bad_lease claim_begin_failed dead_letter_failed claim_failed : Error
  commit_empty_failed commit_claim_failed : Error
  complete_failed retry_failed reschedule_failed lease_lost : Error

-- BackgroundJob: a claimed job as its worker holds it.
pub record Job : Type 0 where
  pub uid : ℕ
  pub queue : String
  pub job_type : String
  pub deduplication_key : Option String
  pub payload : String
  pub attempt : ℕ
  pub max_attempts : ℕ
  pub lease_uid : ℕ
  pub lease_expires_at : ℕ
  pub created_at : ℕ

-- `lease_expires_at <= now`, which NULL does not satisfy
abbrev pub is_past : Option ℕ → ℕ → Bool
is_past none now = false
is_past (some t) now = leb t now

-- The readings of clock_timestamp() in Claim.
pub record Readings : Type 0 where
  pub exhausted_check : ℕ
  pub exhausted_at : ℕ
  pub exhausted_updated : ℕ
  pub available_check : ℕ
  pub lease_check : ℕ
  pub lease_value : ℕ
  pub claim_updated : ℕ

-- Which calls of pgx fail in Claim and in Replay.
pub record Faults : Type 0 where
  pub begin : Bool
  pub first : Bool
  pub second : Bool
  pub third : Bool
  pub commit : Outcome

abbrev or_message : Option String → String
or_message none = "worker lease expired after the maximum number of attempts"
or_message (some m) = m

-- The rows that the first UPDATE of Claim dead-letters, and what it makes of them.
unfoldable pub is_exhausted : Readings → String → Row → Bool
is_exhausted at queue row =
    str_eq row.queue queue
    && is_running row.status
    && is_past row.lease_expires_at at.exhausted_check
    && leb row.max_attempts row.attempts

unfoldable pub bury : Readings → Row → Row
bury at row = record row {
  status = dead_lettered;
  lease_uid = none;
  lease_expires_at = none;
  dead_lettered_at = some at.exhausted_at;
  updated_at = at.exhausted_updated;
  last_error = some (or_message row.last_error);
}

-- The rows that the candidate query of Claim selects.
unfoldable pub is_eligible : Readings → (ℕ → Bool) → String → Row → Bool
is_eligible at locked queue row =
    str_eq row.queue queue
    && leb row.available_at at.available_check
    && ltb row.attempts row.max_attempts
    && (is_pending row.status
        || (is_running row.status && is_past row.lease_expires_at at.lease_check))
    && not (locked row.uid)

-- ORDER BY available_at ASC, created_at ASC, uid ASC: whether `x` comes no later than `y`
unfoldable pub precedes : Row → Row → Bool
precedes x y =
    ltb x.available_at y.available_at
    || (x.available_at == y.available_at
        && (ltb x.created_at y.created_at || (x.created_at == y.created_at && leb x.uid y.uid)))

-- ... LIMIT 1
unfoldable pub first_of_queue : List Row → Option Row
first_of_queue [] = none
first_of_queue (x ∷ xs) = elim (first_of_queue xs) [
  | none ↦ some x
  | some y ↦ some (if precedes x y then x else y)
]

-- UPDATE background_jobs AS job SET status='running', ...
unfoldable pub lease_row : Readings → ℕ → ℕ → Row → Row
lease_row at lease_uid span row = record row {
  status = running;
  attempts = row.attempts + 1;
  lease_uid = some lease_uid;
  lease_expires_at = some (at.lease_value + span);
  updated_at = at.claim_updated;
}

-- RETURNING, with the lease that the statement has set
unfoldable pub returned_job : Readings → ℕ → ℕ → Row → Job
returned_job at lease_uid span row = record {
  uid = row.uid;
  queue = row.queue;
  job_type = row.job_type;
  deduplication_key = row.deduplication_key;
  payload = row.payload;
  attempt = row.attempts + 1;
  max_attempts = row.max_attempts;
  lease_uid = lease_uid;
  lease_expires_at = at.lease_value + span;
  created_at = row.created_at;
}

-- The statements of the transaction of Claim. A nil job is `none`.
unfoldable pub claim_body :
    Faults
    → Readings
    → (ℕ → Bool)
    → String
    → ℕ
    → ℕ
    → List Row
    → Result Error (List Row × Option Job × Error)
claim_body faults at locked queue lease_uid span t =
    let t' = update (is_exhausted at queue) (bury at) t in
    if faults.first
    then err dead_letter_failed
    else if faults.second
    then err claim_failed
    else elim (first_of_queue (select (is_eligible at locked queue) t')) [
      | none ↦ ok (t', none, commit_empty_failed)
      | some row ↦ ok (
        update (λ x. x.uid == row.uid) (lease_row at lease_uid span) t',
        some (returned_job at lease_uid span row),
        commit_claim_failed,
      )
    ]

-- Claim, with the UID that uuid.New() gives. `is_nil` says that the store has no database.
unfoldable pub claim :
    Bool
    → Faults
    → Readings
    → (ℕ → Bool)
    → String
    → ℤ
    → ℕ
    → List Row
    → Result Error (Option Job) × List Row
claim is_nil faults at locked queue lease_duration lease_uid t =
    if is_nil
    then (err no_database, t)
    else if not (matches is_lower is_word 62 queue)
    then (err bad_queue, t)
    else if leb_ℤ lease_duration (pos 0)
    then (err bad_lease, t)
    else transact faults.begin claim_begin_failed faults.commit
        (claim_body faults at locked queue lease_uid (duration_seconds lease_duration * second) t) t

abbrev same_lease : Option ℕ → ℕ → Bool
same_lease none uid = false
same_lease (some l) uid = l == uid

-- WHERE uid=$1 AND status='running' AND lease_uid=$2
abbrev pub owned : Job → Row → Bool
owned job row =
    row.uid == job.uid && is_running row.status && same_lease row.lease_uid job.lease_uid

-- A statement that must affect exactly the row that the job's lease owns.
unfoldable pub exec_owned :
    {A : Type 0} → Outcome → Error → Job → (Row → Row) → A → List Row → Result Error A × List Row
exec_owned exec e job f a t =
    if count (owned job) t == 1
    then settle exec e a (update (owned job) f t) t
    else elim exec [ done ↦ (err lease_lost, t) | _ ↦ (err e, t) ]

unfoldable pub complete_row : Clock → Row → Row
complete_row now row = record row {
  status = completed;
  lease_uid = none;
  lease_expires_at = none;
  completed_at = some now.value;
  updated_at = now.updated;
  last_error = none;
}

-- Complete
unfoldable pub complete : Outcome → Clock → Job → List Row → Result Error (Unit {0}) × List Row
complete exec now job t = exec_owned exec complete_failed job (complete_row now) tt t

unfoldable pub retry_row : Clock → ℕ → String → Row → Row
retry_row now available_at message row =
    let exhausted = leb row.max_attempts row.attempts in
    record row {
      status = if exhausted then dead_lettered else pending;
      available_at = if exhausted then row.available_at else available_at;
      lease_uid = none;
      lease_expires_at = none;
      completed_at = none;
      dead_lettered_at = if exhausted then some now.value else none;
      last_error = some message;
      updated_at = now.updated;
    }

-- Retry. Its answer says whether the job is dead-lettered. PostgreSQL refuses a message that is no
-- text.
unfoldable pub retry :
    Outcome → Clock → Job → ℕ → Option String → List Row → Result Error Bool × List Row
retry exec now job available_at cause t = elim (stored_message cause) [
  | none ↦ (err retry_failed, t)
  | some message ↦
      exec_owned exec retry_failed job (retry_row now available_at message)
        (leb job.max_attempts job.attempt) t
]

unfoldable pub reschedule_row : Clock → ℕ → Row → Row
reschedule_row now available_at row = record row {
  status = pending;
  attempts = row.attempts - 1;
  available_at = available_at;
  lease_uid = none;
  lease_expires_at = none;
  completed_at = none;
  dead_lettered_at = none;
  last_error = none;
  updated_at = now.updated;
}

-- Reschedule. GREATEST(attempts-1, 0) is the truncated subtraction.
unfoldable pub reschedule :
    Outcome → Clock → Job → ℕ → List Row → Result Error (Unit {0}) × List Row
reschedule exec now job available_at t =
    exec_owned exec reschedule_failed job (reschedule_row now available_at) tt t
