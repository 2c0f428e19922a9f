-- ===== src/Jobs/Scheduling.antt =====
-- The statements outside BackgroundJobStore that write background_jobs: the INSERT of
-- scheduleEmailDelivery (internal/api/email_delivery.go) and that of ensureMaintenanceJob
-- (internal/api/maintenance.go), the upsert with which updateSupportCase
-- (internal/api/support_cases.go) schedules the purge of a case that it closes, and the deletion of
-- completed jobs in runMaintenanceCleanup. A statement whose transaction is rolled back is one that is
-- rejected.
use Prim.Native.String.{◌++◌ as str_append}
use complicatedauth_backend.Prelude.{
  ℕ, String, str_eq, Bool, false, ◌&&◌, ◌||◌, List, Option, none, some, ltb, if◌then◌else◌,
}
use complicatedauth_backend.Table.{insert, update, delete, exists}
use complicatedauth_backend.Db.{Outcome, done, rejected, lost}
use complicatedauth_backend.Jobs.Rows.{Row, row_keyed, pending, is_completed}

-- The values of an INSERT, with the defaults that the columns have for the others: 8 for max_attempts,
-- now() for the times.
pub record NewJob : Type 0 where
  pub uid : ℕ
  pub queue : String
  pub job_type : String
  pub deduplication_key : String
  pub payload : String
  pub max_attempts : ℕ
  pub available_at : ℕ
  pub created_at : ℕ
  pub updated_at : ℕ

unfoldable pub new_row : NewJob → Row
new_row n = record {
  uid = n.uid;
  queue = n.queue;
  job_type = n.job_type;
  deduplication_key = some n.deduplication_key;
  payload = n.payload;
  status = pending;
  attempts = 0;
  max_attempts = n.max_attempts;
  available_at = n.available_at;
  lease_uid = none;
  lease_expires_at = none;
  last_error = none;
  created_at = n.created_at;
  updated_at = n.updated_at;
  completed_at = none;
  dead_lettered_at = none;
}

abbrev is_key : Option String → String → Bool
is_key none key = false
is_key (some k) key = str_eq k key

-- The columns of the constraint UNIQUE (queue, deduplication_key).
abbrev pub names : String → String → String → Option String → Bool
names queue key row_queue row_key = str_eq row_queue queue && is_key row_key key

abbrev pub has_key : String → String → Row → Bool
has_key queue key row = names queue key row.queue row.deduplication_key

-- The CHECK on max_attempts.
abbrev is_out_of_bounds : ℕ → Bool
is_out_of_bounds n = ltb n 1 || ltb 100 n

abbrev settled : Outcome → List Row → List Row → List Row
settled done new old = new
settled rejected new old = old
settled lost new old = new

-- An INSERT, plain or with ON CONFLICT(queue,deduplication_key) DO NOTHING: a job with a key or a UID
-- that is there adds no row.
unfoldable pub insert_job : Outcome → NewJob → List Row → List Row
insert_job exec n t =
    if is_out_of_bounds n.max_attempts || exists (has_key n.queue n.deduplication_key) t
    then t
    else settled exec (insert (new_row n) t).0 t

-- ensureMaintenanceJob
unfoldable pub maintenance_job : ℕ → ℕ → NewJob
maintenance_job uid now = record {
  uid = uid;
  queue = "maintenance";
  job_type = "maintenance.cleanup";
  deduplication_key = "global";
  payload = "{}";
  max_attempts = 12;
  available_at = now;
  created_at = now;
  updated_at = now;
}

unfoldable pub ensure_maintenance_job : Outcome → ℕ → ℕ → List Row → List Row
unfolding maintenance_job insert_job
ensure_maintenance_job exec uid now t = insert_job exec (maintenance_job uid now) t

-- What closing a support case writes.
pub record Purge : Type 0 where
  pub case_uid : String
  pub job_uid : ℕ
  pub payload : String
  pub retention_until : ℕ
  pub inserted_at : ℕ
  pub now : ℕ

unfoldable pub purge_key : Purge → String
purge_key p = str_append "support-case:" p.case_uid

unfoldable pub purge_job : Purge → NewJob
unfolding purge_key
purge_job p = record {
  uid = p.job_uid;
  queue = "retention";
  job_type = "support_case.purge";
  deduplication_key = purge_key p;
  payload = p.payload;
  max_attempts = 8;
  available_at = p.retention_until;
  created_at = p.inserted_at;
  updated_at = p.inserted_at;
}

-- DO UPDATE SET status='pending', attempts=0, ...
unfoldable pub reset_row : Purge → Row → Row
reset_row p row = record row {
  status = pending;
  attempts = 0;
  available_at = p.retention_until;
  lease_uid = none;
  lease_expires_at = none;
  last_error = none;
  completed_at = none;
  dead_lettered_at = none;
  updated_at = p.now;
}

-- INSERT INTO background_jobs ... ON CONFLICT(queue,deduplication_key) DO UPDATE
unfoldable pub schedule_purge : Outcome → Purge → List Row → List Row
unfolding purge_key purge_job insert_job
schedule_purge exec p t =
    if exists (has_key "retention" (purge_key p)) t
    then settled exec (update (has_key "retention" (purge_key p)) (reset_row p) t) t
    else insert_job exec (purge_job p) t

-- DELETE FROM background_jobs, of completed jobs that the WITH clause has selected
unfoldable pub forget_completed : Outcome → (Row → Bool) → List Row → List Row
forget_completed exec selected t =
    settled exec (delete (λ row. is_completed row.status && selected row) t) t
