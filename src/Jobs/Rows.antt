-- ===== src/Jobs/Rows.antt =====
-- A row of background_jobs (migrations/000003_platform_foundations.up.sql and
-- 000010_background_job_workers.up.sql), which is also what BackgroundJobSummary shows of it.
use complicatedauth_backend.Prelude.{ℕ, String, Bool, true, false, Option, ◌==◌, ==_iff}
use complicatedauth_backend.Table.{Keyed}

pub data Status : Type 0 where
  pending running completed dead_lettered : Status

abbrev pub is_pending : Status → Bool
is_pending pending = true
is_pending _ = false

abbrev pub is_running : Status → Bool
is_running running = true
is_running _ = false

abbrev pub is_completed : Status → Bool
is_completed completed = true
is_completed _ = false

abbrev pub is_dead : Status → Bool
is_dead dead_lettered = true
is_dead _ = false

-- The column's text.
abbrev pub status_name : Status → String
status_name pending = "pending"
status_name running = "running"
status_name completed = "completed"
status_name dead_lettered = "dead_lettered"

pub record Row : Type 0 where
  pub uid : ℕ
  pub queue : String
  pub job_type : String
  pub deduplication_key : Option String
  pub payload : String
  pub status : Status
  pub attempts : ℕ
  pub max_attempts : ℕ
  pub available_at : ℕ
  pub lease_uid : Option ℕ
  pub lease_expires_at : Option ℕ
  pub last_error : Option String
  pub created_at : ℕ
  pub updated_at : ℕ
  pub completed_at : Option ℕ
  pub dead_lettered_at : Option ℕ

-- The readings of clock_timestamp() in a statement: the one for a time that it records, and the one for
-- updated_at.
pub record Clock : Type 0 where
  pub value : ℕ
  pub updated : ℕ

instance abbrev pub row_keyed : Keyed Row
row_keyed = record { Key = ℕ; key = λ r. r.uid; same = λ j k. j == k; same_iff = ==_iff }
