-- ===== src/Maintenance.antt =====
-- internal/api/maintenance.go: runMaintenanceCleanup, which deletes from sixteen tables in bounded
-- batches what their retention no longer covers. Times are nanoseconds, and `x <= now - span` on
-- timestamps is written `x + span <= now`. A statement touches its own table only, so that the
-- tables are a sequence, in the order of the statements. ensureMaintenanceJob is not modelled.
pub mod Rows
pub mod Batches
pub mod Records
pub mod Laws
mod Tests
use complicatedauth_backend.Prelude.{
  ℕ, suc, ◌+◌, ◌*◌, String, str_eq, Bool, true, false, ◌&&◌, ◌||◌, List, [], ◌∷◌, Option, none,
  some, leb, ◌==◌, if◌then◌else◌,
}
use complicatedauth_backend.Prelude.Int.{pos}
use complicatedauth_backend.Db.{Result, ok, err, Outcome, done, rejected, lost}
use complicatedauth_backend.Duration.{minute, hour}
use complicatedauth_backend.Cleanup.{is_some}
use complicatedauth_backend.Idempotency
use complicatedauth_backend.RateLimit.{Bucket, bucket_keyed}
use complicatedauth_backend.Jobs.Rows as JobRows
use complicatedauth_backend.Maintenance.Rows.{
  Expiring, expiring_keyed, OneTime, one_time_keyed, Session, session_keyed, Request, request_keyed,
  IssuedCode, issued_code_keyed, IssuedToken, issued_token_keyed, Invitation, invitation_keyed,
  Delivery, delivery_keyed,
}
use complicatedauth_backend.Maintenance.Batches.{
  MaintenanceCleanup, Store, run_cleanups, maintenance_cleanup_batch,
}

abbrev pub day : ℕ
day = 24 * hour

-- `t <= now - span`, which NULL does not satisfy
abbrev pub is_before : ℕ → Option ℕ → ℕ → Bool
is_before span none now = false
is_before span (some t) now = leb (t + span) now

abbrev or_zero : Option ℕ → ℕ
or_zero none = 0
or_zero (some t) = t

abbrev rate_limit_buckets : MaintenanceCleanup
rate_limit_buckets = record {
  name = "rate_limit_buckets";
  Row = Bucket;
  keyed = bucket_keyed;
  due = λ now r. leb r.expires_at now;
  order = λ r. r.expires_at;
}

abbrev project_user_login_attempts : MaintenanceCleanup
project_user_login_attempts = record {
  name = "project_user_login_attempts";
  Row = Expiring;
  keyed = expiring_keyed;
  due = λ now r. leb r.expires_at now;
  order = λ r. r.expires_at;
}

abbrev webauthn_ceremonies : MaintenanceCleanup
webauthn_ceremonies = record {
  name = "webauthn_ceremonies";
  Row = Expiring;
  keyed = expiring_keyed;
  due = λ now r. leb r.expires_at now;
  order = λ r. r.expires_at;
}

abbrev tenant_member_login_attempts : MaintenanceCleanup
tenant_member_login_attempts = record {
  name = "tenant_member_login_attempts";
  Row = Expiring;
  keyed = expiring_keyed;
  due = λ now r. leb r.expires_at now;
  order = λ r. r.expires_at;
}

abbrev tenant_member_webauthn_ceremonies : MaintenanceCleanup
tenant_member_webauthn_ceremonies = record {
  name = "tenant_member_webauthn_ceremonies";
  Row = Expiring;
  keyed = expiring_keyed;
  due = λ now r. leb r.expires_at now;
  order = λ r. r.expires_at;
}

abbrev tenant_member_email_verifications : MaintenanceCleanup
tenant_member_email_verifications = record {
  name = "tenant_member_email_verifications";
  Row = OneTime;
  keyed = one_time_keyed;
  due = λ now r.
      leb (r.expires_at + 7 * day) now
      || is_before (7 * day) r.consumed_at now
      || is_before (7 * day) r.revoked_at now;
  order = λ r. r.created_at;
}

abbrev tenant_member_password_resets : MaintenanceCleanup
tenant_member_password_resets = record {
  name = "tenant_member_password_resets";
  Row = OneTime;
  keyed = one_time_keyed;
  due = λ now r.
      leb (r.expires_at + 7 * day) now
      || is_before (7 * day) r.consumed_at now
      || is_before (7 * day) r.revoked_at now;
  order = λ r. r.created_at;
}

abbrev tenant_member_sessions : MaintenanceCleanup
tenant_member_sessions = record {
  name = "tenant_member_sessions";
  Row = Session;
  keyed = session_keyed;
  due = λ now r.
      leb (r.expires_at + 30 * day) now
      || leb (r.idle_expires_at + 30 * day) now
      || is_before (30 * day) r.revoked_at now;
  order = λ r. r.created_at;
}

abbrev project_user_sessions : MaintenanceCleanup
project_user_sessions = record {
  name = "project_user_sessions";
  Row = Session;
  keyed = session_keyed;
  due = λ now r.
      leb (r.expires_at + 30 * day) now
      || leb (r.idle_expires_at + 30 * day) now
      || is_before (30 * day) r.revoked_at now;
  order = λ r. r.created_at;
}

abbrev oauth_authorization_requests : MaintenanceCleanup
oauth_authorization_requests = record {
  name = "oauth_authorization_requests";
  Row = Request;
  keyed = request_keyed;
  due = λ now r. leb (r.expires_at + day) now || is_before day r.resolved_at now;
  order = λ r. r.created_at;
}

abbrev oauth_authorization_codes : MaintenanceCleanup
oauth_authorization_codes = record {
  name = "oauth_authorization_codes";
  Row = IssuedCode;
  keyed = issued_code_keyed;
  due = λ now r. leb (r.expires_at + day) now || is_before day r.consumed_at now;
  order = λ r. r.created_at;
}

abbrev oauth_access_tokens : MaintenanceCleanup
oauth_access_tokens = record {
  name = "oauth_access_tokens";
  Row = IssuedToken;
  keyed = issued_token_keyed;
  due = λ now r. leb (r.expires_at + day) now || is_before day r.revoked_at now;
  order = λ r. r.created_at;
}

abbrev tenant_invitations : MaintenanceCleanup
tenant_invitations = record {
  name = "tenant_invitations";
  Row = Invitation;
  keyed = invitation_keyed;
  due = λ now r.
      str_eq r.status "accepted" && is_before (90 * day) r.accepted_at now
      || str_eq r.status "revoked" && is_before (90 * day) r.revoked_at now
      || str_eq r.status "pending" && leb (r.expires_at + 90 * day) now;
  order = λ r. r.created_at;
}

abbrev email_deliveries : MaintenanceCleanup
email_deliveries = record {
  name = "email_deliveries";
  Row = Delivery;
  keyed = delivery_keyed;
  due = λ now r. str_eq r.status "delivered" && is_before (30 * day) r.delivered_at now;
  order = λ r. or_zero r.delivered_at;
}

abbrev background_jobs : MaintenanceCleanup
background_jobs = record {
  name = "background_jobs";
  Row = JobRows.Row;
  keyed = JobRows.row_keyed;
  due = λ now r. JobRows.is_completed r.status && is_before (7 * day) r.completed_at now;
  order = λ r. or_zero r.completed_at;
}

-- The statements of runMaintenanceCleanup, in their order.
abbrev pub cleanups : List MaintenanceCleanup
cleanups =
    rate_limit_buckets ∷ project_user_login_attempts ∷ webauthn_ceremonies
    ∷ tenant_member_login_attempts ∷ tenant_member_webauthn_ceremonies
    ∷ tenant_member_email_verifications ∷ tenant_member_password_resets ∷ tenant_member_sessions
    ∷ project_user_sessions ∷ oauth_authorization_requests ∷ oauth_authorization_codes
    ∷ oauth_access_tokens ∷ tenant_invitations ∷ email_deliveries ∷ background_jobs ∷ []

-- The readings of the clock, and which calls fail.
pub record Call : Type 0 where
  pub idempotency_exec : Outcome
  pub idempotency_clock : ℕ
  pub exec : ℕ → Outcome
  pub clock : ℕ → ℕ
  pub schedule_fails : Bool
  pub schedule_clock : ℕ

-- The tables: idempotency_records, and those of the statements.
abbrev pub Tables : Type 0
Tables = List Idempotency.Row × Store cleanups

-- nextDelay
unfoldable pub next_delay : Bool → ℕ
next_delay batch_was_full = if batch_was_full then minute else hour

-- The end of runMaintenanceCleanup.
unfoldable pub schedule_next : Call → Result String Bool → Result String ℕ
unfolding next_delay
schedule_next call (err e) = err e
schedule_next call (ok full) =
    if call.schedule_fails then err "schedule" else ok (call.schedule_clock + next_delay full)

-- runMaintenanceCleanup, after DeleteExpired.
unfoldable pub clean_tables :
    Call
    → Result Idempotency.Error ℕ
    → List Idempotency.Row
    → Store cleanups
    → Result String ℕ × Tables
unfolding run_cleanups schedule_next
clean_tables call (err e) records t = (err "idempotency_records", (records, t))
clean_tables call (ok count) records t =
    let (answer, t') =
      run_cleanups call.exec call.clock 0 cleanups (count == maintenance_cleanup_batch) t in
    (schedule_next call answer, (records, t'))

-- runMaintenanceCleanup: rescheduleAt, or what failed.
unfoldable pub run_maintenance_cleanup : Call → Tables → Result String ℕ × Tables
unfolding clean_tables
run_maintenance_cleanup call (records, t) =
    let (deleted, records') =
      Idempotency.delete_expired call.idempotency_exec call.idempotency_clock
        (pos maintenance_cleanup_batch) records in
    clean_tables call deleted records' t
