-- ===== src/Maintenance/Rows.antt =====
-- The rows that runMaintenanceCleanup of internal/api/maintenance.go deletes from, with the columns
-- that its statements read. Each table has the primary key uid.
use complicatedauth_backend.Prelude.{ℕ, ◌==◌, ==_iff, String, Option}
use complicatedauth_backend.Table.{Keyed}

-- project_user_login_attempts, webauthn_ceremonies, tenant_member_login_attempts and
-- tenant_member_webauthn_ceremonies
pub record Expiring : Type 0 where
  pub uid : ℕ
  pub expires_at : ℕ

instance abbrev pub expiring_keyed : Keyed Expiring
expiring_keyed = record { Key = ℕ; key = λ r. r.uid; same = λ j k. j == k; same_iff = ==_iff }

-- tenant_member_email_verifications and tenant_member_password_resets
pub record OneTime : Type 0 where
  pub uid : ℕ
  pub created_at : ℕ
  pub expires_at : ℕ
  pub consumed_at : Option ℕ
  pub revoked_at : Option ℕ

instance abbrev pub one_time_keyed : Keyed OneTime
one_time_keyed = record { Key = ℕ; key = λ r. r.uid; same = λ j k. j == k; same_iff = ==_iff }

-- tenant_member_sessions and project_user_sessions
pub record Session : Type 0 where
  pub uid : ℕ
  pub created_at : ℕ
  pub expires_at : ℕ
  pub idle_expires_at : ℕ
  pub revoked_at : Option ℕ

instance abbrev pub session_keyed : Keyed Session
session_keyed = record { Key = ℕ; key = λ r. r.uid; same = λ j k. j == k; same_iff = ==_iff }

-- oauth_authorization_requests
pub record Request : Type 0 where
  pub uid : ℕ
  pub created_at : ℕ
  pub expires_at : ℕ
  pub resolved_at : Option ℕ

instance abbrev pub request_keyed : Keyed Request
request_keyed = record { Key = ℕ; key = λ r. r.uid; same = λ j k. j == k; same_iff = ==_iff }

-- oauth_authorization_codes
pub record IssuedCode : Type 0 where
  pub uid : ℕ
  pub created_at : ℕ
  pub expires_at : ℕ
  pub consumed_at : Option ℕ

instance abbrev pub issued_code_keyed : Keyed IssuedCode
issued_code_keyed = record { Key = ℕ; key = λ r. r.uid; same = λ j k. j == k; same_iff = ==_iff }

-- oauth_access_tokens
pub record IssuedToken : Type 0 where
  pub uid : ℕ
  pub created_at : ℕ
  pub expires_at : ℕ
  pub revoked_at : Option ℕ

instance abbrev pub issued_token_keyed : Keyed IssuedToken
issued_token_keyed = record { Key = ℕ; key = λ r. r.uid; same = λ j k. j == k; same_iff = ==_iff }

-- tenant_invitations
pub record Invitation : Type 0 where
  pub uid : ℕ
  pub status : String
  pub created_at : ℕ
  pub expires_at : ℕ
  pub accepted_at : Option ℕ
  pub revoked_at : Option ℕ

instance abbrev pub invitation_keyed : Keyed Invitation
invitation_keyed = record { Key = ℕ; key = λ r. r.uid; same = λ j k. j == k; same_iff = ==_iff }

-- email_deliveries
pub record Delivery : Type 0 where
  pub uid : ℕ
  pub status : String
  pub delivered_at : Option ℕ

instance abbrev pub delivery_keyed : Keyed Delivery
delivery_keyed = record { Key = ℕ; key = λ r. r.uid; same = λ j k. j == k; same_iff = ==_iff }
