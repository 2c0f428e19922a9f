-- ===== src/OAuth/Tables.antt =====
-- The tables behind internal/api/oauth_authorization.go and internal/api/authorization_decisions.go
-- (migrations/000006_oauth_oidc.up.sql and those after it), with the columns that the code reads.
-- Times are nanoseconds and UUIDs numbers; a hash is the list of its bytes.
use complicatedauth_backend.Prelude.{ℕ, String, Bool, not, ◌&&◌, List, Option}
use complicatedauth_backend.Prelude.Bytes.{bytes_eq, bytes_eq_iff}
use complicatedauth_backend.Table.{Keyed}
use complicatedauth_backend.Cleanup.{is_some}

-- oauth_applications
pub record Application : Type 0 where
  pub uid : ℕ
  pub tenant_uid : ℕ
  pub client_id : String
  pub application_type : String
  pub is_active : Bool
  pub deleted_at : Option ℕ

-- oauth_client_secrets
pub record ClientSecret : Type 0 where
  pub uid : ℕ
  pub application_uid : ℕ
  pub prefix : String
  pub secret_hash : List ℕ
  pub is_active : Bool
  pub expires_at : ℕ
  pub last_used_at : Option ℕ

-- tenant_members
pub record Member : Type 0 where
  pub uid : ℕ
  pub email : String
  pub display_name : String
  pub is_active : Bool
  pub email_verified_at : Option ℕ

-- resource_servers
pub record ResourceServer : Type 0 where
  pub uid : ℕ
  pub tenant_uid : ℕ
  pub identifier : String
  pub is_active : Bool
  pub deleted_at : Option ℕ
  pub policy_version : ℕ

-- resource_server_scopes
pub record Scope : Type 0 where
  pub uid : ℕ
  pub resource_server_uid : ℕ
  pub name : String
  pub is_active : Bool
  pub deleted_at : Option ℕ

-- oauth_application_grants
pub record Grant : Type 0 where
  pub uid : ℕ
  pub application_uid : ℕ
  pub resource_server_uid : ℕ
  pub is_active : Bool
  pub deleted_at : Option ℕ

-- oauth_application_grant_scopes
pub record Assignment : Type 0 where
  pub grant_uid : ℕ
  pub scope_uid : ℕ

-- oauth_authorization_codes, whose code_hash is unique
pub record Code : Type 0 where
  pub uid : ℕ
  pub code_hash : List ℕ
  pub application_uid : ℕ
  pub tenant_uid : ℕ
  pub member_uid : ℕ
  pub redirect_uri : String
  pub scopes : List String
  pub nonce : String
  pub code_challenge : String
  pub auth_time : ℕ
  pub expires_at : ℕ
  pub consumed_at : Option ℕ
  pub resource_server_uid : Option ℕ

instance abbrev pub code_keyed : Keyed Code
code_keyed = record {
  Key = List ℕ;
  key = λ c. c.code_hash;
  same = bytes_eq;
  same_iff = bytes_eq_iff;
}

-- oauth_subjects
pub record Subject : Type 0 where
  pub application_uid : ℕ
  pub member_uid : ℕ
  pub subject : String

-- oauth_access_tokens, whose token_hash is unique
pub record Token : Type 0 where
  pub uid : ℕ
  pub token_hash : List ℕ
  pub jti : ℕ
  pub application_uid : ℕ
  pub tenant_uid : ℕ
  pub member_uid : ℕ
  pub subject : String
  pub scopes : List String
  pub created_at : ℕ
  pub expires_at : ℕ
  pub resource_server_uid : Option ℕ
  pub revoked_at : Option ℕ

instance abbrev pub token_keyed : Keyed Token
token_keyed = record {
  Key = List ℕ;
  key = λ t. t.token_hash;
  same = bytes_eq;
  same_iff = bytes_eq_iff;
}

-- oauth_consents
pub record Consent : Type 0 where
  pub uid : ℕ
  pub tenant_uid : ℕ
  pub member_uid : ℕ
  pub application_uid : ℕ
  pub scopes : List String
  pub resource_server_uid : Option ℕ
  pub is_active : Bool
  pub updated_at : ℕ
  pub revoked_at : Option ℕ

-- What administrators manage, which the flow only reads.
pub record Registry : Type 0 where
  pub applications : List Application
  pub members : List Member
  pub resources : List ResourceServer
  pub scopes : List Scope
  pub grants : List Grant
  pub assignments : List Assignment
  pub subjects : List Subject

-- What the flow changes.
pub record Tables : Type 0 where
  pub secrets : List ClientSecret
  pub codes : List Code
  pub tokens : List Token
  pub consents : List Consent

abbrev pub is_none : {A : Type 0} → Option A → Bool
is_none o = not (is_some o)

-- status='active' AND deleted_at IS NULL
abbrev pub live_application : Application → Bool
live_application a = a.is_active && is_none a.deleted_at

abbrev pub live_resource : ResourceServer → Bool
live_resource r = r.is_active && is_none r.deleted_at

abbrev pub live_scope : Scope → Bool
live_scope s = s.is_active && is_none s.deleted_at

abbrev pub live_grant : Grant → Bool
live_grant g = g.is_active && is_none g.deleted_at
