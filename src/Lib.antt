-- ===== src/Lib.antt =====
-- ComplicatedAuth's backend keeps all shared state in PostgreSQL, so that replicas of the API
-- coordinate through its tables only. This library models the coordination: the stores of
-- internal/store, which the handlers of internal/api call before and after their own work.
--
-- The parts. A handler that must not run twice calls IdempotencyStore.Begin, works, and calls
-- Complete or, inside its own transaction, CompleteTx. Sign-in, invitation and
-- recovery requests call RateLimiter.Take.
-- Work that outlives a request is a row of background_jobs, which the workers of
-- internal/api/background_jobs.go claim, and then complete, retry or reschedule; an operator lists
-- jobs and replays dead ones with cmd/jobctl. A maintenance job deletes expired rows in batches, and
-- e-mails are encrypted with a keyring and sent by jobs. The OAuth endpoints exchange codes for tokens.
--
-- Files.
--   Prelude: names of the libraries, Boolean tests, lists measured by native numbers, Go's signed
--     integers, and what is used of Go's strings and regexp.
--   Table: a table as the list of its rows with a key, and the statements on it.
--   Db: results, failing calls and transactions of pgx.
--   Duration: durationSeconds of internal/store/idempotency.go.
--   Cleanup: the bounded deletion that DeleteExpired of internal/store/idempotency.go and of
--     internal/store/rate_limits.go share.
--   Idempotency: internal/store/idempotency.go. begin, complete and delete_expired are Begin,
--     Complete with CompleteTx, and DeleteExpired; Validate is validateIdempotencyRequest and Digest
--     is equalDigest.
--   RateLimit: internal/store/rate_limits.go. take, reset and delete_expired are Take, Reset and
--     DeleteExpired.
--   Jobs: internal/store/background_jobs.go. claim, complete, retry, reschedule are Claim, Complete,
--     Retry and Reschedule; Jobs/Operator has List and Replay. Jobs/Scheduling has the other statements
--     that write background_jobs: the inserts of scheduleEmailDelivery and ensureMaintenanceJob, the
--     upsert of updateSupportCase (internal/api/support_cases.go) and the deletion of completed jobs.
--     A step of Jobs/Calls is one of all these.
--   Migrations: internal/store/migrations.go. Files has loadMigrations, migrate is Migrate.
--   Entry: the guards in front of handlers. begin_idempotent_request is beginIdempotentRequest of
--     internal/api/idempotency_http.go; take_rate_limit and reset_rate_limit are takeRateLimit and
--     resetRateLimit of internal/api/server.go.
--   OAuth: the authorization server from the token endpoint on. Tables has its tables; Scopes, Client,
--     Exchange and Access are the parts of internal/api/oauth_authorization.go (oauth_token is
--     oauthToken, oauth_revoke oauthRevoke, user_info oauthUserInfo, revoke_oauth_consent
--     revokeOAuthConsent); Decisions is internal/api/authorization_decisions.go. Changes, Exchanges,
--     Calls and Steps say what calls do; Signing is ensureOAuthSigningKey and oauthJWKS of
--     internal/api/oauth_signing.go; Entitled says what a decision needs; Safety, Revocation, Rights, Consents and Verifiable have the
--     theorems.
--   Keyring: internal/auth/keyring.go. parse_encryption_keyring, seal and open_value are
--     ParseEncryptionKeyring, Seal and Open.
--   Mail: internal/api/email_delivery.go. schedule_email_delivery, deliver_email and render_email are
--     scheduleEmailDelivery, deliverEmail and renderEmail.
--   Maintenance: internal/api/maintenance.go. Batches has the loop over statements, and
--     run_maintenance_cleanup is runMaintenanceCleanup.
--   Workers: internal/api/background_jobs.go. Rounds is the loop of runBackgroundJobWorker over an
--     interface of handlers, with what others do to the queue between its calls,
--     handle_background_job is handleBackgroundJob, Delay is
--     backgroundJobRetryDelay and Purge is purgeSupportCase.
--
-- How state is modelled. A table is a list of rows, and an operation takes the table and returns its
-- answer with the new table. Calls are serialized, as the row locks of PostgreSQL serialize those
-- that touch the same row; rows that another transaction has locked are an argument of claim. Every
-- reading of clock_timestamp() in a statement of internal/store is an argument of its own, so that
-- nothing is assumed of the clock but what a theorem says; a statement of internal/api has one
-- reading. Every call of pgx can fail: a failed commit, or a failed
-- statement outside a transaction, may or may not have taken effect, and both are modelled. The UIDs
-- that uuid.New() gives are arguments. Times and durations are in nanoseconds; UUIDs are numbers,
-- uuid.Nil being 0; a digest is the list of its bytes.
--
-- Bounds. All recursion is structural, on rows or on bytes, so that no fuel is used. The durations
-- and limits that reach arithmetic have passed the code's own bounds (at most 30 days, 10000 rows,
-- a million requests), far from the limits of int64 and of PostgreSQL's integer; the attempts of a
-- job stay below its maximum, which the table keeps at 100 or less.
--
-- Not modelled: the JSON codec of response headers, which is a parameter with the property that it
-- decodes what it encoded; SHA-256; the SQL text of migrations, whose effect is a parameter;
-- the SQL server itself; logging; JWT signing, the PKCE digest and normalizeResourceIdentifier, which are
-- parameters; the authorization endpoint of OAuth and the administration of its applications; the
-- other handlers, of updateSupportCase all but that upsert, the SMTP session, and the WebAuthn and FIDO
-- parts of internal/api.
pub mod Prelude
pub mod Table
pub mod Db
pub mod Duration
pub mod Cleanup
pub mod Idempotency
pub mod RateLimit
pub mod Jobs
pub mod Migrations
pub mod Entry
pub mod OAuth
pub mod Maintenance
pub mod Keyring
pub mod Mail
pub mod Workers
